-- ===== src/MediaCache/Prewarm.antt =====
-- Prewarm of internal/mediacache/service.go: the head and the tail of an episode's file are
-- fetched from the upstream and stored, with an entry that describes them.
pub mod Entry
pub mod Upstream
pub mod Parts
pub mod Stored
pub mod Correct
pub mod Session
use zero_nime.Base.{
  Bool, true, false, ◌&&◌, ◌||◌, not, Option, none, some, [], ◌∷◌, List, ℤ, pos, ◌-ℤ◌, ltb_ℤ, leb_ℤ,
  wrap64, M, Result, ok, err, panic, pure, fail, lift, attempt, ◌>>=◌, ◌>>◌, if◌then◌else◌, length,
}
use zero_nime.Domain.{StartupMediaCache, StreamCandidate}
use zero_nime.Http.{Bytes, Response, header_get}
use zero_nime.MediaCache.{
  KeyFunctions, Service, MetadataStore, BlobStore, Fetcher, source_key, blob_key,
}
use zero_nime.MediaCache.Range.{range_header}
use zero_nime.Text.{Text, text, ◌==◌, trim_space, split}
use zero_nime.Text.Decimal.{parse_int}
use zero_nime.MediaCache.Prewarm.Entry.{
  max_ℤ, read_all_and_close, is_current, with_tail, tail_start, wants_tail, head_entry,
}

module _ {W : Type 0} where
  abbrev read_outcome : Result Bytes → M W Bool
  read_outcome (ok body) = pure true
  read_outcome (err e) = pure false
  read_outcome panic = lift panic

  -- the blob can be read
  unfoldable pub is_readable : BlobStore W → Text → M W Bool
  is_readable blobs key = do r ← attempt (blobs.get key); read_outcome r

  unfoldable pub is_tail_cached : BlobStore W → ℤ → StartupMediaCache → M W Bool
  is_tail_cached blobs tail_bytes entry =
      if ltb_ℤ (pos 0) tail_bytes
      then (if entry.tail_key == [] || ltb_ℤ entry.tail_bytes tail_bytes
          then pure false
          else is_readable blobs entry.tail_key)
      else pure true

module _ {W : Type 0} (keys : KeyFunctions) where
  unfoldable pub is_entry_cached : BlobStore W → ℤ → ℤ → Text → StartupMediaCache → M W Bool
  is_entry_cached blobs head_bytes tail_bytes url entry =
      if not (is_current keys entry url)
      then pure false
      else if entry.head_key == [] || ltb_ℤ entry.head_bytes head_bytes
      then pure false
      else do
        readable ← is_readable blobs entry.head_key
        if readable then is_tail_cached blobs tail_bytes entry else pure false

  abbrev is_found_cached : BlobStore W → ℤ → ℤ → Text → Result (Option StartupMediaCache) → M W Bool
  is_found_cached blobs head_bytes tail_bytes url (ok (some entry)) =
      is_entry_cached blobs head_bytes tail_bytes url entry
  is_found_cached blobs head_bytes tail_bytes url (ok none) = pure false
  is_found_cached blobs head_bytes tail_bytes url (err e) = pure false
  is_found_cached blobs head_bytes tail_bytes url panic = lift panic

  -- isSufficientlyCached
  unfoldable pub is_sufficiently_cached :
      MetadataStore W → BlobStore W → ℤ → ℤ → Text → Text → M W Bool
  is_sufficiently_cached store blobs head_bytes tail_bytes episode_id url = do
    found ← attempt (store.get_startup_media_cache episode_id)
    is_found_cached blobs head_bytes tail_bytes url found

  abbrev tail_put : StartupMediaCache → Text → Bytes → Result (Unit {0}) → M W StartupMediaCache
  tail_put entry key body (ok _) = pure (with_tail entry key body)
  tail_put entry key body (err e) = pure entry
  tail_put entry key body panic = lift panic

  -- a tail that was read and is not empty is stored; errors leave the entry as it is
  abbrev tail_read : BlobStore W → StartupMediaCache → Result Bytes → M W StartupMediaCache
  tail_read blobs entry (ok []) = pure entry
  tail_read blobs entry (ok (c ∷ body)) = do
    r ←
        attempt
          (blobs.put (blob_key keys entry.episode_id entry.source_url (text "tail")) (c ∷ body))
    tail_put entry (blob_key keys entry.episode_id entry.source_url (text "tail")) (c ∷ body) r
  tail_read blobs entry (err e) = pure entry
  tail_read blobs entry panic = lift panic

  abbrev tail_fetched :
      BlobStore W → StartupMediaCache → Result (Option Response) → M W StartupMediaCache
  tail_fetched blobs entry (ok resp) = tail_read blobs entry (read_all_and_close resp)
  tail_fetched blobs entry (err e) = pure entry
  tail_fetched blobs entry panic = lift panic

  unfoldable pub tail_request :
      BlobStore W → Fetcher W → ℤ → StartupMediaCache → M W StartupMediaCache
  tail_request blobs fetcher tail_bytes entry = do
    r ← attempt (
        fetcher.fetch entry.source_url (
          range_header (tail_start entry.content_length tail_bytes)
            (entry.content_length -ℤ pos 1)))
    tail_fetched blobs entry r

  -- the `if` statement that stores the tail
  unfoldable pub store_tail :
      BlobStore W → Fetcher W → ℤ → StartupMediaCache → M W StartupMediaCache
  store_tail blobs fetcher tail_bytes entry =
      if wants_tail tail_bytes entry
      then tail_request blobs fetcher tail_bytes entry
      else pure entry

  -- Prewarm from the fetch of the head on
  unfoldable pub prewarm_parts :
      MetadataStore W → BlobStore W → Fetcher W → ℤ → ℤ → Text → StreamCandidate → M W (Unit {0})
  prewarm_parts store blobs fetcher head_bytes tail_bytes episode_id candidate = do
    resp ←
        fetcher.fetch candidate.url
          (range_header (pos 0) (max_ℤ (pos 0) (wrap64 (head_bytes -ℤ pos 1))))
    body ← lift (read_all_and_close resp)
    blobs.put (blob_key keys episode_id candidate.url (text "head")) body
    entry ← store_tail blobs fetcher tail_bytes (head_entry keys episode_id candidate resp body)
    store.upsert_startup_media_cache entry

  unfoldable pub prewarm_with :
      MetadataStore W → BlobStore W → Fetcher W → ℤ → ℤ → Text → StreamCandidate → M W (Unit {0})
  prewarm_with store blobs fetcher head_bytes tail_bytes episode_id candidate =
      if trim_space episode_id == [] || trim_space candidate.url == []
      then fail (text "episode id and candidate url are required")
      else do
        cached ← is_sufficiently_cached store blobs head_bytes tail_bytes episode_id candidate.url
        if cached
            then pure tt
            else prewarm_parts store blobs fetcher head_bytes tail_bytes episode_id candidate

  abbrev prewarm_service :
      Option (MetadataStore W)
      → Option (BlobStore W)
      → Option (Fetcher W)
      → ℤ
      → ℤ
      → Text
      → StreamCandidate
      → M W (Unit {0})
  prewarm_service (some store) (some blobs) (some fetcher) head_bytes tail_bytes =
      prewarm_with store blobs fetcher head_bytes tail_bytes
  prewarm_service _ _ _ head_bytes tail_bytes = λ episode_id candidate. pure tt

  -- Prewarm; a nil receiver is `none`
  unfoldable pub prewarm : Option (Service W) → Text → StreamCandidate → M W (Unit {0})
  prewarm none episode_id candidate = pure tt
  prewarm (some s) episode_id candidate =
      prewarm_service s.store s.blobs s.fetcher s.head_bytes s.tail_bytes episode_id candidate
