-- ===== src/MediaCache/Prewarm/Correct.antt =====
-- After Prewarm of internal/mediacache/service.go the cache describes the file of the upstream,
-- and TryServeRange answers from it.
use zero_nime.Base.{
  ℕ, suc, ◌-◌, ◌≤◌, ◌<◌, ◌≡◌, refl, ap, sym, subst, ◌∙◌, false, Option, some, inl, arith, ℤ, pos,
  ◌-ℤ◌, ◌<ℤ◌, max_int64, pos_part, wrap64, ok, M, Result, length, take, length-take-le, bind-ok,
  lift, ◌>>=◌, ◌>>◌, if◌then◌else◌,
}
use zero_nime.Domain.{StartupMediaCache, StreamCandidate}
use zero_nime.Http.{Bytes, Response}
use zero_nime.MediaCache.Blobs.{Table}
use zero_nime.MediaCache.Prewarm.Entry.{
  head_entry, read_all_and_close, positive_or, total_length_from_response,
}
use zero_nime.MediaCache.Prewarm.Parts.{
  head_end-le, head_end, take-length-take, lt-length-take, le-head_end, read_of_IsPartial,
  total_of_IsPartial,
}
use zero_nime.MediaCache.Prewarm.Stored.{Stored, Stored-moves, TailStep, store_tail-TailStep}
use zero_nime.MediaCache.Prewarm.Upstream.{Serves, IsWorking}
use zero_nime.MediaCache.Prewarm.{prewarm_parts, store_tail}
use zero_nime.MediaCache.Range.{range_header}
use zero_nime.MediaCache.{BlobStore, Fetcher, MetadataStore, KeyFunctions, blob_key, source_key}
use zero_nime.Text.{Text, text, ◌==◌}
use zero_nime.Text.Laws.{eq_refl}

-- The call succeeded, and the store then finds an entry for the episode that was made from this
-- source and describes the file, with a head of the configured size if the file is long enough.
pub record Prewarmed {W : Type 0} (keys : KeyFunctions) (look : Table W) (store : MetadataStore W)
    (file : Bytes) (id url : Text) (head_bytes : ℤ) (outcome : Result (Unit {0}) × W) : Type 0 where
  pub succeeded : outcome.0 ≡ ok tt
  pub entry : StartupMediaCache
  pub found : (store.get_startup_media_cache id outcome.1).0 ≡ ok (some entry)
  pub current : entry.source_key ≡ source_key keys url
  pub stored : Stored look file entry (store.get_startup_media_cache id outcome.1).1
  pub covers : (b : ℕ) → pos b <ℤ head_bytes → b < length file → b < stored.head_length

module _ {W : Type 0} (keys : KeyFunctions) (look : Table W) (store : MetadataStore W)
    (blobs : BlobStore W) (fetcher : Fetcher W) (works : IsWorking look store blobs fetcher)
    (file : Bytes) (id : Text) (candidate : StreamCandidate)
    (serves : Serves fetcher candidate.url file) (fits : length file ≤ max_int64)
    (has_bytes : 0 < length file)
    (apart : (blob_key keys id candidate.url (text "tail")
        == blob_key keys id candidate.url (text "head"))
      ≡ false) where
  abbrev head_key : Text
  head_key = blob_key keys id candidate.url (text "head")

  positive_total :
      (z : ℤ) (n : ℕ) → z ≡ pos (length file) → positive_or z (pos n) ≡ pos (length file)
  positive_total z n e = ground arith

  head-Stored :
      (n : ℕ) (r : Response) (w : W)
      → total_length_from_response (some r) ≡ pos (length file)
      → Stored look file
          (head_entry keys id candidate (some r) (take n file))
          (blobs.put head_key (take n file) w).1
  unfolding head_entry
  head-Stored n r w total = record {
    content_length = positive_total _ (length (take n file)) total;
    head_length = length (take n file);
    fits = length-take-le n file;
    head_bytes = refl;
    head_blob =
        works.blob_store.put_stores head_key (take n file) w head_key (works.put_accepts _ _ w)
        ∙ ap (λ x. if x then some (take n file) else look w head_key) (eq_refl head_key)
        ∙ ap some (take-length-take n file);
    tail = inl refl;
  }

  -- the step from the stored head on
  finish :
      (r : Response) (n : ℕ) (tail_bytes : ℤ) (w : W)
      → total_length_from_response (some r) ≡ pos (length file)
      → pos_part tail_bytes ≤ max_int64
      → TailStep look file (head_entry keys id candidate (some r) (take n file)) (
          store_tail keys blobs fetcher tail_bytes
            (head_entry keys id candidate (some r) (take n file))
            (blobs.put head_key (take n file) w).1)
  finish r n tail_bytes w total bound =
      store_tail-TailStep keys look store blobs fetcher works file candidate.url serves fits _ _
        tail_bytes (head-Stored n r w total) (unfold head_entry in refl)
        (unfold head_entry in apart) bound

  Prewarmed-upsert :
      (entry : StartupMediaCache) (w : W) (n : ℕ) (head_bytes : ℤ)
      → Stored look file entry w
      → entry.head_bytes ≡ pos (length (take n file))
      → ((b : ℕ) → pos b <ℤ head_bytes → b < n)
      → entry.episode_id ≡ id
      → entry.source_key ≡ source_key keys candidate.url
      → Prewarmed keys look store file id candidate.url head_bytes
          (store.upsert_startup_media_cache entry w)
  Prewarmed-upsert entry w n head_bytes v size covers same from = record {
    succeeded = works.upsert_accepts entry w;
    entry = entry;
    found =
        ap (λ i. (store.get_startup_media_cache i (store.upsert_startup_media_cache entry w).1).0)
          (sym same)
        ∙ works.get_upsert entry w;
    current = from;
    stored =
        Stored-moves look file entry w _
          (λ j. works.get_leaves id _ j ∙ works.upsert_leaves entry w j) v;
    covers = λ b h k. ground (arith, v.head_bytes, size, lt-length-take b n file (covers b h) k);
  }

  -- from the fetched head on
  abbrev after_fetch : ℤ → Option Response → M W (Unit {0})
  after_fetch tail_bytes resp = do
    body ← lift (read_all_and_close resp)
    blobs.put head_key body
    entry ← store_tail keys blobs fetcher tail_bytes (head_entry keys id candidate resp body)
    store.upsert_startup_media_cache entry

  after_fetch-Prewarmed :
      (r : Response) (n : ℕ) (head_bytes tail_bytes : ℤ) (w : W)
      → read_all_and_close (some r) ≡ ok (take n file)
      → total_length_from_response (some r) ≡ pos (length file)
      → pos_part tail_bytes ≤ max_int64
      → ((b : ℕ) → pos b <ℤ head_bytes → b < n)
      → Prewarmed keys look store file id candidate.url head_bytes
          (after_fetch tail_bytes (some r) w)
  after_fetch-Prewarmed r n head_bytes tail_bytes w read total bound covers =
      let (entry, step, stored, same, from, size) = finish r n tail_bytes w total bound in
      subst (Prewarmed keys look store file id candidate.url head_bytes)
        (sym (
          bind-ok (lift (read_all_and_close (some r))) _ w (take n file) read
          ∙ bind-ok (blobs.put head_key (take n file)) _ w tt (works.put_accepts _ _ w)
          ∙ bind-ok (store_tail keys blobs fetcher tail_bytes _) _
              (blobs.put head_key (take n file) w).1 entry step))
        (Prewarmed-upsert entry _ n head_bytes stored (size ∙ unfold head_entry in refl) covers
          (same ∙ unfold head_entry in refl) (from ∙ unfold head_entry in refl))

  -- If the upstream serves a file that is not empty, and the store and the blobs accept what is
  -- written to them, then Prewarm of an episode that is not cached succeeds, and the store finds
  -- an entry for it that was made from this source and describes the file.
  pub prewarm_parts-Prewarmed :
      (head_bytes tail_bytes : ℤ) (w : W)
      → pos_part head_bytes ≤ max_int64
      → pos_part tail_bytes ≤ max_int64
      → Prewarmed keys look store file id candidate.url head_bytes
          (prewarm_parts keys store blobs fetcher head_bytes tail_bytes id candidate w)
  unfolding prewarm_parts
  prewarm_parts-Prewarmed head_bytes tail_bytes w small bound =
      let (last, at) = head_end (wrap64 (head_bytes -ℤ pos 1)) in
      let (r, got, part) =
        serves.responds 0 last w has_bytes (omega arith) (head_end-le _ last at) in
      subst (Prewarmed keys look store file id candidate.url head_bytes)
        (sym (
          bind-ok (fetcher.fetch candidate.url _) (after_fetch tail_bytes) w (some r)
            (ap (λ x. (fetcher.fetch candidate.url (range_header (pos 0) x) w).0) at ∙ got)))
        (after_fetch-Prewarmed r (suc last - 0) head_bytes tail_bytes _
          (read_of_IsPartial file 0 last r part) (total_of_IsPartial file 0 last r part fits) bound
          (λ b h. omega (arith, le-head_end head_bytes last b small at h)))
