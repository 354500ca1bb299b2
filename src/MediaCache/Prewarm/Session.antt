-- ===== src/MediaCache/Prewarm/Session.antt =====
-- A Prewarm of internal/mediacache/service.go followed by a request to TryServeRange.
use zero_nime.Base.{
  ℕ, ◌≤◌, ◌<◌, ◌≡◌, refl, ap, sym, subst, ◌∙◌, ◌⊎◌, inl, inr, false, true, some, [], pos, ◌<ℤ◌,
  max_int64, pos_part, ok, M, length, if_false, ◌||◌,
}
use zero_nime.Domain.{StartupMediaCache, StreamCandidate}
use zero_nime.Http.{Bytes}
use zero_nime.MediaCache.Blobs.{Table, IsBlobStore}
use zero_nime.MediaCache.Prewarm.Correct.{Prewarmed, prewarm_parts-Prewarmed}
use zero_nime.MediaCache.Prewarm.Stored.{Stored, StoredTail}
use zero_nime.MediaCache.Prewarm.Upstream.{Serves, IsWorking}
use zero_nime.MediaCache.Prewarm.{
  prewarm, prewarm_with, prewarm_service, prewarm_parts, is_sufficiently_cached,
}
use zero_nime.MediaCache.Range.{range_header}
use zero_nime.MediaCache.Serve.Exact.{Holds, HoldsTail, Cut}
use zero_nime.MediaCache.Serve.Hit.{try_serve_range-head_hit}
use zero_nime.MediaCache.Serve.Request.{Finds, Answers, try_serve_range-Answers}
use zero_nime.MediaCache.Serve.{try_serve_range, same_source}
use zero_nime.MediaCache.{
  Service, BlobStore, Fetcher, MetadataStore, KeyFunctions, blob_key, source_key,
}
use zero_nime.Text.{Text, text, ◌==◌, trim_space}
use zero_nime.Text.Laws.{eq_refl}

module _ {W : Type 0} (look : Table W) (blobs : BlobStore W) (lawful : IsBlobStore look blobs) where
  -- what is stored is what reading finds
  Holds-Stored :
      (file : Bytes) (entry : StartupMediaCache) (w : W)
      → Stored look file entry w
      → Holds file entry blobs w
  Holds-Stored file entry w v = record {
    content_length = v.content_length;
    head_length = v.head_length;
    fits = v.fits;
    head_bytes = v.head_bytes;
    head_blob = lawful.get_present entry.head_key _ w v.head_blob;
    tail = tail v.tail;
  }
    where
      tail :
          (entry.tail_key ≡ []) ⊎ StoredTail look file entry w
          → (entry.tail_key ≡ []) ⊎ HoldsTail file entry blobs w
      tail (inl e) = inl e
      tail (inr t) = inr (record {
        tail_length = t.tail_length;
        fits = t.fits;
        tail_bytes = t.tail_bytes;
        blob = lawful.get_present entry.tail_key _ w t.blob;
      })

-- A service, what it works with, and a file at the URL of a candidate for an episode. Each call of
-- the stores succeeds, and the upstream serves every range of the file.
pub record Setting {W : Type 0} (keys : KeyFunctions) (s : Service W) (id : Text)
    (candidate : StreamCandidate) (file : Bytes) : Type 1 where
  pub look : Table W
  pub store : MetadataStore W
  pub blobs : BlobStore W
  pub fetcher : Fetcher W
  pub has_store : s.store ≡ some store
  pub has_blobs : s.blobs ≡ some blobs
  pub has_fetcher : s.fetcher ≡ some fetcher
  pub works : IsWorking look store blobs fetcher
  pub serves : Serves fetcher candidate.url file
  pub fits : length file ≤ max_int64
  pub has_bytes : 0 < length file
  pub named : (trim_space id == []) ≡ false
  pub has_url : (trim_space candidate.url == []) ≡ false
  pub apart :
      (blob_key keys id candidate.url (text "tail") == blob_key keys id candidate.url (text "head"))
      ≡ false
  pub head_fits : pos_part s.head_bytes ≤ max_int64
  pub tail_fits : pos_part s.tail_bytes ≤ max_int64

module _ {W : Type 0} (keys : KeyFunctions) (s : Service W) (id : Text)
    (candidate : StreamCandidate) (file : Bytes) (c : Setting keys s id candidate file) where
  -- the service is not satisfied with what it has for the episode
  abbrev pub Uncached : W → W → Type 0
  Uncached w w' =
      is_sufficiently_cached keys c.store c.blobs s.head_bytes s.tail_bytes id candidate.url w
      ≡ (ok false, w')

  prewarm_with-runs :
      (w w' : W)
      → Uncached w w'
      → prewarm_with keys c.store c.blobs c.fetcher s.head_bytes s.tail_bytes id candidate w
        ≡ prewarm_parts keys c.store c.blobs c.fetcher s.head_bytes s.tail_bytes id candidate w'
  unfolding prewarm_with
  prewarm_with-runs w w' e =
      if_false {A = M W (Unit {0})}
        (λ m.
          m w
          ≡ prewarm_parts keys c.store c.blobs c.fetcher s.head_bytes s.tail_bytes id candidate w')
        (trim_space id == [] || trim_space candidate.url == []) _ _ (rw (c.named, c.has_url))
        (rw e refl)

  prewarm-runs :
      (w w' : W)
      → Uncached w w'
      → prewarm keys (some s) id candidate w
        ≡ prewarm_parts keys c.store c.blobs c.fetcher s.head_bytes s.tail_bytes id candidate w'
  unfolding prewarm
  prewarm-runs w w' e =
      ap (λ x. prewarm_service keys x s.blobs s.fetcher s.head_bytes s.tail_bytes id candidate w)
        c.has_store
      ∙ ap
          (λ x.
            prewarm_service keys (some c.store) x s.fetcher s.head_bytes s.tail_bytes id candidate
              w)
          c.has_blobs
      ∙ ap
          (λ x.
            prewarm_service keys (some c.store) (some c.blobs) x s.head_bytes s.tail_bytes id
              candidate w)
          c.has_fetcher
      ∙ prewarm_with-runs w w' e

  -- In a `Setting`, where each call of the stores succeeds and the upstream serves every range of
  -- the file, Prewarm of an episode that is not cached succeeds, and the store then finds an entry
  -- for it that was made from this source and describes the file.
  pub prewarm-Prewarmed :
      (w w' : W)
      → Uncached w w'
      → Prewarmed keys c.look c.store file id candidate.url s.head_bytes
          (prewarm keys (some s) id candidate w)
  prewarm-Prewarmed w w' e =
      subst (Prewarmed keys c.look c.store file id candidate.url s.head_bytes)
        (sym (prewarm-runs w w' e))
        (prewarm_parts-Prewarmed keys c.look c.store c.blobs c.fetcher c.works file id candidate
          c.serves c.fits c.has_bytes c.apart s.head_bytes s.tail_bytes w' c.head_fits c.tail_fits)

  -- the episode's entry is found from there on
  abbrev finds :
      (w w' : W) → Uncached w w' → Finds s id (prewarm keys (some s) id candidate w).1 file
  finds w w' e =
      let p = prewarm-Prewarmed w w' e in
      record {
        store = c.store;
        blobs = c.blobs;
        has_store = c.has_store;
        has_blobs = c.has_blobs;
        entry = p.entry;
        after = (c.store.get_startup_media_cache id (prewarm keys (some s) id candidate w).1).1;
        found = λ i. (
          p.found i,
          (c.store.get_startup_media_cache id (prewarm keys (some s) id candidate w).1).1,
        );
        holds = Holds-Stored c.look c.blobs c.works.blob_store file p.entry _ p.stored;
      }

  -- In a `Setting`, after Prewarm of an episode that was not cached, any request for the episode is
  -- answered with exactly the bytes of the file that its range names, or left to the upstream.
  pub try_serve_range-prewarm :
      (w w' : W) (url header : Text)
      → Uncached w w'
      → Answers file header
          (try_serve_range keys (some s) id url header (prewarm keys (some s) id candidate w).1).0
  try_serve_range-prewarm w w' url header e =
      try_serve_range-Answers keys s id url header file _ (finds w w' e)

  same_source_of_current :
      (entry : StartupMediaCache)
      → entry.source_key ≡ source_key keys candidate.url
      → (source_key keys candidate.url == []) ≡ false
      → same_source keys entry candidate.url ≡ true
  unfolding same_source
  same_source_of_current entry e ne = rw (e, ne) (eq_refl (source_key keys candidate.url))

  -- In a `Setting`, after Prewarm of an episode that was not cached, a request for bytes of the
  -- configured head, from the same URL, is answered with these bytes, if the URL has a source key.
  pub try_serve_range-prewarm-hit :
      (w w' : W) (a b : ℕ)
      → Uncached w w'
      → (source_key keys candidate.url == []) ≡ false
      → a ≤ b
      → pos b <ℤ s.head_bytes
      → b < length file
      → Cut file a b
          (try_serve_range keys
            (some s)
            id
            candidate.url
            (range_header (pos a) (pos b))
            (prewarm keys (some s) id candidate w).1).0
  unfolding Holds-Stored
  try_serve_range-prewarm-hit w w' a b e ne h k m =
      let p = prewarm-Prewarmed w w' e in
      try_serve_range-head_hit keys file a b s id candidate.url _ (finds w w' e) h (p.covers b k m)
        c.fits c.named (same_source_of_current p.entry p.current ne)
