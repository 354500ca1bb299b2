-- ===== src/MediaCache/Serve/Hit.antt =====
-- When TryServeRange of internal/mediacache/service.go answers from the cache: a part of the
-- stored head or of the stored tail, asked for with both ends named.
use zero_nime.Base.{
  ℕ, ◌-◌, ◌≤◌, ◌<◌, ◌≡◌, ap, sym, subst, ◌∙◌, inr, true, false, Option, some, [], arith, pos,
  max_int64, ok, M, length, if_true, if_false, leb_ℤ, ◌||◌,
}
use zero_nime.Domain.{StartupMediaCache}
use zero_nime.Http.{Bytes}
use zero_nime.MediaCache.{BlobStore, MetadataStore, Service, KeyFunctions, CachedResponse}
use zero_nime.MediaCache.Range.{range_header, parse_range}
use zero_nime.MediaCache.Range.RoundTrip.{parse_range-range_header, trim-range_header-not_blank}
use zero_nime.MediaCache.Serve.Exact.{
  Holds, HoldsTail, Cut, serve_head-Cut_of_Holds, serve_tail-Cut_of_HoldsTail,
}
use zero_nime.MediaCache.Serve.Request.{Finds}
use zero_nime.MediaCache.Serve.{
  in_head, in_tail, serve_part, serve_range, serve_parsed, serve_with, same_source, try_serve_range,
}
use zero_nime.Text.{Text, ◌==◌, trim_space}

module _ {W : Type 0} (keys : KeyFunctions) (file : Bytes) (a b : ℕ) where
  head_part :
      (blobs : BlobStore W) (entry : StartupMediaCache) (w : W) (v : Holds file entry blobs w)
      → a ≤ b
      → b < v.head_length
      → Cut file a b (serve_part blobs entry (pos a) (pos b) w).0
  unfolding serve_part
  head_part blobs entry w v h k =
      let e : in_head entry (pos a) (pos b) ≡ true = ground (arith, v.head_bytes) in
      if_true {A = M W (Option CachedResponse)} (λ m. Cut file a b (m w).0)
        (in_head entry (pos a) (pos b)) _ _ e (serve_head-Cut_of_Holds file entry blobs w a b v h e)

  tail_part :
      (blobs : BlobStore W) (entry : StartupMediaCache) (w : W) (v : Holds file entry blobs w)
      (t : HoldsTail file entry blobs w)
      → (entry.tail_key == []) ≡ false
      → a ≤ b
      → b < length file
      → v.head_length ≤ b
      → length file - t.tail_length ≤ a
      → Cut file a b (serve_part blobs entry (pos a) (pos b) w).0
  unfolding serve_part
  tail_part blobs entry w v t key h k past from =
      let miss : in_head entry (pos a) (pos b) ≡ false = ground (arith, v.head_bytes) in
      let hit : in_tail entry (pos a) (pos b) ≡ true =
        ground (arith, v.content_length, t.tail_bytes, t.fits) in
      if_false {A = M W (Option CachedResponse)} (λ m. Cut file a b (m w).0)
        (in_head entry (pos a) (pos b)) _ _ miss
        (if_true {A = M W (Option CachedResponse)} (λ m. Cut file a b (m w).0)
          (in_tail entry (pos a) (pos b)) _ _ hit
          (serve_tail-Cut_of_HoldsTail file entry blobs w a b v.content_length (inr t) h k hit))

  -- the tests before the range is looked at all pass
  serve_with-Cut :
      (store : MetadataStore W) (blobs : BlobStore W) (id url : Text) (entry : StartupMediaCache)
      (w after : W)
      → store.get_startup_media_cache id w ≡ (ok (some entry), after)
      → entry.content_length ≡ pos (length file)
      → a ≤ b
      → b < length file
      → length file ≤ max_int64
      → (trim_space id == []) ≡ false
      → same_source keys entry url ≡ true
      → Cut file a b (serve_part blobs entry (pos a) (pos b) after).0
      → Cut file a b
          (serve_with keys (some store) (some blobs) id url (range_header (pos a) (pos b)) w).0
  serve_with-Cut store blobs id url entry w after found total h k m named same cut =
      if_false {A = M W (Option CachedResponse)} (λ m. Cut file a b (m w).0)
        (trim_space (range_header (pos a) (pos b)) == [] || trim_space id == []) _ _
        (rw (trim-range_header-not_blank a b, named))
        (rw found (
          if_false {A = M W (Option CachedResponse)} (λ m. Cut file a b (m after).0)
            (leb_ℤ entry.content_length (pos 0)) _ _ (ground arith)
            (if_true {A = M W (Option CachedResponse)} (λ m. Cut file a b (m after).0)
              (same_source keys entry url) _ _ same
              (subst (λ p. Cut file a b (serve_parsed blobs entry p after).0)
                (sym (
                  ap (parse_range (range_header (pos a) (pos b))) total
                  ∙ parse_range-range_header a b (length file) h k m))
                (unfold serve_range in cut)))))

  service_with :
      (s : Service W) (id url header : Text) (w : W) (f : Finds s id w file)
      → Cut file a b (serve_with keys (some f.store) (some f.blobs) id url header w).0
      → Cut file a b (try_serve_range keys (some s) id url header w).0
  unfolding try_serve_range
  service_with s id url header w f cut =
      subst (λ x. Cut file a b (serve_with keys x s.blobs id url header w).0) (sym f.has_store)
        (subst (λ y. Cut file a b (serve_with keys (some f.store) y id url header w).0)
          (sym f.has_blobs) cut)

  -- A request that names an episode, comes from the source that the cache entry was made from and
  -- asks for the bytes from `a` to `b` of the stored head is answered with these bytes.
  pub try_serve_range-head_hit :
      (s : Service W) (id url : Text) (w : W) (f : Finds s id w file)
      → a ≤ b
      → b < f.holds.head_length
      → length file ≤ max_int64
      → (trim_space id == []) ≡ false
      → same_source keys f.entry url ≡ true
      → Cut file a b (try_serve_range keys (some s) id url (range_header (pos a) (pos b)) w).0
  try_serve_range-head_hit s id url w f h k m named same =
      service_with s id url (range_header (pos a) (pos b)) w f (
        serve_with-Cut f.store f.blobs id url f.entry w f.after f.found f.holds.content_length h
          (omega (arith, f.holds.fits)) m named same
          (head_part f.blobs f.entry f.after f.holds h k))

  -- A request that names an episode, comes from the source that the cache entry was made from and
  -- asks for the bytes from `a` to `b` of the stored tail, not all of them in the head, is answered
  -- with these bytes.
  pub try_serve_range-tail_hit :
      (s : Service W) (id url : Text) (w : W) (f : Finds s id w file)
      (t : HoldsTail file f.entry f.blobs f.after)
      → a ≤ b
      → b < length file
      → f.holds.head_length ≤ b
      → length file - t.tail_length ≤ a
      → (f.entry.tail_key == []) ≡ false
      → length file ≤ max_int64
      → (trim_space id == []) ≡ false
      → same_source keys f.entry url ≡ true
      → Cut file a b (try_serve_range keys (some s) id url (range_header (pos a) (pos b)) w).0
  try_serve_range-tail_hit s id url w f t h k past from key m named same =
      service_with s id url (range_header (pos a) (pos b)) w f (
        serve_with-Cut f.store f.blobs id url f.entry w f.after f.found f.holds.content_length h k m
          named same (tail_part f.blobs f.entry f.after f.holds t key h k past from))
