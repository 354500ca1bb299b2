-- ===== src/MediaCache/Serve/Upkeep.antt =====
-- What TryServeRange of internal/mediacache/service.go leaves of the world.
use zero_nime.Base.{
  Option, none, some, ℤ, pos, lift, ◌||◌, Preserves, pure-Preserves, lift-Preserves, bind-Preserves,
  if_cases, leb_ℤ, [],
}
use zero_nime.Domain.{StartupMediaCache}
use zero_nime.MediaCache.Range.{ByteRange, parse_range}
use zero_nime.MediaCache.Serve.{
  in_head, in_tail, requested_end, build_cached_partial_response, serve_blob, serve_part,
  serve_range, serve_parsed, same_source, serve_found, serve_with, try_serve_range,
}
use zero_nime.MediaCache.{KeyFunctions, MetadataStore, BlobStore, Service, CachedResponse}
use zero_nime.Text.{Text, ◌==◌, trim_space}

module _ {W : Type 0} (P : W → Type 0) where
  abbrev pub BlobsKeep : Option (BlobStore W) → Type 0
  BlobsKeep none = Unit
  BlobsKeep (some b) = (key : Text) → Preserves P (b.get key)

  abbrev pub EntriesKeep : Option (MetadataStore W) → Type 0
  EntriesKeep none = Unit
  EntriesKeep (some t) = (id : Text) → Preserves P (t.get_startup_media_cache id)

  -- The reads of a startup cache keep the property.
  abbrev pub StartupKeeps : Option (Service W) → Type 0
  StartupKeeps none = Unit
  StartupKeeps (some s) = EntriesKeep s.store × BlobsKeep s.blobs

  module _ (blobs : BlobStore W) (gets : (key : Text) → Preserves P (blobs.get key)) where
    serve_blob-Preserves :
        (entry : StartupMediaCache) (key : Text) (start end base : ℤ)
        → Preserves P (serve_blob blobs entry key start end base)
    unfolding serve_blob
    serve_blob-Preserves entry key start end base =
        bind-Preserves P (blobs.get key) _ (gets key) (λ body.
          bind-Preserves P (lift (build_cached_partial_response entry body start end base)) _
            (lift-Preserves P (build_cached_partial_response entry body start end base))
            (λ r. pure-Preserves P (some r)))

    serve_range-Preserves :
        (entry : StartupMediaCache) (r : ByteRange) → Preserves P (serve_range blobs entry r)
    unfolding serve_range serve_part
    serve_range-Preserves entry r =
        if_cases (Preserves P) (in_head entry r.start (requested_end entry r)) _ _
          (λ _. serve_blob-Preserves entry _ _ _ _)
          (λ _.
            if_cases (Preserves P) (in_tail entry r.start (requested_end entry r)) _ _
              (λ _. serve_blob-Preserves entry _ _ _ _) (λ _ w h. h))

    serve_parsed-Preserves :
        (entry : StartupMediaCache) (o : Option ByteRange)
        → Preserves P (serve_parsed blobs entry o)
    serve_parsed-Preserves entry none = λ w h. h
    serve_parsed-Preserves entry (some r) = serve_range-Preserves entry r

    serve_found-Preserves :
        (keys : KeyFunctions) (url range : Text) (o : Option StartupMediaCache)
        → Preserves P (serve_found keys blobs url range o)
    serve_found-Preserves keys url range none = λ w h. h
    serve_found-Preserves keys url range (some entry) =
        if_cases (Preserves {A = Option CachedResponse} P) (leb_ℤ entry.content_length (pos 0)) _ _
          (λ _ w h. h)
          (λ _.
            if_cases (Preserves {A = Option CachedResponse} P) (same_source keys entry url) _ _
              (λ _. serve_parsed-Preserves entry (parse_range range entry.content_length))
              (λ _ w h. h))

  serve_with-Preserves :
      (keys : KeyFunctions) (store : Option (MetadataStore W)) (blobs : Option (BlobStore W))
      (id url range : Text)
      → EntriesKeep store
      → BlobsKeep blobs
      → Preserves P (serve_with keys store blobs id url range)
  serve_with-Preserves keys none blobs id url range e b = λ w h. h
  serve_with-Preserves keys (some t) none id url range e b = λ w h. h
  serve_with-Preserves keys (some t) (some blobs) id url range e b =
      if_cases (Preserves P) (trim_space range == [] || trim_space id == []) _ _ (λ _ w h. h)
        (λ _.
          bind-Preserves P (t.get_startup_media_cache id) _ (e id)
            (serve_found-Preserves blobs b keys url range))

  -- TryServeRange keeps what the reads of its stores keep.
  pub try_serve_range-Preserves :
      (keys : KeyFunctions) (o : Option (Service W)) (id url range : Text)
      → StartupKeeps o
      → Preserves P (try_serve_range keys o id url range)
  unfolding try_serve_range
  try_serve_range-Preserves keys none id url range k = λ w h. h
  try_serve_range-Preserves keys (some s) id url range (e, b) =
      serve_with-Preserves keys s.store s.blobs id url range e b
