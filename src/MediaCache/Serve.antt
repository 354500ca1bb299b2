-- ===== src/MediaCache/Serve.antt =====
-- TryServeRange and buildCachedPartialResponse of internal/mediacache/service.go: a request for a
-- byte range is answered from the cached head or tail of the file.
pub mod Exact
pub mod Request
pub mod Hit
pub mod Upkeep
use zero_nime.Base.{
  ℕ, Bool, true, false, ◌&&◌, ◌||◌, not, Option, none, some, List, [], ◌∷◌, ◌++◌, ℤ, pos, negsuc,
  ◌+ℤ◌, ◌-ℤ◌, ltb_ℤ, leb_ℤ, leb, M, Result, ok, panic, pure, lift, ◌>>=◌, if◌then◌else◌, length,
  slice,
}
use zero_nime.Domain.{StartupMediaCache}
use zero_nime.Http.{Bytes, Header, header_set}
use zero_nime.MediaCache.{
  KeyFunctions, Service, MetadataStore, BlobStore, CachedResponse, source_key,
}
use zero_nime.MediaCache.Range.{ByteRange, parse_range}
use zero_nime.Text.{Text, text, ◌==◌, trim_space}
use zero_nime.Text.Decimal.{format_int}

-- `blob[from:to]`: a panic where the bounds are not 0 ≤ from ≤ to ≤ len(blob). (Go allows `to` up
-- to the capacity of the slice; its spare bytes are not modelled.)
abbrev pub slice_bytes : Bytes → ℤ → ℤ → Result Bytes
slice_bytes blob (pos from) (pos to) =
    if leb from to && leb to (length blob) then ok (slice from to blob) else panic
slice_bytes blob _ _ = panic

-- fmt.Sprintf("bytes %d-%d/%d", start, end, total)
unfoldable pub content_range : ℤ → ℤ → ℤ → Text
content_range start end total =
    text "bytes " ++ (format_int start ++ 45 ∷ (format_int end ++ 47 ∷ format_int total))

unfoldable pub partial_headers : StartupMediaCache → ℤ → ℤ → Bytes → Header
unfolding header_set content_range
partial_headers entry start end body =
    let h1 = header_set [] (text "Accept-Ranges") (text "bytes") in
    let h2 = header_set h1 (text "Content-Type") entry.content_type in
    let h3 = header_set h2 (text "Content-Length") (format_int (pos (length body))) in
    let h4 = header_set h3 (text "Content-Range") (content_range start end entry.content_length) in
    header_set h4 (text "Cache-Control") (text "public, max-age=31536000")

abbrev pub partial_response : StartupMediaCache → ℤ → ℤ → Result Bytes → Result CachedResponse
partial_response entry start end (ok body) =
    ok (record { status_code = 206; headers = partial_headers entry start end body; body = body })
partial_response entry start end _ = panic

-- buildCachedPartialResponse
unfoldable pub build_cached_partial_response :
    StartupMediaCache → Bytes → ℤ → ℤ → ℤ → Result CachedResponse
build_cached_partial_response entry blob start end blob_base =
    partial_response entry start end
      (slice_bytes blob (start -ℤ blob_base) (end -ℤ blob_base +ℤ pos 1))

-- An open range that starts in the head is cut at the end of the head.
abbrev pub requested_end : StartupMediaCache → ByteRange → ℤ
requested_end entry r =
    if r.open_ended && leb_ℤ (pos 0) r.start && ltb_ℤ r.start entry.head_bytes
    then entry.head_bytes -ℤ pos 1
    else r.end

abbrev pub in_head : StartupMediaCache → ℤ → ℤ → Bool
in_head entry start end = leb_ℤ (pos 0) start && ltb_ℤ end entry.head_bytes

abbrev pub in_tail : StartupMediaCache → ℤ → ℤ → Bool
in_tail entry start end =
    not (entry.tail_key == [])
    && ltb_ℤ (pos 0) entry.tail_bytes
    && leb_ℤ (entry.content_length -ℤ entry.tail_bytes) start
    && ltb_ℤ end entry.content_length

module _ {W : Type 0} where
  -- a range is cut from the blob with the given key, whose first byte is `blob_base`
  unfoldable pub serve_blob :
      BlobStore W → StartupMediaCache → Text → ℤ → ℤ → ℤ → M W (Option CachedResponse)
  unfolding build_cached_partial_response
  serve_blob blobs entry key start end blob_base = do
    body ← blobs.get key
    response ← lift (build_cached_partial_response entry body start end blob_base)
    pure (some response)

  -- the part from `start` to `end` is looked for in the head, and then in the tail
  unfoldable pub serve_part : BlobStore W → StartupMediaCache → ℤ → ℤ → M W (Option CachedResponse)
  serve_part blobs entry start end =
      if in_head entry start end
      then serve_blob blobs entry entry.head_key start end (pos 0)
      else if in_tail entry start end
      then serve_blob blobs entry entry.tail_key start end
          (entry.content_length -ℤ entry.tail_bytes)
      else pure none

  -- from the parsed range on
  unfoldable pub serve_range :
      BlobStore W → StartupMediaCache → ByteRange → M W (Option CachedResponse)
  unfolding serve_part
  serve_range blobs entry r = serve_part blobs entry r.start (requested_end entry r)

  abbrev pub serve_parsed :
      BlobStore W → StartupMediaCache → Option ByteRange → M W (Option CachedResponse)
  serve_parsed blobs entry none = pure none
  serve_parsed blobs entry (some r) = serve_range blobs entry r

module _ (keys : KeyFunctions) where
  -- the entry was made from the same file of the upstream
  unfoldable pub same_source : StartupMediaCache → Text → Bool
  same_source entry source_url =
      if not (entry.source_key == [])
      then entry.source_key == source_key keys source_url
      else source_key keys entry.source_url == source_key keys source_url
        || entry.source_url == source_url

module _ (keys : KeyFunctions) {W : Type 0} where
  abbrev pub serve_found :
      BlobStore W → Text → Text → Option StartupMediaCache → M W (Option CachedResponse)
  serve_found blobs source_url range_header none = pure none
  serve_found blobs source_url range_header (some entry) =
      if leb_ℤ entry.content_length (pos 0)
      then pure none
      else if same_source keys entry source_url
      then serve_parsed blobs entry (parse_range range_header entry.content_length)
      else pure none

  abbrev pub serve_with :
      Option (MetadataStore W)
      → Option (BlobStore W)
      → Text
      → Text
      → Text
      → M W (Option CachedResponse)
  serve_with none blobs episode_id source_url range_header = pure none
  serve_with (some store) none episode_id source_url range_header = pure none
  serve_with (some store) (some blobs) episode_id source_url range_header =
      if trim_space range_header == [] || trim_space episode_id == [] then pure none else do
        found ← store.get_startup_media_cache episode_id
        serve_found blobs source_url range_header found

  -- TryServeRange; `none` as a result is `nil, false, nil`, and `none` as a receiver is nil
  unfoldable pub try_serve_range :
      Option (Service W) → Text → Text → Text → M W (Option CachedResponse)
  try_serve_range none episode_id source_url range_header = pure none
  try_serve_range (some s) episode_id source_url range_header =
      serve_with s.store s.blobs episode_id source_url range_header
