-- ===== src/MediaCache/Serve/Exact.antt =====
-- What TryServeRange serves is exactly the requested part of the file that the cache entry was
-- made from.
use mathlib.Core.Bool.{false≢true}
use zero_nime.Base.{
  ℕ, suc, ◌-◌, ◌≤◌, ◌<◌, ◌≡◌, refl, ap, ◌∙◌, ◌⊎◌, Option, some, [], arith, ℤ, pos, ◌-ℤ◌, ◌+ℤ◌, ok,
  M, Result, none, inl, inr, true, false, if_cases, sym, subst, length, take, drop, slice,
  slice-take, slice-drop, length-take, length-drop, length-slice,
}
use zero_nime.Domain.{StartupMediaCache}
use zero_nime.Http.{Bytes, header_get}
use zero_nime.MediaCache.{BlobStore, CachedResponse}
use zero_nime.MediaCache.Serve.{
  slice_bytes, content_range, partial_headers, build_cached_partial_response, serve_blob, in_head,
  in_tail, serve_part,
}
use zero_nime.Text.{Text, text, ◌==◌}
use zero_nime.Text.Decimal.{format_int}
use zero_nime.Text.Laws.{eq_iff}

-- The stored tail is the end of the file.
pub record HoldsTail {W : Type 0} (file : Bytes) (entry : StartupMediaCache) (blobs : BlobStore W)
    (w : W) : Type 0 where
  pub tail_length : ℕ
  pub fits : tail_length ≤ length file
  pub tail_bytes : entry.tail_bytes ≡ pos tail_length
  pub blob : (blobs.get entry.tail_key w).0 ≡ ok (drop (length file - tail_length) file)

-- The entry describes the file: the stored head is its beginning, and if there is a stored tail,
-- that is its end.
pub record Holds {W : Type 0} (file : Bytes) (entry : StartupMediaCache) (blobs : BlobStore W)
    (w : W) : Type 0 where
  pub content_length : entry.content_length ≡ pos (length file)
  pub head_length : ℕ
  pub fits : head_length ≤ length file
  pub head_bytes : entry.head_bytes ≡ pos head_length
  pub head_blob : (blobs.get entry.head_key w).0 ≡ ok (take head_length file)
  pub tail : (entry.tail_key ≡ []) ⊎ HoldsTail file entry blobs w

-- The response is the partial content of the file from `first` to `last`, both included.
pub record Delivers (file : Bytes) (first last : ℕ) (response : CachedResponse) : Type 0 where
  pub first_le_last : first ≤ last
  pub last_lt_length : last < length file
  pub status_code : response.status_code ≡ 206
  pub body : response.body ≡ slice first (suc last) file
  pub content_range_header :
      header_get response.headers (text "Content-Range")
      ≡ content_range (pos first) (pos last) (pos (length file))
  pub content_length_header :
      header_get response.headers (text "Content-Length") ≡ format_int (pos (suc last - first))

-- The part from `first` to `last` was cut from a stored blob.
abbrev pub Cut : Bytes → ℕ → ℕ → Result (Option CachedResponse) → Type 0
Cut file first last result =
    (response : CachedResponse) × (result ≡ ok (some response)) × Delivers file first last response

-- It was cut from a stored blob, or is left to the upstream.
abbrev pub CutOrLeft : Bytes → ℕ → ℕ → Result (Option CachedResponse) → Type 0
CutOrLeft file first last result = (result ≡ ok none) ⊎ Cut file first last result

slice_bytes-head :
    (n first last : ℕ) (file : Bytes)
    → n ≤ length file
    → first ≤ last
    → last < n
    → slice_bytes (take n file) (pos first -ℤ pos 0) (pos last -ℤ pos 0 +ℤ pos 1)
      ≡ ok (slice first (suc last) file)
slice_bytes-head n first last file h k m =
    ground (arith, length-take n file h, slice-take n first (suc last) file m)

slice_bytes-tail :
    (n first last : ℕ) (file : Bytes)
    → n ≤ length file
    → length file - n ≤ first
    → first ≤ last
    → last < length file
    → slice_bytes
        (drop (length file - n) file)
        (pos first -ℤ pos (length file - n))
        (pos last -ℤ pos (length file - n) +ℤ pos 1)
      ≡ ok (slice first (suc last) file)
slice_bytes-tail n first last file h b k m = ground (
  arith,
  length-drop (length file - n) file,
  slice-drop (length file - n) first (suc last) file b,
)

partial_headers-Content_Range :
    (entry : StartupMediaCache) (a b : ℤ) (body : Bytes)
    → header_get (partial_headers entry a b body) (text "Content-Range")
      ≡ content_range a b entry.content_length
unfolding partial_headers header_get ◌==◌
partial_headers-Content_Range entry a b body = refl

partial_headers-Content_Length :
    (entry : StartupMediaCache) (a b : ℤ) (body : Bytes)
    → header_get (partial_headers entry a b body) (text "Content-Length")
      ≡ format_int (pos (length body))
unfolding partial_headers header_get ◌==◌
partial_headers-Content_Length entry a b body = refl

module _ {W : Type 0} (file : Bytes) (entry : StartupMediaCache) (blobs : BlobStore W) (w : W) where
  serve_blob-Cut :
      (key : Text) (first last : ℕ) (base : ℤ) (blob : Bytes)
      → entry.content_length ≡ pos (length file)
      → first ≤ last
      → last < length file
      → (blobs.get key w).0 ≡ ok blob
      → slice_bytes blob (pos first -ℤ base) (pos last -ℤ base +ℤ pos 1)
        ≡ ok (slice first (suc last) file)
      → Cut file first last (serve_blob blobs entry key (pos first) (pos last) base w).0
  unfolding serve_blob build_cached_partial_response
  serve_blob-Cut key first last base blob e h k read cut = (
    record {
      status_code = 206;
      headers = partial_headers entry (pos first) (pos last) part;
      body = part;
    },
    rw (read, serve_blob) (rw cut refl),
    record {
      first_le_last = h;
      last_lt_length = k;
      status_code = refl;
      body = refl;
      content_range_header =
          partial_headers-Content_Range entry (pos first) (pos last) part
          ∙ ap (content_range (pos first) (pos last)) e;
      content_length_header =
          partial_headers-Content_Length entry (pos first) (pos last) part
          ∙ ap (λ n. format_int (pos n)) (length-slice first (suc last) file k);
    },
  )
    where
      part : Bytes
      part = slice first (suc last) file

  serve_head-Cut :
      (n first last : ℕ)
      → entry.content_length ≡ pos (length file)
      → n ≤ length file
      → (blobs.get entry.head_key w).0 ≡ ok (take n file)
      → first ≤ last
      → last < n
      → Cut file first last
          (serve_blob blobs entry entry.head_key (pos first) (pos last) (pos 0) w).0
  serve_head-Cut n first last total fits read h k =
      serve_blob-Cut entry.head_key first last (pos 0) (take n file) total h (omega arith) read
        (slice_bytes-head n first last file fits h k)

  pub serve_tail-Cut :
      (n first last : ℕ)
      → entry.content_length ≡ pos (length file)
      → n ≤ length file
      → (blobs.get entry.tail_key w).0 ≡ ok (drop (length file - n) file)
      → length file - n ≤ first
      → first ≤ last
      → last < length file
      → Cut file first last
          (serve_blob blobs entry entry.tail_key (pos first) (pos last) (pos (length file - n)) w).0
  serve_tail-Cut n first last total fits read b h k =
      serve_blob-Cut entry.tail_key first last (pos (length file - n)) (drop (length file - n) file)
        total h k read (slice_bytes-tail n first last file fits b h k)

  last-lt-head :
      (n first last : ℕ)
      → entry.head_bytes ≡ pos n
      → in_head entry (pos first) (pos last) ≡ true
      → last < n
  last-lt-head n first last e h = ground arith

  tail-le-first :
      (n first last : ℕ)
      → entry.content_length ≡ pos (length file)
      → entry.tail_bytes ≡ pos n
      → n ≤ length file
      → in_tail entry (pos first) (pos last) ≡ true
      → length file - n ≤ first
  tail-le-first n first last total e fits h = ground arith

  tail_base :
      (n : ℕ)
      → entry.content_length ≡ pos (length file)
      → entry.tail_bytes ≡ pos n
      → n ≤ length file
      → pos (length file - n) ≡ entry.content_length -ℤ entry.tail_bytes
  tail_base n total e fits = ground arith

  no_tail : (start end : ℤ) → entry.tail_key ≡ [] → in_tail entry start end ≡ false
  no_tail start end e = ground (arith, (eq_iff entry.tail_key []).1)

  pub serve_tail-Cut_of_HoldsTail :
      (first last : ℕ)
      → entry.content_length ≡ pos (length file)
      → (entry.tail_key ≡ []) ⊎ HoldsTail file entry blobs w
      → first ≤ last
      → last < length file
      → in_tail entry (pos first) (pos last) ≡ true
      → Cut file first last
          (serve_blob blobs entry entry.tail_key
            (pos first)
            (pos last)
            (entry.content_length -ℤ entry.tail_bytes)
            w).0
  serve_tail-Cut_of_HoldsTail first last total (inl none_stored) h k e =
      absurd (false≢true (sym (no_tail (pos first) (pos last) none_stored) ∙ e))
  serve_tail-Cut_of_HoldsTail first last total (inr t) h k e =
      subst
        (λ base.
          Cut file first last
            (serve_blob blobs entry entry.tail_key (pos first) (pos last) base w).0)
        (tail_base t.tail_length total t.tail_bytes t.fits)
        (serve_tail-Cut t.tail_length first last total t.fits t.blob
          (tail-le-first t.tail_length first last total t.tail_bytes t.fits e) h k)

  pub serve_head-Cut_of_Holds :
      (first last : ℕ)
      → Holds file entry blobs w
      → first ≤ last
      → in_head entry (pos first) (pos last) ≡ true
      → Cut file first last
          (serve_blob blobs entry entry.head_key (pos first) (pos last) (pos 0) w).0
  serve_head-Cut_of_Holds first last v h e =
      serve_head-Cut v.head_length first last v.content_length v.fits v.head_blob h
        (last-lt-head v.head_length first last v.head_bytes e)

  pub serve_part-Cut :
      (first last : ℕ)
      → Holds file entry blobs w
      → first ≤ last
      → last < length file
      → CutOrLeft file first last (serve_part blobs entry (pos first) (pos last) w).0
  unfolding serve_part
  serve_part-Cut first last v h k =
      if_cases {A = M W (Option CachedResponse)} (λ m. CutOrLeft file first last (m w).0)
        (in_head entry (pos first) (pos last)) _ _
        (λ e. inr (serve_head-Cut_of_Holds first last v h e))
        λ _.
          if_cases {A = M W (Option CachedResponse)} (λ m. CutOrLeft file first last (m w).0)
            (in_tail entry (pos first) (pos last)) _ _
            (λ e. inr (serve_tail-Cut_of_HoldsTail first last v.content_length v.tail h k e))
            (λ _. inl refl)
