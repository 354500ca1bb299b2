-- ===== src/MediaCache/Serve/Request.antt =====
-- A whole request to TryServeRange of internal/mediacache/service.go: the answer is cut from the
-- file that the cache entry was made from, or the request is left to the upstream.
use mathlib.Core.Bool.{false≢true}
use zero_nime.Base.{
  ℕ, ◌-◌, ◌≤◌, ◌<◌, ◌≡◌, refl, ap, sym, subst, ◌∙◌, ◌⊎◌, inl, inr, Bool, true, false, Option, none,
  some, [], arith, ℤ, pos, negsuc, ◌≤ℤ◌, ok, M, Result, length, Bool-cases, if_cases, leb_ℤ, ltb_ℤ,
  ◌-ℤ◌, ◌&&◌, ◌||◌,
}
use zero_nime.Domain.{StartupMediaCache}
use zero_nime.Http.{Bytes}
use zero_nime.MediaCache.{BlobStore, MetadataStore, Service, KeyFunctions, CachedResponse}
use zero_nime.MediaCache.Range.{ByteRange, IsWithin, parse_range, parse_range-IsWithin}
use zero_nime.MediaCache.Serve.Exact.{Holds, CutOrLeft, serve_part-Cut}
use zero_nime.MediaCache.Serve.{
  requested_end, serve_part, serve_range, serve_parsed, serve_found, serve_with, same_source,
  try_serve_range,
}
use zero_nime.Text.{Text, ◌==◌, trim_space}

-- The answer is none, or the bytes from `first` to `last` of the file: the request's range, or
-- for a range with no end a beginning of it.
pub record AnswersRange (file : Bytes) (r : ByteRange) (result : Result (Option CachedResponse))
    : Type 0 where
  pub first : ℕ
  pub last : ℕ
  pub starts : r.start ≡ pos first
  pub ends : r.open_ended ≡ false → r.end ≡ pos last
  pub bytes : CutOrLeft file first last result

abbrev pub Answers : Bytes → Text → Result (Option CachedResponse) → Type 0
Answers file header result =
    (result ≡ ok none)
    ⊎ ((r : ByteRange) × (parse_range header (pos (length file)) ≡ some r)
        × AnswersRange file r result)

nonneg : (z : ℤ) → pos 0 ≤ℤ z → (n : ℕ) × (z ≡ pos n)
nonneg (pos n) h = (n, refl)
nonneg (negsuc n) h = absurd (omega arith)

-- what the handler looks for lies in the file, and is the requested part if the end is named
record IsPart (total : ℕ) (entry : StartupMediaCache) (r : ByteRange) : Type 0 where
  first : ℕ
  last : ℕ
  starts : r.start ≡ pos first
  stops : requested_end entry r ≡ pos last
  ends : r.open_ended ≡ false → r.end ≡ pos last
  first_le_last : first ≤ last
  last_lt_total : last < total

named-IsPart :
    (total : ℕ) (entry : StartupMediaCache) (r : ByteRange)
    → IsWithin (pos total) r
    → requested_end entry r ≡ r.end
    → IsPart total entry r
named-IsPart total entry r v e =
    let (a, ea) = nonneg r.start v.start_nonneg in
    let (b, eb) = nonneg r.end (ground (arith, v.start_nonneg, v.start_le_end)) in
    record {
      first = a;
      last = b;
      starts = ea;
      stops = e ∙ eb;
      ends = λ _. eb;
      first_le_last = ground (arith, v.start_le_end);
      last_lt_total = ground (arith, v.end_lt_total);
    }

clipped-IsPart :
    (total n : ℕ) (entry : StartupMediaCache) (r : ByteRange)
    → n ≤ total
    → entry.head_bytes ≡ pos n
    → IsWithin (pos total) r
    → r.open_ended ≡ true
    → ltb_ℤ r.start entry.head_bytes ≡ true
    → requested_end entry r ≡ entry.head_bytes -ℤ pos 1
    → IsPart total entry r
clipped-IsPart total n entry r fits head v unended below e =
    let (a, ea) = nonneg r.start v.start_nonneg in
    let lt : a < n = ground arith in
    record {
      first = a;
      last = n - 1;
      starts = ea;
      stops = e ∙ ground arith;
      ends = λ closed. absurd (false≢true (sym closed ∙ unended));
      first_le_last = omega arith;
      last_lt_total = omega arith;
    }

clip : StartupMediaCache → ByteRange → Bool
clip entry r = r.open_ended && leb_ℤ (pos 0) r.start && ltb_ℤ r.start entry.head_bytes

IsPart-of_range :
    (total n : ℕ) (entry : StartupMediaCache) (r : ByteRange)
    → n ≤ total
    → entry.head_bytes ≡ pos n
    → IsWithin (pos total) r
    → IsPart total entry r
unfolding clip
IsPart-of_range total n entry r fits head v = elim (Bool-cases (clip entry r)) [
  | inl e ↦ clipped-IsPart total n entry r fits head v (ground arith) (ground arith) (ground arith)
  | inr e ↦ named-IsPart total entry r v (ground arith)
]

module _ {W : Type 0} (file : Bytes) (entry : StartupMediaCache) (blobs : BlobStore W) (w : W)
    (v : Holds file entry blobs w) where
  serve_range-AnswersRange :
      (r : ByteRange)
      → IsWithin (pos (length file)) r
      → AnswersRange file r (serve_range blobs entry r w).0
  unfolding serve_range
  serve_range-AnswersRange r h = record {
    first = p.first;
    last = p.last;
    starts = p.starts;
    ends = p.ends;
    bytes =
        subst
          (λ a.
            CutOrLeft file p.first p.last (serve_part blobs entry a (requested_end entry r) w).0)
          (sym p.starts)
          (subst (λ b. CutOrLeft file p.first p.last (serve_part blobs entry (pos p.first) b w).0)
            (sym p.stops)
            (serve_part-Cut file entry blobs w p.first p.last v p.first_le_last p.last_lt_total));
  }
    where
      p : IsPart (length file) entry r
      p = IsPart-of_range (length file) v.head_length entry r v.fits v.head_bytes h

  serve_parsed-Answers :
      (header : Text) (parsed : Option ByteRange)
      → parse_range header (pos (length file)) ≡ parsed
      → Answers file header (serve_parsed blobs entry parsed w).0
  serve_parsed-Answers header none e = inl refl
  serve_parsed-Answers header (some r) e =
      inr (r, e, serve_range-AnswersRange r (parse_range-IsWithin header (pos (length file)) r e))

  module _ (keys : KeyFunctions) where
    serve_found-Answers :
        (url header : Text)
        → Answers file header (serve_found keys blobs url header (some entry) w).0
    serve_found-Answers url header =
        if_cases {A = M W (Option CachedResponse)} (λ m. Answers file header (m w).0)
          (leb_ℤ entry.content_length (pos 0)) _ _ (λ _. inl refl)
          λ _.
            if_cases {A = M W (Option CachedResponse)} (λ m. Answers file header (m w).0)
              (same_source keys entry url) _ _
              (λ _. serve_parsed-Answers header _ (ap (parse_range header) (sym v.content_length)))
              (λ _. inl refl)

-- A service that has a store and blobs, and whose store finds an entry for the episode.
pub record Finds {W : Type 0} (s : Service W) (id : Text) (w : W) (file : Bytes) : Type 0 where
  pub store : MetadataStore W
  pub blobs : BlobStore W
  pub has_store : s.store ≡ some store
  pub has_blobs : s.blobs ≡ some blobs
  pub entry : StartupMediaCache
  pub after : W
  pub found : store.get_startup_media_cache id w ≡ (ok (some entry), after)
  pub holds : Holds file entry blobs after

module _ (keys : KeyFunctions) {W : Type 0} where
  serve_with-Answers :
      (store : MetadataStore W) (blobs : BlobStore W) (id url header : Text) (file : Bytes)
      (entry : StartupMediaCache) (w after : W)
      → store.get_startup_media_cache id w ≡ (ok (some entry), after)
      → Holds file entry blobs after
      → Answers file header (serve_with keys (some store) (some blobs) id url header w).0
  serve_with-Answers store blobs id url header file entry w after found v =
      if_cases {A = M W (Option CachedResponse)} (λ m. Answers file header (m w).0)
        (trim_space header == [] || trim_space id == []) _ _ (λ _. inl refl)
        (λ _. rw found (serve_found-Answers file entry blobs after v keys url header))

  -- A request for a file whose cache entry is up to date is answered with exactly the bytes of
  -- the range that its header names (of a beginning of it, if the header names no end), or is
  -- left to the upstream; it neither fails nor panics.
  pub try_serve_range-Answers :
      (s : Service W) (id url header : Text) (file : Bytes) (w : W)
      → Finds s id w file
      → Answers file header (try_serve_range keys (some s) id url header w).0
  unfolding try_serve_range
  try_serve_range-Answers s id url header file w f =
      subst (λ a. Answers file header (serve_with keys a s.blobs id url header w).0)
        (sym f.has_store)
        (subst (λ b. Answers file header (serve_with keys (some f.store) b id url header w).0)
          (sym f.has_blobs)
          (serve_with-Answers f.store f.blobs id url header file f.entry w f.after f.found f.holds))
