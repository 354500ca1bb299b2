-- ===== src/MediaCache/Prewarm/Parts.antt =====
-- The numbers of Prewarm: which parts of a file it asks for and what they are.
use zero_nime.Base.{
  ℕ, zero, suc, ◌-◌, ◌≤◌, ◌<◌, ◌≡◌, refl, ap, some, [], ◌∷◌, List, arith, ℤ, pos, negsuc, ◌-ℤ◌,
  ◌<ℤ◌, pos_part, max_int64, wrap64, signed, length, take, drop, slice, length-drop, ok,
}
use zero_nime.Http.{Bytes, Response}
use zero_nime.MediaCache.Prewarm.Entry.{
  max_ℤ, read_all_and_close, tail_start, total_length_from_response,
}
use zero_nime.MediaCache.Prewarm.Upstream.{IsPartial}
use zero_nime.MediaCache.Range.ContentRange.{total_of_range-content_range}

-- the last byte that the head asks for
pub head_end : (z : ℤ) → (e : ℕ) × (max_ℤ (pos 0) z ≡ pos e)
head_end (pos n) = (n, ground arith)
head_end (negsuc n) = (0, ground arith)

-- a prefix is a prefix of its own length
pub take-length-take : {A : Type 0} (n : ℕ) (xs : List A) → take n xs ≡ take (length (take n xs)) xs
take-length-take zero xs = refl
take-length-take (suc n) [] = refl
take-length-take (suc n) (x ∷ xs) = ap (◌∷◌ x) (take-length-take n xs)

take_all : {A : Type 0} (n : ℕ) (xs : List A) → length xs ≤ n → take n xs ≡ xs
take_all zero [] h = refl
take_all zero (x ∷ xs) h = absurd (omega arith)
take_all (suc n) [] h = refl
take_all (suc n) (x ∷ xs) h = ap (◌∷◌ x) (take_all n xs (omega arith))

-- the part from `from` to the last byte is a suffix
pub slice_to_end :
    {A : Type 0} (from last : ℕ) (xs : List A)
    → from ≤ last
    → suc last ≡ length xs
    → slice from (suc last) xs ≡ drop from xs
slice_to_end from last xs h e =
    take_all (suc last - from) (drop from xs) (omega (arith, length-drop from xs))

pub tail_start-pos :
    (total tail : ℕ)
    → total ≤ max_int64
    → tail ≤ max_int64
    → tail_start (pos total) (pos tail) ≡ pos (total - tail)
unfolding tail_start wrap64 signed
tail_start-pos total tail h k = ground arith

pub read_of_IsPartial :
    (file : Bytes) (a b : ℕ) (r : Response)
    → IsPartial file a b r
    → read_all_and_close (some r) ≡ ok (slice a (suc b) file)
unfolding read_all_and_close
read_of_IsPartial file a b r p = rw p.body refl

pub total_of_IsPartial :
    (file : Bytes) (a b : ℕ) (r : Response)
    → IsPartial file a b r
    → length file ≤ max_int64
    → total_length_from_response (some r) ≡ pos (length file)
unfolding total_length_from_response
total_of_IsPartial file a b r p h =
    rw (p.content_range_header, total_of_range-content_range a p.last (length file) h)

pub lt-length-take :
    {A : Type 0} (b n : ℕ) (xs : List A) → b < n → b < length xs → b < length (take n xs)
lt-length-take b zero xs h k = absurd (omega arith)
lt-length-take b (suc n) [] h k = k
lt-length-take zero (suc n) (x ∷ xs) h k = omega arith
lt-length-take (suc b) (suc n) (x ∷ xs) h k =
    omega (arith, lt-length-take b n xs (omega arith) (omega arith))

-- the head asks for every byte below its configured size
pub le-head_end :
    (head_bytes : ℤ) (last b : ℕ)
    → pos_part head_bytes ≤ max_int64
    → max_ℤ (pos 0) (wrap64 (head_bytes -ℤ pos 1)) ≡ pos last
    → pos b <ℤ head_bytes
    → b ≤ last
unfolding wrap64 signed
le-head_end head_bytes last b h e k = ground arith

pub head_end-le : (z : ℤ) (last : ℕ) → max_ℤ (pos 0) (wrap64 z) ≡ pos last → last ≤ max_int64
unfolding wrap64 signed
head_end-le z last e = ground arith
