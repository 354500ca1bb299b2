-- ===== src/MediaCache/Range.antt =====
-- parseRange of internal/mediacache/service.go: the `Range` header of a request against a file
-- of known length. The text of an error is left out, as no caller reads it.
pub mod RoundTrip
pub mod ContentRange
use zero_nime.Base.{
  ℕ, suc, ◌+◌, ◌≤◌, ◌<◌, ◌≡◌, refl, ◌≢◌, Bool, true, false, ◌||◌, Option, none, some, [], ◌∷◌, ◌++◌,
  arith, ℤ, pos, ◌-ℤ◌, ◌≤ℤ◌, ◌<ℤ◌, ltb_ℤ, leb_ℤ, max_int64, if◌then◌else◌, inl, inr, Bool-cases,
  List, nat_eq, leb,
}
use zero_nime.Text.{Text, text, ◌==◌, has_prefix, trim_prefix, trim_space, split_2}
use zero_nime.Text.Decimal.{parse_int, format_int}

pub record ByteRange : Type 0 where
  pub start : ℤ
  pub end : ℤ
  pub open_ended : Bool

-- The subtractions stay within int64: `length` and 1 are between 1 and `total`.
abbrev pub suffix_range : Option ℤ → ℤ → Option ByteRange
suffix_range none total = none
suffix_range (some length) total =
    if leb_ℤ length (pos 0) || ltb_ℤ total length
    then none
    else some (record { start = total -ℤ length; end = total -ℤ pos 1; open_ended = false })

abbrev pub open_range : Option ℤ → ℤ → Option ByteRange
open_range none total = none
open_range (some start) total =
    if ltb_ℤ start (pos 0) || leb_ℤ total start
    then none
    else some (record { start = start; end = total -ℤ pos 1; open_ended = true })

abbrev pub bounded_range : Option ℤ → Option ℤ → ℤ → Option ByteRange
bounded_range none end total = none
bounded_range (some start) none total = none
bounded_range (some start) (some end) total =
    if ltb_ℤ start (pos 0) || ltb_ℤ end start || leb_ℤ total end
    then none
    else some (record { start = start; end = end; open_ended = false })

-- the `switch` on the parts; 45 is '-'
abbrev pub range_of_parts : Option (Text × Text) → ℤ → Option ByteRange
range_of_parts none total = none
range_of_parts (some (first, second)) total =
    if first == []
    then suffix_range (parse_int second) total
    else if second == []
    then open_range (parse_int first) total
    else bounded_range (parse_int first) (parse_int second) total

unfoldable pub parse_range : Text → ℤ → Option ByteRange
parse_range header total =
    if has_prefix (trim_space header) (text "bytes=")
    then range_of_parts (split_2 45 (trim_prefix (trim_space header) (text "bytes="))) total
    else none

-- fmt.Sprintf("bytes=%d-%d", from, to): the header that Prewarm sends
unfoldable pub range_header : ℤ → ℤ → Text
range_header from to = text "bytes=" ++ (format_int from ++ 45 ∷ format_int to)

-- What an accepted range promises.
pub record IsWithin (total : ℤ) (r : ByteRange) : Type 0 where
  pub start_nonneg : pos 0 ≤ℤ r.start
  pub start_le_end : r.start ≤ℤ r.end
  pub end_lt_total : r.end <ℤ total
  pub open_to_end : r.open_ended ≡ true → r.end ≡ total -ℤ pos 1

suffix_range-IsWithin :
    (length : Option ℤ) (total : ℤ) (r : ByteRange)
    → suffix_range length total ≡ some r
    → IsWithin total r
suffix_range-IsWithin none total r e = cc
suffix_range-IsWithin (some length) total r e = ground arith

open_range-IsWithin :
    (start : Option ℤ) (total : ℤ) (r : ByteRange)
    → open_range start total ≡ some r
    → IsWithin total r
open_range-IsWithin none total r e = cc
open_range-IsWithin (some start) total r e = ground arith

bounded_range-IsWithin :
    (start end : Option ℤ) (total : ℤ) (r : ByteRange)
    → bounded_range start end total ≡ some r
    → IsWithin total r
bounded_range-IsWithin none end total r e = cc
bounded_range-IsWithin (some start) none total r e = cc
bounded_range-IsWithin (some start) (some end) total r e = ground arith

range_of_parts-IsWithin :
    (parts : Option (Text × Text)) (total : ℤ) (r : ByteRange)
    → range_of_parts parts total ≡ some r
    → IsWithin total r
range_of_parts-IsWithin none total r e = cc
range_of_parts-IsWithin (some (first, second)) total r e = elim (Bool-cases (first == [])) [
  | inl h ↦ suffix_range-IsWithin (parse_int second) total r (rw h at e)
  | inr h ↦ elim (Bool-cases (second == [])) [
    | inl k ↦ open_range-IsWithin (parse_int first) total r (rw (h, k) at e)
    | inr k ↦ bounded_range-IsWithin (parse_int first) (parse_int second) total r (rw (h, k) at e)
  ]
]

-- An accepted range starts and ends inside the file, its start at or before its end; a range
-- that names no end runs to the last byte.
pub parse_range-IsWithin :
    (header : Text) (total : ℤ) (r : ByteRange)
    → parse_range header total ≡ some r
    → IsWithin total r
unfolding parse_range
parse_range-IsWithin header total r e =
    elim (Bool-cases (has_prefix (trim_space header) (text "bytes="))) [
      | inl h ↦ range_of_parts-IsWithin _ total r (rw h at e)
      | inr h ↦ cc (rw h at e)
    ]
