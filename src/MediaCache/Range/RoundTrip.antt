-- ===== src/MediaCache/Range/RoundTrip.antt =====
-- A range header that Prewarm prints is read back by parseRange.
use mathlib.Core.List.{reverse-append, reverse-cons, append_assoc}
use zero_nime.Base.{
  ℕ, ◌≤◌, ◌<◌, ◌≡◌, refl, ◌≢◌, false, false, some, [], ◌∷◌, ◌++◌, reverse, arith, ℤ, pos, max_int64,
}
use zero_nime.Text.{Text, ◌==◌, text, is_space, trim_space, has_prefix, trim_prefix}
use zero_nime.Text.Decimal.{
  AllDigits, IsDigit, parse_int, format_nat, format_int, format_nat-AllDigits, format_nat-ne-nil,
  parse_int-format_nat,
}
use zero_nime.Text.Laws.{
  AllOff, AllOff-reverse, Lacks, StartsOff-append, reverse-ne-nil, trim_by_of_StartsOff,
  split_2-append, eq_of_ne,
}
use zero_nime.MediaCache.Range.{parse_range, range_header, bounded_range}

digit-not-space : (c : ℕ) → IsDigit c → is_space c ≡ false
unfolding is_space
digit-not-space c h = ground arith

pub AllDigits-AllOff : (s : Text) → AllDigits s → AllOff is_space s
AllDigits-AllOff [] h = tt
AllDigits-AllOff (c ∷ s) (h, hs) = (digit-not-space c h, AllDigits-AllOff s hs)

pub AllDigits-Lacks : (s : Text) → AllDigits s → Lacks 45 s
AllDigits-Lacks [] h = tt
AllDigits-Lacks (c ∷ s) (h, hs) = (ground arith, AllDigits-Lacks s hs)

-- the end of the header is a digit
reverse-header :
    (s t : Text)
    → reverse (text "bytes=" ++ (s ++ 45 ∷ t))
      ≡ reverse t ++ reverse (text "bytes=" ++ (s ++ 45 ∷ []))
reverse-header s t = simp (reverse-append, reverse-cons, append_assoc)

trim-header :
    (s t : Text)
    → AllDigits t
    → t ≢ []
    → trim_space (text "bytes=" ++ (s ++ 45 ∷ t)) ≡ text "bytes=" ++ (s ++ 45 ∷ t)
unfolding trim_space
trim-header s t d ne =
    trim_by_of_StartsOff is_space (text "bytes=" ++ (s ++ 45 ∷ t)) (unfold is_space in refl) (
      rw (reverse-header s t) (
        StartsOff-append is_space (reverse t) _ (reverse-ne-nil t ne)
          (AllOff-reverse is_space t (AllDigits-AllOff t d))))

parts_of_header :
    (s t : Text) (total : ℤ)
    → AllDigits s
    → AllDigits t
    → s ≢ []
    → t ≢ []
    → parse_range (text "bytes=" ++ (s ++ 45 ∷ t)) total
      ≡ bounded_range (parse_int s) (parse_int t) total
unfolding parse_range has_prefix trim_prefix
parts_of_header s t total ds dt ns nt = rw (
  trim-header s t dt nt,
  split_2-append 45 s t (AllDigits-Lacks s ds),
  eq_of_ne s [] ns,
  eq_of_ne t [] nt,
)

-- The header for the bytes from `a` to `b` of a file with more than `b` bytes is read as exactly
-- those bytes, and as a range with both ends named.
pub parse_range-range_header :
    (a b total : ℕ)
    → a ≤ b
    → b < total
    → total ≤ max_int64
    → parse_range (range_header (pos a) (pos b)) (pos total)
      ≡ some (record { start = pos a; end = pos b; open_ended = false })
unfolding range_header format_int
parse_range-range_header a b total h k m =
    rw
      (
        parts_of_header (format_nat a) (format_nat b) (pos total) (format_nat-AllDigits a)
            (format_nat-AllDigits b) (format_nat-ne-nil a) (format_nat-ne-nil b),
        parse_int-format_nat a (omega arith),
        parse_int-format_nat b (omega arith),
      )
      (ground arith)

pub trim-range_header :
    (a b : ℕ) → trim_space (range_header (pos a) (pos b)) ≡ range_header (pos a) (pos b)
unfolding range_header format_int
trim-range_header a b =
    trim-header (format_nat a) (format_nat b) (format_nat-AllDigits b) (format_nat-ne-nil b)

pub trim-range_header-not_blank :
    (a b : ℕ) → (trim_space (range_header (pos a) (pos b)) == []) ≡ false
trim-range_header-not_blank a b = rw trim-range_header (unfold range_header ◌==◌ in refl)
