-- ===== src/MediaCache/Range/ContentRange.antt =====
-- The Content-Range header: what buildCachedPartialResponse prints, totalLengthFromResponse reads.
use mathlib.Core.List.{reverse-append, reverse-cons, append_assoc}
use zero_nime.Base.{ℕ, ◌≤◌, ◌≡◌, refl, ◌≢◌, some, [], ◌∷◌, ◌++◌, reverse, arith, pos, max_int64}
use zero_nime.MediaCache.Prewarm.Entry.{total_of_range}
use zero_nime.MediaCache.Range.RoundTrip.{AllDigits-AllOff}
use zero_nime.MediaCache.Serve.{content_range}
use zero_nime.Text.{Text, text, is_space, trim_space, split}
use zero_nime.Text.Decimal.{
  AllDigits, format_nat, format_int, format_nat-AllDigits, format_nat-ne-nil, parse_int-format_nat,
}
use zero_nime.Text.Laws.{
  Lacks, StartsOff, StartsOff-append, AllOff-reverse, reverse-ne-nil, trim_by_of_StartsOff,
  eq_of_ne,
}

-- A text with no separator is one part, and one before a separator is the first part.
split_of_Lacks : (k : ℕ) (s : Text) → Lacks k s → split k s ≡ s ∷ []
unfolding split
split_of_Lacks k [] h = refl
split_of_Lacks k (c ∷ s) (h, hs) = rw (h, split_of_Lacks k s hs)

split-append : (k : ℕ) (s t : Text) → Lacks k s → split k (s ++ k ∷ t) ≡ s ∷ split k t
unfolding split
split-append k [] t h = ground arith
split-append k (c ∷ s) t (h, hs) = rw (h, split-append k s t hs)

AllDigits-Lacks : (s : Text) → AllDigits s → Lacks 47 s
AllDigits-Lacks [] h = tt
AllDigits-Lacks (c ∷ s) (h, hs) = (ground arith, AllDigits-Lacks s hs)

Lacks-append : (k : ℕ) (s t : Text) → Lacks k s → Lacks k t → Lacks k (s ++ t)
Lacks-append k [] t h g = g
Lacks-append k (c ∷ s) t (h, hs) g = (h, Lacks-append k s t hs g)

digits-StartsOff : (s : Text) → AllDigits s → StartsOff is_space s
digits-StartsOff [] h = tt
digits-StartsOff (c ∷ s) h = (AllDigits-AllOff (c ∷ s) h).0

trim-digits : (s : Text) → AllDigits s → trim_space s ≡ s
unfolding trim_space
trim-digits s d =
    trim_by_of_StartsOff is_space s (digits-StartsOff s d)
      (AllOff-reverse is_space s (AllDigits-AllOff s d))

reverse-content_range : (u t : Text) → reverse (u ++ 47 ∷ t) ≡ reverse t ++ (47 ∷ reverse u)
reverse-content_range u t = simp (reverse-append, reverse-cons, append_assoc)

unit : ℕ → ℕ → Text
unit a b = text "bytes " ++ (format_nat a ++ 45 ∷ format_nat b)

unit-Lacks : (a b : ℕ) → Lacks 47 (unit a b)
unfolding unit
unit-Lacks a b =
    Lacks-append 47 (text "bytes ") (format_nat a ++ 45 ∷ format_nat b)
      (refl, (refl, (refl, (refl, (refl, (refl, tt))))))
      (Lacks-append 47 (format_nat a) (45 ∷ format_nat b)
        (AllDigits-Lacks (format_nat a) (format_nat-AllDigits a))
        (refl, AllDigits-Lacks (format_nat b) (format_nat-AllDigits b)))

content_range-unit :
    (a b total : ℕ) → content_range (pos a) (pos b) (pos total) ≡ unit a b ++ 47 ∷ format_nat total
unfolding content_range unit format_int
content_range-unit a b total = simp append_assoc

trim-content_range :
    (a b total : ℕ)
    → trim_space (unit a b ++ 47 ∷ format_nat total) ≡ unit a b ++ 47 ∷ format_nat total
unfolding trim_space unit
trim-content_range a b total =
    trim_by_of_StartsOff is_space (unit a b ++ 47 ∷ format_nat total) (unfold is_space in refl) (
      rw (reverse-content_range (unit a b) (format_nat total)) (
        StartsOff-append is_space (reverse (format_nat total)) _
          (reverse-ne-nil (format_nat total) (format_nat-ne-nil total))
          (AllOff-reverse is_space (format_nat total)
            (AllDigits-AllOff (format_nat total) (format_nat-AllDigits total)))))

unit-ne-nil : (a b : ℕ) (t : Text) → unit a b ++ t ≢ []
unfolding unit
unit-ne-nil a b t = λ e. cc

-- The total length in a printed Content-Range header is read back.
pub total_of_range-content_range :
    (a b total : ℕ)
    → total ≤ max_int64
    → total_of_range (trim_space (content_range (pos a) (pos b) (pos total))) ≡ some (pos total)
total_of_range-content_range a b total h =
    rw (content_range-unit a b total, trim-content_range a b total)
      (unfold total_of_range in
        rw (
          eq_of_ne (unit a b ++ 47 ∷ format_nat total) [] (unit-ne-nil a b _),
          split-append 47 (unit a b) (format_nat total) (unit-Lacks a b),
          split_of_Lacks 47 (format_nat total)
              (AllDigits-Lacks (format_nat total) (format_nat-AllDigits total)),
          trim-digits (format_nat total) (format_nat-AllDigits total),
          parse_int-format_nat total h,
        ))
