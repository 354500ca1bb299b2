-- ===== src/Base/Lists.antt =====
-- Lists measured and cut by native numbers, under the library's names, and Go's slice expression.
use Prim.Native.Nat.{ℕ, zero, suc, ◌+◌, ◌-◌, ◌≤◌}
use mathlib.Core.Path.{◌≡◌, refl, ap, ◌∙◌}
use mathlib.Core.Bool.{Bool, false, ◌||◌}
use mathlib.Core.List.{List, [], ◌∷◌, ◌++◌}
use mathlib.Core.Option.{Option, none, some}
use native.Mathlib.Omega.{arith}
use zero_nime.Base.Tests.{if◌then◌else◌}

module _ {ℓ} {A : Type ℓ} where
  abbrev pub length : List A → ℕ
  length [] = 0
  length (x ∷ xs) = suc (length xs)

  abbrev pub take : ℕ → List A → List A
  take zero xs = []
  take (suc n) [] = []
  take (suc n) (x ∷ xs) = x ∷ take n xs

  abbrev pub drop : ℕ → List A → List A
  drop zero xs = xs
  drop (suc n) [] = []
  drop (suc n) (x ∷ xs) = drop n xs

  -- `xs[from:to]` for 0 ≤ from ≤ to ≤ len(xs)
  abbrev pub slice : ℕ → ℕ → List A → List A
  slice from to xs = take (to - from) (drop from xs)

  -- the `if` statement with `continue` that fills a new slice
  unfoldable pub keep_if : (A → Bool) → List A → List A
  keep_if p [] = []
  keep_if p (x ∷ xs) = let rest = keep_if p xs in if p x then x ∷ rest else rest

  unfoldable pub any : (A → Bool) → List A → Bool
  any p [] = false
  any p (x ∷ xs) = p x || any p xs

  -- the first element that passes a test, as a `for` loop that returns finds it
  unfoldable pub find_first : (A → Bool) → List A → Option A
  find_first p [] = none
  find_first p (x ∷ xs) = if p x then some x else find_first p xs

  pub length-append : (xs ys : List A) → length (xs ++ ys) ≡ length xs + length ys
  length-append [] ys = omega arith
  length-append (x ∷ xs) ys = omega (arith, length-append xs ys)

  pub length-take : (n : ℕ) (xs : List A) → n ≤ length xs → length (take n xs) ≡ n
  length-take zero xs h = refl
  length-take (suc n) [] h = absurd (omega arith)
  length-take (suc n) (x ∷ xs) h = omega (arith, length-take n xs)

  pub length-take-le : (n : ℕ) (xs : List A) → length (take n xs) ≤ length xs
  length-take-le zero xs = omega arith
  length-take-le (suc n) [] = omega arith
  length-take-le (suc n) (x ∷ xs) = omega (arith, length-take-le n xs)

  pub length-drop : (n : ℕ) (xs : List A) → length (drop n xs) ≡ length xs - n
  length-drop zero xs = omega arith
  length-drop (suc n) [] = omega arith
  length-drop (suc n) (x ∷ xs) = omega (arith, length-drop n xs)

  pub length-slice :
      (from to : ℕ) (xs : List A) → to ≤ length xs → length (slice from to xs) ≡ to - from
  length-slice from to xs h =
      length-take (to - from) (drop from xs) (omega (arith, length-drop from xs))

  pub drop-nil : (n : ℕ) → drop n [] ≡ []
  drop-nil zero = refl
  drop-nil (suc n) = refl

  pub drop-drop : (m n : ℕ) (xs : List A) → drop m (drop n xs) ≡ drop (n + m) xs
  drop-drop m zero xs = ap (λ k. drop k xs) (omega arith)
  drop-drop m (suc n) [] = ground (arith, drop-nil m, drop-nil (suc n + m))
  drop-drop m (suc n) (x ∷ xs) =
      drop-drop m n xs ∙ ap (λ k. drop k (x ∷ xs)) {x = suc (n + m)} (omega arith)

  -- a slice of a suffix is a slice of the whole
  pub slice-drop :
      (base from to : ℕ) (xs : List A)
      → base ≤ from
      → from ≤ to
      → slice (from - base) (to - base) (drop base xs) ≡ slice from to xs
  slice-drop base from to xs h k = ground (arith, drop-drop (from - base) base xs)

  -- a slice of a prefix that it fits in is a slice of the whole
  pub slice-take :
      (n from to : ℕ) (xs : List A) → to ≤ n → slice from to (take n xs) ≡ slice from to xs
  slice-take n zero zero xs h = refl
  slice-take n (suc from) zero xs h = ground arith
  slice-take (suc n) zero (suc to) [] h = refl
  slice-take (suc n) zero (suc to) (x ∷ xs) h =
      ground (arith, slice-take n zero to xs (omega arith))
  slice-take (suc n) (suc from) (suc to) [] h = ground arith
  slice-take (suc n) (suc from) (suc to) (x ∷ xs) h =
      ground (arith, slice-take n from to xs (omega arith))
  slice-take zero from (suc to) xs h = absurd (omega arith)

  pub length-keep_if : (p : A → Bool) (xs : List A) → length (keep_if p xs) ≤ length xs
  unfolding keep_if
  length-keep_if p [] = omega arith
  length-keep_if p (x ∷ xs) = ground (arith, length-keep_if p xs)
