-- ===== src/Base/Members.antt =====
-- Membership in lists, through filters and searches.
use mathlib.Core.List.{List, [], ◌∷◌}
use mathlib.Core.Bool.{Bool, true, false}
use mathlib.Core.Option.{none, some}
use mathlib.Core.Path.{◌≡◌, ap, sym, ◌∙◌}
use mathlib.Core.Logic.{◌⊎◌, inl, inr}
use native.Mathlib.Omega.{arith}
use zero_nime.Base.Lists.{keep_if, find_first}
use zero_nime.Base.Tests.{Bool-cases}

-- Membership, with the place.
abbrev pub In : {A : Type 0} → A → List A → Type 0
In x [] = ⊥
In x (y ∷ ys) = (x ≡ y) ⊎ In x ys

module _ {A : Type 0} where
  pub In-keep_if : (p : A → Bool) (x : A) (xs : List A) → In x xs → p x ≡ true → In x (keep_if p xs)
  unfolding keep_if
  In-keep_if p x (y ∷ ys) (inl e) h = rw (ap p (sym e) ∙ h) (inl e)
  In-keep_if p x (y ∷ ys) (inr m) h = elim (Bool-cases (p y)) [
    | inl t ↦ rw t (inr (In-keep_if p x ys m h))
    | inr f ↦ rw f (In-keep_if p x ys m h)
  ]
  In-keep_if p x [] m h = elim m [ ]

  -- what is kept was there, and passes the test
  pub keep_if-In :
      (p : A → Bool) (x : A) (xs : List A) → In x (keep_if p xs) → In x xs × (p x ≡ true)
  unfolding keep_if
  keep_if-In p x [] m = elim m [ ]
  keep_if-In p x (y ∷ ys) m = elim (Bool-cases (p y)) [
    | inl t ↦ kept (keep_if-In p x ys) t (rw t at m)
    | inr f ↦ let (m', h) = keep_if-In p x ys (rw f at m) in (inr m', h)
  ]
    where
      kept :
          (In x (keep_if p ys) → In x ys × (p x ≡ true))
          → p y ≡ true
          → (x ≡ y) ⊎ In x (keep_if p ys)
          → In x (y ∷ ys) × (p x ≡ true)
      kept ih t (inl e) = (inl e, ap p e ∙ t)
      kept ih t (inr m') = let (n, h) = ih m' in (inr n, h)

  pub find_first-In :
      (p : A → Bool) (xs : List A) (x : A) → find_first p xs ≡ some x → In x xs × (p x ≡ true)
  unfolding find_first
  find_first-In p [] x e = cc
  find_first-In p (y ∷ ys) x e = elim (Bool-cases (p y)) [
    | inl t ↦ let same : x ≡ y = ground arith in (inl same, ap p same ∙ t)
    | inr f ↦ let (m, h) = find_first-In p ys x (rw f at e) in (inr m, h)
  ]

  -- a search that finds nothing passes over elements that fail the test
  pub find_first-none :
      (p : A → Bool) (xs : List A) (x : A) → find_first p xs ≡ none → In x xs → p x ≡ false
  unfolding find_first
  find_first-none p (y ∷ ys) x e (inl same) = elim (Bool-cases (p y)) [
    | inl t ↦ cc (rw t at e)
    | inr f ↦ ap p same ∙ f
  ]
  find_first-none p (y ∷ ys) x e (inr m) = elim (Bool-cases (p y)) [
    | inl t ↦ cc (rw t at e)
    | inr f ↦ find_first-none p ys x (rw f at e) m
  ]
  find_first-none p [] x e m = elim m [ ]
