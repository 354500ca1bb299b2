-- ===== src/Text/Laws.antt =====
-- Laws of the string functions.
use mathlib.Core.List.{reverse-reverse, reverse-append, reverse-cons}
use zero_nime.Base.{
  ℕ, ◌≡◌, refl, ◌≢◌, ◌↔◌, ◌∙◌, sym, ap, Bool, true, false, some, [], ◌∷◌, ◌++◌, reverse, arith,
  nat_eq, Bool-cases, inl, inr,
}
use zero_nime.Text.{Text, ◌==◌, is_space, drop_while, trim_by, trim_space, has_prefix, split_2}

pub eq_iff : (s t : Text) → ((s == t) ≡ true) ↔ (s ≡ t)
unfolding ◌==◌
eq_iff [] [] = (λ _. refl, λ _. refl)
eq_iff [] (b ∷ t) = (λ e. cc, λ e. cc)
eq_iff (a ∷ s) [] = (λ e. cc, λ e. cc)
eq_iff (a ∷ s) (b ∷ t) = (λ e. ground (arith, (eq_iff s t).0), λ e. ground (arith, (eq_iff s t).1))

pub eq_refl : (s : Text) → (s == s) ≡ true
eq_refl s = (eq_iff s s).1 refl

pub eq_of_ne : (s t : Text) → s ≢ t → (s == t) ≡ false
eq_of_ne s t h = ground (arith, eq_iff s t)

module _ (p : ℕ → Bool) where
  -- What `drop_while` leaves is empty or begins with a character that fails the test.
  abbrev pub StartsOff : Text → Type 0
  StartsOff [] = Unit
  StartsOff (c ∷ s) = p c ≡ false

  drop_while-StartsOff : (s : Text) → StartsOff (drop_while p s)
  unfolding drop_while
  drop_while-StartsOff [] = tt
  drop_while-StartsOff (c ∷ s) = elim (Bool-cases (p c)) [
    | inl h ↦ rw h (drop_while-StartsOff s)
    | inr h ↦ rw h h
  ]

  drop_while_of_StartsOff : (s : Text) → StartsOff s → drop_while p s ≡ s
  unfolding drop_while
  drop_while_of_StartsOff [] h = refl
  drop_while_of_StartsOff (c ∷ s) h = rw h

  -- Dropping from the front cuts a prefix off.
  drop_while-suffix : (s : Text) → (q : Text) × (s ≡ q ++ drop_while p s)
  unfolding drop_while
  drop_while-suffix [] = ([], refl)
  drop_while-suffix (c ∷ s) = elim (Bool-cases (p c)) [
    | inl h ↦ let (q, e) = drop_while-suffix s in (c ∷ q, rw h (ap (◌∷◌ c) e))
    | inr h ↦ ([], rw h refl)
  ]

  -- the second pass keeps the front that the first pass left
  trimmed-StartsOff : (s : Text) → StartsOff s → StartsOff (reverse (drop_while p (reverse s)))
  trimmed-StartsOff s h =
      let (q, e) = drop_while-suffix (reverse s) in
      go (reverse (drop_while p (reverse s))) (reverse q)
        (sym (reverse-reverse s) ∙ ap reverse e ∙ reverse-append q (drop_while p (reverse s)))
    where
      go : (t u : Text) → s ≡ t ++ u → StartsOff t
      go [] u e = tt
      go (c ∷ t) u e = rw e at h

  -- a text whose ends fail the test is left as it is
  pub trim_by_of_StartsOff : (s : Text) → StartsOff s → StartsOff (reverse s) → trim_by p s ≡ s
  unfolding trim_by
  trim_by_of_StartsOff s h k =
      rw (drop_while_of_StartsOff s h, drop_while_of_StartsOff (reverse s) k, reverse-reverse s)

  pub trim_by-StartsOff : (s : Text) → StartsOff (trim_by p s)
  unfolding trim_by
  trim_by-StartsOff s = trimmed-StartsOff (drop_while p s) (drop_while-StartsOff s)

  pub reverse-trim_by-StartsOff : (s : Text) → StartsOff (reverse (trim_by p s))
  unfolding trim_by
  reverse-trim_by-StartsOff s = rw reverse-reverse (drop_while-StartsOff (reverse (drop_while p s)))

  pub trim_by_idem : (s : Text) → trim_by p (trim_by p s) ≡ trim_by p s
  trim_by_idem s =
      trim_by_of_StartsOff (trim_by p s) (trim_by-StartsOff s) (reverse-trim_by-StartsOff s)

pub trim_space_idem : (s : Text) → trim_space (trim_space s) ≡ trim_space s
unfolding trim_space
trim_space_idem s = trim_by_idem is_space s

pub StartsOff-append : (f : ℕ → Bool) (s t : Text) → s ≢ [] → StartsOff f s → StartsOff f (s ++ t)
StartsOff-append f [] t ne h = absurd (ne refl)
StartsOff-append f (c ∷ s) t ne h = h

append-ne-nil : (t : Text) (c : ℕ) → t ++ c ∷ [] ≢ []
append-ne-nil [] c = λ e. cc
append-ne-nil (d ∷ t) c = λ e. cc

pub reverse-ne-nil : (s : Text) → s ≢ [] → reverse s ≢ []
reverse-ne-nil [] h = absurd (h refl)
reverse-ne-nil (c ∷ s) h = rw (reverse-cons c s) (append-ne-nil (reverse s) c)

-- every character fails the test
abbrev pub AllOff : (ℕ → Bool) → Text → Type 0
AllOff f [] = Unit
AllOff f (c ∷ s) = (f c ≡ false) × AllOff f s

pub AllOff-reverse : (f : ℕ → Bool) (s : Text) → AllOff f s → StartsOff f (reverse s)
AllOff-reverse f [] h = tt
AllOff-reverse f (c ∷ []) (h, _) = h
AllOff-reverse f (c ∷ d ∷ s) (h, hs) = rw (reverse-cons c (d ∷ s)) (
    StartsOff-append f (reverse (d ∷ s)) (c ∷ []) (reverse-ne-nil (d ∷ s) (λ e. cc))
      (AllOff-reverse f (d ∷ s) hs))

pub has_prefix-append : (p s : Text) → has_prefix (p ++ s) p ≡ true
unfolding has_prefix
has_prefix-append [] s = ground arith
has_prefix-append (c ∷ p) s = ground (arith, has_prefix-append p s)

-- A text without the separator, the separator and a rest split at the separator.
abbrev pub Lacks : ℕ → Text → Type 0
Lacks k [] = Unit
Lacks k (c ∷ s) = (nat_eq c k ≡ false) × Lacks k s

pub split_2-append : (k : ℕ) (s t : Text) → Lacks k s → split_2 k (s ++ k ∷ t) ≡ some (s, t)
unfolding split_2
split_2-append k [] t h = ground arith
split_2-append k (c ∷ s) t (h, hs) = rw (h, split_2-append k s t hs)
