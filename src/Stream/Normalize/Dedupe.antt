-- ===== src/Stream/Normalize/Dedupe.antt =====
-- The sort and the removal of duplicates in normalizeCandidates.
use zero_nime.Base.{
  ◌≡◌, refl, ap, sym, subst, ◌∙◌, ◌⊎◌, inl, inr, true, false, ◌||◌, List, [], ◌∷◌, arith, In,
  Bool-cases, if_cases,
}
use zero_nime.Domain.{StreamCandidate}
use zero_nime.Stream.Normalize.{before, insert_sorted, sort_stable, candidate_key, dedupe_from}
use zero_nime.Text.{Text, ◌==◌, member}
use zero_nime.Text.Laws.{eq_iff}

-- No later element has a higher priority.
abbrev pub Sorted : List StreamCandidate → Type 0
Sorted [] = Unit
Sorted (x ∷ xs) = ((c : StreamCandidate) → In c xs → before c x ≡ false) × Sorted xs

insert_sorted-In :
    (z c : StreamCandidate) (ds : List StreamCandidate)
    → In z (insert_sorted c ds)
    → (z ≡ c) ⊎ In z ds
unfolding insert_sorted
insert_sorted-In z c [] m = m
insert_sorted-In z c (d ∷ ds) m = elim (Bool-cases (before d c)) [
  | inl t ↦ kept (insert_sorted-In z c ds) (rw t at m)
  | inr f ↦ rw f at m
]
  where
    kept :
        (In z (insert_sorted c ds) → (z ≡ c) ⊎ In z ds)
        → (z ≡ d) ⊎ In z (insert_sorted c ds)
        → (z ≡ c) ⊎ In z (d ∷ ds)
    kept ih (inl e) = inr (inl e)
    kept ih (inr n) = elim (ih n) [ inl e ↦ inl e | inr n' ↦ inr (inr n') ]

In-insert_sorted :
    (z c : StreamCandidate) (ds : List StreamCandidate)
    → (z ≡ c) ⊎ In z ds
    → In z (insert_sorted c ds)
unfolding insert_sorted
In-insert_sorted z c [] m = m
In-insert_sorted z c (d ∷ ds) m = elim (Bool-cases (before d c)) [
  | inl t ↦ rw t (kept (In-insert_sorted z c ds) m)
  | inr f ↦ rw f m
]
  where
    kept :
        ((z ≡ c) ⊎ In z ds → In z (insert_sorted c ds))
        → (z ≡ c) ⊎ In z (d ∷ ds)
        → (z ≡ d) ⊎ In z (insert_sorted c ds)
    kept ih (inl e) = inr (ih (inl e))
    kept ih (inr (inl e)) = inl e
    kept ih (inr (inr n)) = inr (ih (inr n))

before_trans :
    (a b c : StreamCandidate) → before a b ≡ false → before b c ≡ false → before a c ≡ false
before_trans a b c h k = ground arith

before_asym : (a b : StreamCandidate) → before a b ≡ true → before b a ≡ false
before_asym a b h = ground arith

insert_sorted-Sorted :
    (c : StreamCandidate) (ds : List StreamCandidate) → Sorted ds → Sorted (insert_sorted c ds)
unfolding insert_sorted
insert_sorted-Sorted c [] s = ((λ z m. elim m [ ]), tt)
insert_sorted-Sorted c (d ∷ ds) (h, s) =
    if_cases Sorted (before d c) _ _
      (λ t. ((λ z m. below t z (insert_sorted-In z c ds m)), insert_sorted-Sorted c ds s))
      (λ f. ((λ z m. above f z m), (h, s)))
  where
    below : before d c ≡ true → (z : StreamCandidate) → (z ≡ c) ⊎ In z ds → before z d ≡ false
    below t z (inl e) = ap (λ x. before x d) e ∙ before_asym d c t
    below t z (inr n) = h z n

    above : before d c ≡ false → (z : StreamCandidate) → (z ≡ d) ⊎ In z ds → before z c ≡ false
    above f z (inl e) = ap (λ x. before x c) e ∙ f
    above f z (inr n) = before_trans z d c (h z n) f

pub sort_stable-Sorted : (cs : List StreamCandidate) → Sorted (sort_stable cs)
unfolding sort_stable
sort_stable-Sorted [] = tt
sort_stable-Sorted (c ∷ cs) = insert_sorted-Sorted c (sort_stable cs) (sort_stable-Sorted cs)

pub sort_stable-In :
    (z : StreamCandidate) (cs : List StreamCandidate) → In z (sort_stable cs) → In z cs
unfolding sort_stable
sort_stable-In z [] m = m
sort_stable-In z (c ∷ cs) m = elim (insert_sorted-In z c (sort_stable cs) m) [
  | inl e ↦ inl e
  | inr n ↦ inr (sort_stable-In z cs n)
]

pub In-sort_stable :
    (z : StreamCandidate) (cs : List StreamCandidate) → In z cs → In z (sort_stable cs)
unfolding sort_stable
In-sort_stable z [] m = m
In-sort_stable z (c ∷ cs) (inl e) = In-insert_sorted z c (sort_stable cs) (inl e)
In-sort_stable z (c ∷ cs) (inr m) =
    In-insert_sorted z c (sort_stable cs) (inr (In-sort_stable z cs m))

pub dedupe_from-In :
    (z : StreamCandidate) (seen : List Text) (cs : List StreamCandidate)
    → In z (dedupe_from seen cs)
    → In z cs
unfolding dedupe_from
dedupe_from-In z seen [] m = m
dedupe_from-In z seen (c ∷ cs) m = elim (Bool-cases (member (candidate_key c) seen)) [
  | inl t ↦ inr (dedupe_from-In z seen cs (rw t at m))
  | inr f ↦ kept (dedupe_from-In z (candidate_key c ∷ seen) cs) (rw f at m)
]
  where
    kept :
        (In z (dedupe_from (candidate_key c ∷ seen) cs) → In z cs)
        → (z ≡ c) ⊎ In z (dedupe_from (candidate_key c ∷ seen) cs)
        → In z (c ∷ cs)
    kept ih (inl e) = inl e
    kept ih (inr n) = inr (ih n)

-- A candidate of the same key that has at least the priority is in the list.
abbrev pub Covered : StreamCandidate → List StreamCandidate → Type 0
Covered c ds =
    (d : StreamCandidate) × In d ds × (candidate_key d ≡ candidate_key c) × (before c d ≡ false)

later_Covered :
    (c x : StreamCandidate) (ds : List StreamCandidate) → Covered c ds → Covered c (x ∷ ds)
later_Covered c x ds (d, m, e, h) = (d, inr m, e, h)

before_irrefl : (c : StreamCandidate) → before c c ≡ false
before_irrefl c = ground arith

-- the key was seen before, or the candidate is covered
abbrev SeenOrCovered : StreamCandidate → List Text → List StreamCandidate → Type 0
SeenOrCovered c seen ds = (member (candidate_key c) seen ≡ true) ⊎ Covered c ds

member-cons_ne :
    (k j : Text) (js : List Text) → (j == k) ≡ false → member k (j ∷ js) ≡ true → member k js ≡ true
unfolding member
member-cons_ne k j js h t = subst (λ b. (b || member k js) ≡ true) h t

dedupe_from-covers :
    (c : StreamCandidate) (seen : List Text) (cs : List StreamCandidate)
    → Sorted cs
    → In c cs
    → SeenOrCovered c seen (dedupe_from seen cs)
unfolding dedupe_from
dedupe_from-covers c seen [] s m = elim m [ ]
dedupe_from-covers c seen (x ∷ xs) (h, s) (inl e) =
    if_cases (SeenOrCovered c seen) (member (candidate_key x) seen) _ _
      (λ t. inl (ap (λ y. member (candidate_key y) seen) e ∙ t))
      (λ _. inr (x, inl refl, ap candidate_key (sym e), ap (λ y. before y x) e ∙ before_irrefl x))
dedupe_from-covers c seen (x ∷ xs) (h, s) (inr m) =
    if_cases (SeenOrCovered c seen) (member (candidate_key x) seen) _ _
      (λ _. dedupe_from-covers c seen xs s m)
      (λ _. kept (dedupe_from-covers c (candidate_key x ∷ seen) xs s m))
  where
    kept :
        SeenOrCovered c (candidate_key x ∷ seen) (dedupe_from (candidate_key x ∷ seen) xs)
        → SeenOrCovered c seen (x ∷ dedupe_from (candidate_key x ∷ seen) xs)
    kept (inr d) = inr (later_Covered c x _ d)
    kept (inl t) = elim (Bool-cases (candidate_key x == candidate_key c)) [
      | inl same ↦ inr (x, inl refl, (eq_iff (candidate_key x) (candidate_key c)).0 same, h c m)
      | inr other ↦ inl (member-cons_ne (candidate_key c) (candidate_key x) seen other t)
    ]

-- Every candidate is covered by one that is left when the duplicates are removed.
pub deduped-Covered :
    (c : StreamCandidate) (cs : List StreamCandidate)
    → In c cs
    → Covered c (dedupe_from [] (sort_stable cs))
unfolding member
deduped-Covered c cs m =
    kept (dedupe_from-covers c [] (sort_stable cs) (sort_stable-Sorted cs) (In-sort_stable c cs m))
  where
    kept :
        SeenOrCovered c [] (dedupe_from [] (sort_stable cs))
        → Covered c (dedupe_from [] (sort_stable cs))
    kept (inl t) = cc
    kept (inr d) = d
