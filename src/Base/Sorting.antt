-- ===== src/Base/Sorting.antt =====
-- sort.Slice with a strict order that tells any two elements of the slice apart: whatever its
-- algorithm and whatever the order of the slice before, the result is that of an insertion sort.
use mathlib.Core.List.{
  List, [], ◌∷◌, Pairwise, Mem, Permᴰ, mem-cons_self, eq-or-mem_of_mem-cons, not-mem-nil,
}
use mathlib.Core.Logic.Or
use mathlib.Core.List.Permᴰ
use mathlib.Core.Bool.{Bool, true, false, ◌||◌, Bool-set}
use mathlib.Core.Logic.{inl, inr}
use mathlib.Core.Path.{◌≡◌, refl, sym, ap, ◌∙◌, subst}
use native.Mathlib.Omega.{arith}
use zero_nime.Base.Tests.{Bool-cases, if◌then◌else◌}

module _ {A : Type 0} (less : A → A → Bool) where
  unfoldable pub insert_by : A → List A → List A
  insert_by x [] = x ∷ []
  insert_by x (y ∷ ys) = let rest = insert_by x ys in if less y x then y ∷ rest else x ∷ y ∷ ys

  unfoldable pub sort_by : List A → List A
  sort_by [] = []
  sort_by (x ∷ xs) = insert_by x (sort_by xs)

  -- A strict order, of which "not less" is transitive too.
  pub record StrictOrder : Type 0 where
    pub asym : (a b : A) → less a b ≡ true → less b a ≡ false
    pub trans_not : (a b c : A) → less b a ≡ false → less c b ≡ false → less c a ≡ false

  -- The order tells the elements apart.
  abbrev pub Apart : A → A → Type 0
  Apart a b = (less a b || less b a) ≡ true

  -- No element is less than an earlier one.
  abbrev pub InOrder : List A → Type 0
  InOrder xs = Pairwise (λ a b. less b a ≡ false) xs

  insert-before : (x y : A) (ys : List A) → less y x ≡ false → insert_by x (y ∷ ys) ≡ x ∷ y ∷ ys
  unfolding insert_by
  insert-before x y ys h = ground arith

  insert-after :
      (x y : A) (ys : List A) → less y x ≡ true → insert_by x (y ∷ ys) ≡ y ∷ insert_by x ys
  unfolding insert_by
  insert-after x y ys h = ground arith

  sort-InOrder : (xs : List A) → InOrder xs → sort_by xs ≡ xs
  unfolding sort_by insert_by
  sort-InOrder [] h = refl
  sort-InOrder (x ∷ []) h = refl
  sort-InOrder (x ∷ y ∷ ys) (Pairwise.cons h t) =
      ap (insert_by x) (sort-InOrder (y ∷ ys) t) ∙ insert-before x y ys (h y mem-cons_self)

  module _ (o : StrictOrder) where
    insert_less :
        (a b : A) (l : List A)
        → less a b ≡ true
        → insert_by a (insert_by b l) ≡ insert_by b (insert_by a l)
    unfolding insert_by
    insert_less a b [] h = insert-before a b [] (o.asym a b h) ∙ sym (insert-after b a [] h)
    insert_less a b (y ∷ l) h = elim (Bool-cases (less y a)) [
      | inl ya ↦ elim (Bool-cases (less y b)) [
        | inl yb ↦
            ap (insert_by a) (insert-after b y l yb)
            ∙ insert-after a y (insert_by b l) ya
            ∙ ap (λ r. y ∷ r) (insert_less a b l h)
            ∙ sym (insert-after b y (insert_by a l) yb)
            ∙ ap (insert_by b) (sym (insert-after a y l ya))
        | inr yb ↦ cc (ya, o.trans_not a b y (o.asym a b h) yb)
      ]
      | inr ya ↦
          let first : insert_by b (insert_by a (y ∷ l)) ≡ a ∷ insert_by b (y ∷ l) =
            ap (insert_by b) (insert-before a y l ya) ∙ insert-after b a (y ∷ l) h in
          elim (Bool-cases (less y b)) [
            | inl yb ↦
                ap (insert_by a) (insert-after b y l yb)
                ∙ insert-before a y (insert_by b l) ya
                ∙ ap (λ r. a ∷ r) (sym (insert-after b y l yb))
                ∙ sym first
            | inr yb ↦
                ap (insert_by a) (insert-before b y l yb)
                ∙ insert-before a b (y ∷ l) (o.asym a b h)
                ∙ ap (λ r. a ∷ r) (sym (insert-before b y l yb))
                ∙ sym first
          ]
    ]

    insert-swap :
        (a b : A) (l : List A)
        → Apart a b
        → insert_by a (insert_by b l) ≡ insert_by b (insert_by a l)
    insert-swap a b l h = elim (Bool-cases (less a b)) [
      | inl t ↦ insert_less a b l t
      | inr f ↦ sym (insert_less b a l (rw f at h))
    ]

    Apart-sym : (a b : A) → Apart a b → Apart b a
    Apart-sym a b h = ground arith

    sort-rearranged : {xs ys : List A} → Permᴰ xs ys → Pairwise Apart xs → sort_by xs ≡ sort_by ys
    unfolding sort_by
    sort-rearranged Permᴰ.nil h = refl
    sort-rearranged (Permᴰ.cons {b = b} {l₁ = l} e d) (Pairwise.cons h t) =
        ap (λ c. insert_by c (sort_by l)) e ∙ ap (insert_by b) (sort-rearranged d t)
    sort-rearranged (Permᴰ.swap {a = a} {b = b} {a' = a'} {l = l} e e') (Pairwise.cons h t) =
        insert-swap a b (sort_by l) (h b mem-cons_self)
        ∙ ap (λ c. insert_by c (insert_by a (sort_by l))) e'
        ∙ ap (λ c. insert_by a' (insert_by c (sort_by l))) e
    sort-rearranged (Permᴰ.trans d d') h =
        sort-rearranged d h
        ∙ sort-rearranged d'
            (Permᴰ.pairwise (λ a b. Bool-set (less a b || less b a) true) Apart-sym d h)

    -- What is in order is the result.
    pub sort_unique :
        (xs zs : List A) → Permᴰ xs zs → Pairwise Apart xs → InOrder zs → zs ≡ sort_by xs
    sort_unique xs zs d h k = sym (sort-rearranged d h ∙ sort-InOrder zs k)

    insert-Permᴰ : (x : A) (l : List A) → Permᴰ (x ∷ l) (insert_by x l)
    unfolding insert_by
    insert-Permᴰ x [] = Permᴰ.refl (x ∷ [])
    insert-Permᴰ x (y ∷ l) = elim (Bool-cases (less y x)) [
      | inl t ↦
          subst (Permᴰ (x ∷ y ∷ l)) (sym (insert-after x y l t))
            (Permᴰ.trans (Permᴰ.swap refl refl) (Permᴰ.cons refl (insert-Permᴰ x l)))
      | inr f ↦ subst (Permᴰ (x ∷ y ∷ l)) (sym (insert-before x y l f)) (Permᴰ.refl (x ∷ y ∷ l))
    ]

    -- The result has the elements of the slice.
    pub sort-Permᴰ : (xs : List A) → Permᴰ xs (sort_by xs)
    unfolding sort_by
    sort-Permᴰ [] = Permᴰ.nil
    sort-Permᴰ (x ∷ xs) =
        Permᴰ.trans (Permᴰ.cons refl (sort-Permᴰ xs)) (insert-Permᴰ x (sort_by xs))

    below :
        (x y : A) (l : List A)
        → less y x ≡ false
        → ((z : A) → Mem z l → less z y ≡ false)
        → (z : A) → Mem z (y ∷ l)
        → less z x ≡ false
    below x y l h k z m =
        Or.elim (Bool-set (less z x) false) (eq-or-mem_of_mem-cons m)
          (λ e. ap (λ c. less c x) e ∙ h) (λ m'. o.trans_not x y z h (k z m'))

    insert-InOrder : (x : A) (l : List A) → InOrder l → InOrder (insert_by x l)
    unfolding insert_by
    insert-InOrder x [] h = Pairwise.cons (λ z m. absurd (not-mem-nil m)) Pairwise.nil
    insert-InOrder x (y ∷ l) (Pairwise.cons h t) = elim (Bool-cases (less y x)) [
      | inl yx ↦ subst InOrder (sym (insert-after x y l yx)) (
          Pairwise.cons
            (λ z m.
              Or.elim (Bool-set (less z y) false)
                (eq-or-mem_of_mem-cons (Permᴰ.mem (Permᴰ.symm (insert-Permᴰ x l)) m))
                (λ e. ap (λ c. less c y) e ∙ o.asym y x yx) (h z))
            (insert-InOrder x l t))
      | inr f ↦
          subst InOrder (sym (insert-before x y l f))
            (Pairwise.cons (below x y l f h) (Pairwise.cons h t))
    ]

    -- The result is in order.
    pub sorted-InOrder : (xs : List A) → InOrder (sort_by xs)
    unfolding sort_by
    sorted-InOrder [] = Pairwise.nil
    sorted-InOrder (x ∷ xs) = insert-InOrder x (sort_by xs) (sorted-InOrder xs)
