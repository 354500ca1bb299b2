-- ===== src/Kuramanime/Episodes/Merge.antt =====
-- mergeEpisodeRefs of internal/provider/kuramanime/episodes.go has one result, whatever the order
-- in which its map is iterated and whatever the algorithm of sort.Slice.
use mathlib.Core.Bool.{Bool-set}
use mathlib.Core.List.{
  Mem, Mem-prop, Pairwise, Permᴰ, eq-or-mem_of_mem-cons, mem-cons_self, mem-cons_of_mem,
  not-mem-nil,
}
use mathlib.Core.Logic.Or
use zero_nime.Base.{
  ◌≡◌, sym, ap, ◌∙◌, subst, inl, inr, Bool, true, false, not, List, [], ◌∷◌, any, keep_if, arith,
  Bool-cases, if_cases, Apart, InOrder, sort_unique, sort-Permᴰ, sorted-InOrder,
}
use zero_nime.Kuramanime.Episodes.Order.{ref_less-StrictOrder, ref_less-Apart}
use zero_nime.Kuramanime.Episodes.{
  EpisodeRef, ref_less, sorted_episode_refs, has_slug, put_ref, add_ref, put_refs, add_refs, merged,
  merge_episode_refs,
}
use zero_nime.Text.Laws.{eq_iff}
use zero_nime.Text.{Text, ◌==◌}

abbrev OtherSlug : EpisodeRef → EpisodeRef → Type 0
OtherSlug a b = (a.slug == b.slug) ≡ false

other_sym : (s t : Text) → (s == t) ≡ false → (t == s) ≡ false
other_sym s t h = elim (Bool-cases (t == s)) [
  | inl e ↦ cc (sym h ∙ (eq_iff s t).1 (sym ((eq_iff t s).0 e)))
  | inr f ↦ f
]

module _ {A : Type 0} (p : A → Bool) where
  keep_if-passes : (z : A) (xs : List A) → Mem z (keep_if p xs) → p z ≡ true
  unfolding keep_if
  keep_if-passes z [] m = absurd (not-mem-nil m)
  keep_if-passes z (x ∷ xs) m = elim (Bool-cases (p x)) [
    | inl t ↦
        Or.elim (Bool-set (p z) true) (eq-or-mem_of_mem-cons (rw t at m)) (λ e. ap p e ∙ t)
          (keep_if-passes z xs)
    | inr f ↦ keep_if-passes z xs (rw f at m)
  ]

  keep_if-Mem : (z : A) (xs : List A) → Mem z (keep_if p xs) → Mem z xs
  unfolding keep_if
  keep_if-Mem z [] m = m
  keep_if-Mem z (x ∷ xs) m = elim (Bool-cases (p x)) [
    | inl t ↦
        Or.elim Mem-prop (eq-or-mem_of_mem-cons (rw t at m))
          (λ e. subst (λ y. Mem y (x ∷ xs)) (sym e) mem-cons_self)
          (λ m'. mem-cons_of_mem x (keep_if-Mem z xs m'))
    | inr f ↦ mem-cons_of_mem x (keep_if-Mem z xs (rw f at m))
  ]

  keep_if-Pairwise : {R : A → A → Type 0} (xs : List A) → Pairwise R xs → Pairwise R (keep_if p xs)
  unfolding keep_if
  keep_if-Pairwise [] h = h
  keep_if-Pairwise {R} (x ∷ xs) (Pairwise.cons h t) = elim (Bool-cases (p x)) [
    | inl e ↦ rw e (Pairwise.cons (λ z m. h z (keep_if-Mem z xs m)) (keep_if-Pairwise xs t))
    | inr f ↦ rw f (keep_if-Pairwise xs t)
  ]

  any-fails : (z : A) (xs : List A) → any p xs ≡ false → Mem z xs → p z ≡ false
  unfolding any
  any-fails z [] h m = absurd (not-mem-nil m)
  any-fails z (x ∷ xs) h m =
      Or.elim (Bool-set (p z) false) (eq-or-mem_of_mem-cons m) (λ e. ap p e ∙ ground arith)
        (any-fails z xs (ground arith))

-- The references of a map: no two have one slug.
abbrev IsMap : List EpisodeRef → Type 0
IsMap seen = Pairwise OtherSlug seen

put_ref-IsMap :
    (item : EpisodeRef) (seen : List EpisodeRef) → IsMap seen → IsMap (put_ref item seen)
unfolding put_ref
put_ref-IsMap item seen h =
    Pairwise.cons
      (λ z m.
        other_sym z.slug item.slug
          (ground (arith, keep_if-passes (λ (r : EpisodeRef). not (r.slug == item.slug)) z seen m)))
      (keep_if-Pairwise (λ (r : EpisodeRef). not (r.slug == item.slug)) seen h)

add_ref-IsMap :
    (item : EpisodeRef) (seen : List EpisodeRef) → IsMap seen → IsMap (add_ref item seen)
unfolding add_ref
add_ref-IsMap item seen h =
    if_cases IsMap (has_slug item.slug seen) seen (item ∷ seen) (λ _. h)
      (λ f.
        Pairwise.cons
          (λ z m.
            other_sym z.slug item.slug
              (any-fails (λ (r : EpisodeRef). r.slug == item.slug) z seen f m))
          h)

put_refs-IsMap : (items seen : List EpisodeRef) → IsMap seen → IsMap (put_refs items seen)
unfolding put_refs
put_refs-IsMap [] seen h = h
put_refs-IsMap (item ∷ items) seen h =
    put_refs-IsMap items (put_ref item seen) (put_ref-IsMap item seen h)

add_refs-IsMap : (items seen : List EpisodeRef) → IsMap seen → IsMap (add_refs items seen)
unfolding add_refs
add_refs-IsMap [] seen h = h
add_refs-IsMap (item ∷ items) seen h =
    add_refs-IsMap items (add_ref item seen) (add_ref-IsMap item seen h)

merged-IsMap : (base extra : List EpisodeRef) → IsMap (merged base extra)
unfolding merged
merged-IsMap base extra =
    add_refs-IsMap extra (put_refs base []) (put_refs-IsMap base [] Pairwise.nil)

apart : (xs : List EpisodeRef) → IsMap xs → Pairwise (Apart ref_less) xs
apart [] h = Pairwise.nil
apart (x ∷ xs) (Pairwise.cons h t) = Pairwise.cons (λ z m. ref_less-Apart x z (h z m)) (apart xs t)

-- mergeEpisodeRefs gives the references of its map ordered by number and slug, and each ordered
-- arrangement of them is the one that it gives, so that neither the order in which the map is
-- iterated nor the algorithm of the sort shows.
pub merge_episode_refs_unique :
    (base extra : List EpisodeRef)
    → Permᴰ (merged base extra) (merge_episode_refs base extra)
      × InOrder ref_less (merge_episode_refs base extra)
      × ((arranged : List EpisodeRef)
          → Permᴰ (merged base extra) arranged
          → InOrder ref_less arranged
          → arranged ≡ merge_episode_refs base extra)
unfolding merge_episode_refs sorted_episode_refs
merge_episode_refs_unique base extra = (
  sort-Permᴰ ref_less ref_less-StrictOrder (merged base extra),
  sorted-InOrder ref_less ref_less-StrictOrder (merged base extra),
  (λ arranged d h.
      sort_unique ref_less ref_less-StrictOrder (merged base extra) arranged d
        (apart (merged base extra) (merged-IsMap base extra)) h),
)
