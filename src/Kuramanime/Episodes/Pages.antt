-- ===== src/Kuramanime/Episodes/Pages.antt =====
-- The pages of episodes that the loop of collectEpisodes in internal/provider/kuramanime/catalog.go
-- asks for.
use mathlib.Core.Bool.{Bool-set}
use mathlib.Core.List.{Mem, Pairwise, Permᴰ, eq-or-mem_of_mem-cons, not-mem-nil, append_assoc}
use mathlib.Core.List.Permᴰ
use mathlib.Core.Logic.Or
use zero_nime.Base.{
  ℕ, zero, suc, ◌+◌, ◌≤◌, ◌≡◌, sym, ap, ◌∙◌, subst, inl, inr, true, false, ◌||◌, List, [], ◌∷◌,
  ◌++◌, length, arith, Bool-cases, if_cases, Result, ok, err, panic, M, recover, ◌>>=◌,
}
use zero_nime.Kuramanime.Episodes.{
  EpisodeRef, Page, enqueue, visit, visit_pages, seeded, walk_from, collect_refs,
  extract_episode_refs, merge_episode_refs,
}
use zero_nime.Text.Laws.{eq_iff, eq_refl}
use zero_nime.Text.{Text, ◌==◌, member}

abbrev pub OtherText : Text → Text → Type 0
OtherText a b = (a == b) ≡ false

-- No text occurs twice.
abbrev pub AllDifferent : List Text → Type 0
AllDifferent texts = Pairwise OtherText texts

other_sym : (a b : Text) → OtherText a b → OtherText b a
other_sym a b h = elim (Bool-cases (b == a)) [
  | inl e ↦ cc (sym h ∙ (eq_iff a b).1 (sym ((eq_iff b a).0 e)))
  | inr f ↦ f
]

-- All texts are different, and were visited.
abbrev Marked : List Text → List Text → Type 0
Marked visited texts = AllDifferent texts × ((z : Text) → Mem z texts → member z visited ≡ true)

Marked-Permᴰ :
    (visited : List Text) {l l' : List Text} → Permᴰ l l' → Marked visited l → Marked visited l'
Marked-Permᴰ visited d (h, k) = (
  Permᴰ.pairwise (λ a b. Bool-set (a == b) false) other_sym d h,
  (λ z m. k z (Permᴰ.mem (Permᴰ.symm d) m)),
)

Marked-cons :
    (visited texts : List Text) (p : Text)
    → member p visited ≡ false
    → Marked visited texts
    → Marked (p ∷ visited) (p ∷ texts)
unfolding member
Marked-cons visited texts p f (h, k) = (
  Pairwise.cons (λ z m. other z (k z m)) h,
  (λ z m.
      Or.elim (Bool-set (p == z || member z visited) true) (eq-or-mem_of_mem-cons m)
        (λ e. let same : (p == z) ≡ true = ap (λ y. p == y) e ∙ eq_refl p in ground arith)
        (λ m'. let seen = k z m' in ground arith)),
)
  where
    other : (z : Text) → member z visited ≡ true → OtherText p z
    other z t = elim (Bool-cases (p == z)) [
      | inl e ↦ cc (sym t ∙ ap (λ y. member y visited) (sym ((eq_iff p z).0 e)) ∙ f)
      | inr n ↦ n
    ]

-- a page at the end of the queue, or in front of everything
to_front :
    (p : Text) (queue asked : List Text) → Permᴰ (p ∷ (queue ++ asked)) ((queue ++ p ∷ []) ++ asked)
to_front p queue asked =
    subst (Permᴰ (p ∷ (queue ++ asked))) (sym (append_assoc queue (p ∷ []) asked))
      (Permᴰ.symm (Permᴰ.middle p queue asked))

enqueue-Marked :
    (pages visited queue asked : List Text)
    → Marked visited (queue ++ asked)
    → Marked (enqueue pages visited queue).0 ((enqueue pages visited queue).1 ++ asked)
unfolding enqueue
enqueue-Marked [] visited queue asked h = h
enqueue-Marked (p ∷ pages) visited queue asked h =
    if_cases (λ (r : List Text × List Text). Marked r.0 (r.1 ++ asked)) (member p visited) _ _
      (λ _. enqueue-Marked pages visited queue asked h)
      (λ f. enqueue-Marked pages (p ∷ visited) (queue ++ p ∷ []) asked (
        Marked-Permᴰ (p ∷ visited) (to_front p queue asked)
          (Marked-cons visited (queue ++ asked) p f h)))

asked-AllDifferent : (queue asked : List Text) → AllDifferent (queue ++ asked) → AllDifferent asked
asked-AllDifferent [] asked h = h
asked-AllDifferent (p ∷ queue) asked (Pairwise.cons _ t) = asked-AllDifferent queue asked t

module _ {W : Type 0} (get_page : Text → M W Page) (slug : Text) (asked : W → List Text)
    (records : (p : Text) (w : W) → asked (get_page p w).1 ≡ p ∷ asked w) where
  -- at most so many pages more, and none twice
  abbrev Bounded : ℕ → {A : Type 0} → Result A × W → Type 0
  Bounded n x = AllDifferent (asked x.1) × (length (asked x.1) ≤ n)

  -- the rest of the loop, from any state
  abbrev Continues : ℕ → Type 0
  Continues room =
      (refs : List EpisodeRef) (visited queue : List Text) (w : W)
      → Marked visited (queue ++ asked w)
      → Bounded (room + length (asked w)) (visit_pages get_page slug room (refs, visited, queue) w)

  visit-Bounded :
      (room n : ℕ) (refs : List EpisodeRef) (visited queue : List Text) (r : Result Page) (w : W)
      → Continues room
      → Marked visited (queue ++ asked w)
      → room + length (asked w) ≤ n
      → Bounded n (
          ((λ u. (recover r, u))
              >>= visit get_page slug (refs, visited, queue)
              >>= visit_pages get_page slug room)
            w)
  visit-Bounded room n refs visited queue (ok page) w rest h le =
      let (d, k) =
        rest (merge_episode_refs refs (extract_episode_refs page slug))
          (enqueue page.pages visited queue).0 (enqueue page.pages visited queue).1 w
          (enqueue-Marked page.pages visited queue (asked w) h) in
      (d, omega arith)
  visit-Bounded room n refs visited queue (err e) w rest h le =
      let (d, k) = rest refs visited queue w h in (d, omega arith)
  visit-Bounded room n refs visited queue panic w rest h le =
      (asked-AllDifferent queue (asked w) h.0, omega arith)

  visit_pages-Bounded : (room : ℕ) → Continues room
  unfolding visit_pages
  visit_pages-Bounded zero refs visited queue w h =
      (asked-AllDifferent queue (asked w) h.0, omega arith)
  visit_pages-Bounded (suc room) refs visited [] w h = (h.0, omega arith)
  visit_pages-Bounded (suc room) refs visited (p ∷ queue) w h =
      let count : length (asked (get_page p w).1) ≡ suc (length (asked w)) =
        ap length (records p w) in
      visit-Bounded room (suc room + length (asked w)) refs visited queue (get_page p w).0
        (get_page p w).1 (visit_pages-Bounded room)
        (subst (λ l. Marked visited (queue ++ l)) (sym (records p w))
          (Marked-Permᴰ visited (Permᴰ.symm (Permᴰ.middle p queue (asked w))) h))
        (omega arith)

  seeded-Marked :
      (first : EpisodeRef) (visited queue asked : List Text)
      → Marked visited (queue ++ asked)
      → Marked
          (seeded get_page slug first (visited, queue)).0
          ((seeded get_page slug first (visited, queue)).1 ++ asked)
  seeded-Marked first visited queue asked h =
      if_cases (λ (r : List Text × List Text). Marked r.0 (r.1 ++ asked)) (first.path == []) _ _
        (λ _. h) (λ _. enqueue-Marked (first.path ∷ []) visited queue asked h)

  walk_from-Bounded :
      (page : Page) (refs : List EpisodeRef) (w : W)
      → asked w ≡ []
      → Bounded 24 (walk_from get_page slug page refs w)
  walk_from-Bounded page [] w e =
      (subst AllDifferent (sym e) Pairwise.nil, ground (arith, ap length e))
  walk_from-Bounded page (first ∷ refs) w e =
      let queued = enqueue page.pages [] [] in
      let start : Marked [] ([] ++ asked w) =
        subst (Marked []) (sym e) (Pairwise.nil, (λ z m. absurd (not-mem-nil m))) in
      let (d, k) =
        visit_pages-Bounded 24 (first ∷ refs) (seeded get_page slug first queued).0
          (seeded get_page slug first queued).1 w
          (seeded-Marked first queued.0 queued.1 (asked w)
            (enqueue-Marked page.pages [] [] (asked w) start)) in
      (d, let none_yet : length (asked w) ≡ 0 = ap length e in omega arith)

  -- However the pages link to each other, the loop of collectEpisodes over the pages of episodes
  -- ends after it asked for at most 24 pages, none of them twice, where `asked` lists the pages that
  -- were asked for. The requests for release dates, which follow the loop, are not counted.
  pub collect_refs-Bounded :
      (page : Page) (w : W)
      → asked w ≡ []
      → AllDifferent (asked (collect_refs get_page slug page w).1)
        × (length (asked (collect_refs get_page slug page w).1) ≤ 24)
  unfolding collect_refs
  collect_refs-Bounded page w e = walk_from-Bounded page (extract_episode_refs page slug) w e
