-- ===== src/Otakudesu/Priority.antt =====
-- The priorities of the candidates of internal/provider/otakudesu/stream.go.
use zero_nime.Base.{
  ◌+◌, ◌≤◌, ◌≡◌, refl, sym, subst, ◌⊎◌, inl, inr, Bool, true, false, Bool-cases, List, [], ◌∷◌,
  ◌++◌, In, arith, pos, ◌<ℤ◌, if_cases, if◌then◌else◌, ok, M, lift, ◌>>=◌, bind-inv,
}
use zero_nime.Domain.{StreamCandidate, parse_qualified_id}
use zero_nime.Otakudesu.{
  stream_priority, quality_score, candidate_of, candidates_of_links, candidates_of_rows,
  container_from, normalize_download_url, Row, some_found, stream_candidates,
}
use zero_nime.Text.{Text, text, ◌==◌, to_lower, contains, trim_space}

quality_score-bounds :
    (quality : Text) → (10 ≤ quality_score quality) × (quality_score quality ≤ 40)
quality_score-bounds quality =
    score (contains (to_lower quality) (text "720")) (contains (to_lower quality) (text "480"))
      (contains (to_lower quality) (text "1080")) (contains (to_lower quality) (text "360"))
  where
    score :
        (a b c d : Bool)
        → (10 ≤ (if a then 40 else if b then 35 else if c then 30 else if d then 20 else 10))
          × ((if a then 40 else if b then 35 else if c then 30 else if d then 20 else 10) ≤ 40)
    score a b c d = (ground arith, ground arith)

-- The priority tells direct candidates from others.
abbrev Ranked : StreamCandidate → Type 0
Ranked c =
    ((c.is_direct ≡ true) × (pos 109 <ℤ c.estimated_priority))
    ⊎ ((c.is_direct ≡ false) × (c.estimated_priority <ℤ pos 91))

stream_priority-Ranked :
    (container quality : Text) (direct : Bool)
    → ((direct ≡ true) × (pos 109 <ℤ stream_priority container quality direct))
      ⊎ ((direct ≡ false) × (stream_priority container quality direct <ℤ pos 91))
unfolding stream_priority
stream_priority-Ranked container quality true =
    let (low, high) = quality_score-bounds quality in
    inl (
      refl,
      if_cases (λ n. pos 109 <ℤ pos (100 + n + quality_score quality)) (container == text "mp4") 50
          0 (λ _. omega arith) (λ _. omega arith),
    )
stream_priority-Ranked container quality false =
    let (low, high) = quality_score-bounds quality in
    inr (
      refl,
      if_cases (λ n. pos (0 + n + quality_score quality) <ℤ pos 91) (container == text "mp4") 50 0
          (λ _. omega arith) (λ _. omega arith),
    )

candidate_of-Ranked : (quality href label : Text) → Ranked (candidate_of quality href label)
unfolding candidate_of
candidate_of-Ranked quality href label =
    stream_priority-Ranked (container_from quality href) quality (normalize_download_url href).0

links-Ranked :
    (quality : Text) (links : List (Text × Text)) (c : StreamCandidate)
    → In c (candidates_of_links quality links)
    → Ranked c
unfolding candidates_of_links
links-Ranked quality [] c m = elim m [ ]
links-Ranked quality ((href, label) ∷ links) c m = elim (Bool-cases (href == [])) [
  | inl e ↦ links-Ranked quality links c (rw e at m)
  | inr n ↦ first (links-Ranked quality links c) (rw n at m)
]
  where
    first :
        (In c (candidates_of_links quality links) → Ranked c)
        → (c ≡ candidate_of quality href (trim_space label))
          ⊎ In c (candidates_of_links quality links)
        → Ranked c
    first rest (inl e) = subst Ranked (sym e) (candidate_of-Ranked quality href (trim_space label))
    first rest (inr m) = rest m

In-append :
    (c : StreamCandidate) (xs ys : List StreamCandidate) → In c (xs ++ ys) → In c xs ⊎ In c ys
In-append c [] ys m = inr m
In-append c (x ∷ xs) ys (inl e) = inl (inl e)
In-append c (x ∷ xs) ys (inr m) = elim (In-append c xs ys m) [ inl k ↦ inl (inr k) | inr k ↦ inr k ]

rows-Ranked : (rows : List Row) (c : StreamCandidate) → In c (candidates_of_rows rows) → Ranked c
unfolding candidates_of_rows
rows-Ranked [] c m = elim m [ ]
rows-Ranked ((quality, links) ∷ rows) c m =
    elim (In-append c (candidates_of_links (trim_space quality) links) (candidates_of_rows rows)
      m) [ inl k ↦ links-Ranked (trim_space quality) links c k | inr k ↦ rows-Ranked rows c k ]

outranks :
    (c d : StreamCandidate)
    → Ranked c
    → Ranked d
    → c.is_direct ≡ true
    → d.is_direct ≡ false
    → d.estimated_priority <ℤ c.estimated_priority
outranks c d (inl (_, h)) (inr (_, k)) e f = omega arith
outranks c d (inr (n, _)) _ e f = cc
outranks c d (inl _) (inl (n, _)) e f = cc

some_found-same :
    {W : Type 0} (found : List StreamCandidate) (w : W) (cs : List StreamCandidate)
    → (some_found found w).0 ≡ ok cs
    → found ≡ cs
some_found-same [] w cs e = cc
some_found-same (c ∷ found) w cs e = cc

-- Each direct candidate that StreamCandidates of Otakudesu returns has a higher priority than each
-- one that is not direct, whatever their qualities and containers.
pub stream_candidates-outranks :
    {W : Type 0} (get_rows : Text → M W (List Row)) (id : Text) (w : W) (cs : List StreamCandidate)
    → (stream_candidates get_rows id w).0 ≡ ok cs
    → (c d : StreamCandidate) → In c cs
    → In d cs
    → c.is_direct ≡ true
    → d.is_direct ≡ false
    → d.estimated_priority <ℤ c.estimated_priority
unfolding stream_candidates
stream_candidates-outranks {W} get_rows id w cs e c d m n direct other =
    let (r, _, e') = bind-inv (lift {W = W} (parse_qualified_id id)) (asked get_rows) w cs e in
    let (rows, _, e'') =
      bind-inv (get_rows (text "/episode/" ++ (r.1 ++ text "/")))
        (λ rows. some_found (candidates_of_rows rows)) _ cs e' in
    let same = some_found-same (candidates_of_rows rows) _ cs e'' in
    outranks c d (rows-Ranked rows c (subst (In c) (sym same) m))
      (rows-Ranked rows d (subst (In d) (sym same) n)) direct other
  where
    asked : (Text → M W (List Row)) → Text × Text → M W (List StreamCandidate)
    asked get_rows r = get_rows (text "/episode/" ++ (r.1 ++ text "/")) >>= λ rows.
        some_found (candidates_of_rows rows)
