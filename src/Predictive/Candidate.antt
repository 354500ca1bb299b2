-- ===== src/Predictive/Candidate.antt =====
-- selectPredictiveCandidate finds a stream to prewarm whenever there is one.
use zero_nime.Base.{
  ◌≡◌, sym, ap, ◌∙◌, true, not, Option, none, some, List, [], ◌∷◌, arith, In, if_cases, inl, inr,
}
use zero_nime.Domain.{StreamCandidate, StreamResult}
use zero_nime.Predictive.{
  is_usable, some_or, scan_candidates, usable_or, select_predictive_candidate,
}
use zero_nime.Text.{text, contains, to_lower}

-- a usable one, or none
abbrev pub Usable : Option StreamCandidate → Type 0
Usable none = Unit
Usable (some c) = is_usable c ≡ true

scan_candidates-Usable :
    (fallback : Option StreamCandidate) (cs : List StreamCandidate)
    → Usable fallback
    → Usable (scan_candidates fallback cs)
unfolding scan_candidates
scan_candidates-Usable fallback [] h = h
scan_candidates-Usable fallback (c ∷ cs) h =
    if_cases Usable (not (is_usable c)) _ _ (λ _. scan_candidates-Usable fallback cs h)
      (λ t.
        if_cases Usable (contains (to_lower c.quality) (text "720")) _ _ (λ _. ground arith)
          (λ _.
            scan_candidates-Usable (some_or fallback (some c)) cs
              (noted fallback h (ground arith))))
  where
    noted :
        (o : Option StreamCandidate) → Usable o → is_usable c ≡ true → Usable (some_or o (some c))
    noted none h t = t
    noted (some d) h t = h

-- there is one
abbrev pub Present : Option StreamCandidate → Type 0
Present none = ⊥
Present (some c) = Unit

scan_candidates-noted :
    (d : StreamCandidate) (cs : List StreamCandidate) → Present (scan_candidates (some d) cs)
unfolding scan_candidates
scan_candidates-noted d [] = tt
scan_candidates-noted d (c ∷ cs) =
    if_cases Present (not (is_usable c)) _ _ (λ _. scan_candidates-noted d cs)
      (λ _.
        if_cases Present (contains (to_lower c.quality) (text "720")) _ _ (λ _. tt)
          (λ _. scan_candidates-noted d cs))

scan_candidates-Present :
    (c : StreamCandidate) (cs : List StreamCandidate)
    → In c cs
    → is_usable c ≡ true
    → Present (scan_candidates none cs)
unfolding scan_candidates
scan_candidates-Present c [] m h = elim m [ ]
scan_candidates-Present c (d ∷ cs) (inl e) h =
    let h' : is_usable d ≡ true = ap is_usable (sym e) ∙ h in
    if_cases Present (not (is_usable d)) _ _ (λ t. cc)
      (λ _.
        if_cases Present (contains (to_lower d.quality) (text "720")) _ _ (λ _. tt)
          (λ _. scan_candidates-noted d cs))
scan_candidates-Present c (d ∷ cs) (inr m) h =
    if_cases Present (not (is_usable d)) _ _ (λ _. scan_candidates-Present c cs m h)
      (λ _.
        if_cases Present (contains (to_lower d.quality) (text "720")) _ _ (λ _. tt)
          (λ _. scan_candidates-noted d cs))

usable_or-Usable : (o other : Option StreamCandidate) → Usable other → Usable (usable_or o other)
usable_or-Usable none other h = h
usable_or-Usable (some c) other h = if_cases Usable (is_usable c) _ _ (λ t. t) (λ _. h)

usable_or-Present : (o other : Option StreamCandidate) → Present other → Present (usable_or o other)
usable_or-Present none other h = h
usable_or-Present (some c) other h = if_cases Present (is_usable c) _ _ (λ t. tt) (λ _. h)

-- The candidate that is chosen for prewarming is direct and playable, and one is chosen whenever
-- the candidates of the result have a direct playable one.
pub select_predictive_candidate-Usable :
    (r : StreamResult)
    → Usable (select_predictive_candidate r)
      × ((c : StreamCandidate)
          → In c r.candidates
          → is_usable c ≡ true
          → Present (select_predictive_candidate r))
unfolding select_predictive_candidate
select_predictive_candidate-Usable r = (
  usable_or-Usable r.preferred_stream _ (scan_candidates-Usable none r.candidates tt),
  λ c m h. usable_or-Present r.preferred_stream _ (scan_candidates-Present c r.candidates m h),
)
