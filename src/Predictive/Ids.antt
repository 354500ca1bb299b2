-- ===== src/Predictive/Ids.antt =====
-- normalizePredictiveEpisodeIDs returns few identifiers, trimmed, all different and none blank.
use zero_nime.Base.{ℕ, zero, suc, ◌≤◌, ◌≡◌, false, List, [], ◌∷◌, length, if_cases, arith, ap, ◌∙◌}
use zero_nime.Text.Laws.{trim_space_idem}
use zero_nime.Predictive.{normalize_ids}
use zero_nime.Text.{Text, ◌==◌, trim_space, member}

-- The identifiers are trimmed and not blank, none was seen before, and none occurs twice.
abbrev pub Fresh : List Text → List Text → Type 0
Fresh seen [] = Unit
Fresh seen (k ∷ ks) =
    ((trim_space k == []) ≡ false)
    × (trim_space k ≡ k)
    × (member k seen ≡ false)
    × Fresh (k ∷ seen) ks

-- normalizePredictiveEpisodeIDs returns at most `limit` identifiers. All are trimmed, none of them
-- is blank and none occurs twice.
pub normalize_ids-Fresh :
    (seen : List Text) (limit : ℕ) (ids : List Text)
    → (length (normalize_ids seen limit ids) ≤ limit) × Fresh seen (normalize_ids seen limit ids)
unfolding normalize_ids
normalize_ids-Fresh seen zero ids = (omega arith, tt)
normalize_ids-Fresh seen (suc limit) [] = (omega arith, tt)
normalize_ids-Fresh seen (suc limit) (id ∷ ids) =
    if_cases (λ ks. (length ks ≤ suc limit) × Fresh seen ks) (trim_space id == []) _ _
      (λ _. normalize_ids-Fresh seen (suc limit) ids)
      (λ f.
        if_cases (λ ks. (length ks ≤ suc limit) × Fresh seen ks) (member (trim_space id) seen) _ _
          (λ _. normalize_ids-Fresh seen (suc limit) ids)
          (λ g.
            let (le, fresh) = normalize_ids-Fresh (trim_space id ∷ seen) limit ids in
            (
              omega (arith, le),
              (ap (λ k. k == []) (trim_space_idem id) ∙ f, trim_space_idem id, g, fresh),
            )))
