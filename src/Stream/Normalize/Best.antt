-- ===== src/Stream/Normalize/Best.antt =====
-- What normalizeCandidates keeps, and what it drops for what.
use zero_nime.Base.{◌≡◌, ◌⊎◌, inl, inr, true, false, List, [], ◌∷◌, In, keep_if, keep_if-In}
use zero_nime.Domain.{StreamCandidate}
use zero_nime.Stream.Normalize.Dedupe.{sort_stable-In, dedupe_from-In}
use zero_nime.Stream.Normalize.{
  sort_stable, dedupe_from, is_playable_direct, is_mp4, or_else, restrict, normalize_candidates,
}

abbrev direct_of : List StreamCandidate → List StreamCandidate
direct_of ds = keep_if is_playable_direct ds

abbrev mp4_of : List StreamCandidate → List StreamCandidate
mp4_of ds = keep_if is_mp4 (direct_of ds)

-- A list in which all are playable and direct, and one that has only mp4 among them.
abbrev pub AllDirect : List StreamCandidate → Type 0
AllDirect rs = (z : StreamCandidate) → In z rs → is_playable_direct z ≡ true

abbrev pub AllMp4 : List StreamCandidate → Type 0
AllMp4 rs = (z : StreamCandidate) → In z rs → (is_playable_direct z ≡ true) × (is_mp4 z ≡ true)

-- The candidate is in the list, or it gives way to the direct ones, or to the mp4 ones.
abbrev pub KeptOrOutranked : StreamCandidate → List StreamCandidate → Type 0
KeptOrOutranked d rs =
    In d rs ⊎ ((is_playable_direct d ≡ false) × AllDirect rs) ⊎ ((is_mp4 d ≡ false) × AllMp4 rs)

or_else-In :
    (z : StreamCandidate) (xs ys : List StreamCandidate) → In z (or_else xs ys) → In z xs ⊎ In z ys
or_else-In z [] ys m = inr m
or_else-In z (x ∷ xs) ys m = inl m

restrict-In : (z : StreamCandidate) (ds : List StreamCandidate) → In z (restrict ds) → In z ds
unfolding restrict
restrict-In z ds m =
    let direct = keep_if is_playable_direct ds in
    elim (or_else-In z (or_else (keep_if is_mp4 direct) direct) ds m) [
      | inl n ↦ elim (or_else-In z (keep_if is_mp4 direct) direct n) [
        | inl o ↦ (keep_if-In is_playable_direct z ds (keep_if-In is_mp4 z direct o).0).0
        | inr o ↦ (keep_if-In is_playable_direct z ds o).0
      ]
      | inr n ↦ n
    ]

-- A candidate that normalizeCandidates returns is one of those it is given.
pub normalize_candidates-In :
    (z : StreamCandidate) (cs : List StreamCandidate) → In z (normalize_candidates cs) → In z cs
unfolding normalize_candidates
normalize_candidates-In z cs m =
    sort_stable-In z cs
      (dedupe_from-In z [] (sort_stable cs) (restrict-In z (dedupe_from [] (sort_stable cs)) m))
