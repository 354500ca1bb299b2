-- ===== src/Stream/Normalize.antt =====
-- normalizeCandidates of internal/service/stream/service.go: sorted by priority, one candidate for
-- each container and quality, and only the playable direct ones, or of these the mp4 ones, if
-- there are any. sort.SliceStable is an insertion sort here: stability fixes its result.
pub mod Dedupe
pub mod Best
use zero_nime.Base.{Bool, true, false, ◌&&◌, List, [], ◌∷◌, ◌++◌, ltb_ℤ, if◌then◌else◌, keep_if}
use zero_nime.Domain.{StreamCandidate}
use zero_nime.Text.{Text, text, ◌==◌, trim_space, to_lower, equal_fold, member}

-- `candidates[i].EstimatedPriority > candidates[j].EstimatedPriority`
abbrev pub before : StreamCandidate → StreamCandidate → Bool
before a b = ltb_ℤ b.estimated_priority a.estimated_priority

-- into a sorted list, in front of the elements of the same priority
unfoldable pub insert_sorted : StreamCandidate → List StreamCandidate → List StreamCandidate
insert_sorted c [] = c ∷ []
insert_sorted c (d ∷ ds) = if before d c then d ∷ insert_sorted c ds else c ∷ d ∷ ds

unfoldable pub sort_stable : List StreamCandidate → List StreamCandidate
unfolding insert_sorted
sort_stable [] = []
sort_stable (c ∷ cs) = insert_sorted c (sort_stable cs)

-- `key`; 124 is '|'
unfoldable pub candidate_key : StreamCandidate → Text
candidate_key c =
    let key = to_lower (trim_space c.container ++ 124 ∷ trim_space c.quality) in
    if key == 124 ∷ [] then to_lower c.url else key

-- the loop that fills `deduped`; `seen` holds the keys so far
unfoldable pub dedupe_from : List Text → List StreamCandidate → List StreamCandidate
dedupe_from seen [] = []
dedupe_from seen (c ∷ cs) =
    let skipped = dedupe_from seen cs in
    let taken = dedupe_from (candidate_key c ∷ seen) cs in
    if member (candidate_key c) seen then skipped else c ∷ taken

abbrev pub is_playable_direct : StreamCandidate → Bool
is_playable_direct c = c.is_direct && c.playable

unfoldable pub is_mp4 : StreamCandidate → Bool
is_mp4 c = equal_fold c.container (text "mp4")

-- the list that is not empty, or else the other
abbrev pub or_else : List StreamCandidate → List StreamCandidate → List StreamCandidate
or_else [] other = other
or_else (c ∷ cs) other = c ∷ cs

-- from the deduplicated list on
unfoldable pub restrict : List StreamCandidate → List StreamCandidate
restrict deduped =
    let direct = keep_if is_playable_direct deduped in
    or_else (or_else (keep_if is_mp4 direct) direct) deduped

-- normalizeCandidates
unfoldable pub normalize_candidates : List StreamCandidate → List StreamCandidate
normalize_candidates candidates = restrict (dedupe_from [] (sort_stable candidates))
