-- ===== src/Tests/Windows.antt =====
-- The theorems on the predictive startup cache, at concrete values.
use zero_nime.Base.{◌≤◌, ◌≡◌, true, none, List, [], ◌∷◌, pos, length, In, ap, inl, inr}
use zero_nime.Domain.{StartupMediaCache, StreamCandidate, StreamResult}
use zero_nime.Predictive.Candidate.{Usable, Present, select_predictive_candidate-Usable}
use zero_nime.Predictive.Ids.{Fresh, normalize_ids-Fresh}
use zero_nime.Predictive.Prune.{InWindow, Lacks, Keeps, AddsNone, prune_inactive-Active}
use zero_nime.Predictive.{
  Window, is_usable, prune_inactive, normalize_ids, select_predictive_candidate,
}
use zero_nime.Text.{Text, text, ◌==◌}

abbrev entry_of : Text → StartupMediaCache
entry_of id = record {
  episode_id = id;
  source_url = text "u";
  source_key = text "u";
  container = text "mp4";
  quality = text "720p";
  content_type = text "video/mp4";
  content_length = pos 9;
  head_key = id;
  head_bytes = pos 4;
  tail_key = [];
  tail_bytes = pos 0;
}

abbrev sample_windows : List Window
sample_windows = (4, text "a" ∷ []) ∷ []

abbrev sample_entries : List StartupMediaCache
sample_entries = entry_of (text "a") ∷ entry_of (text "b") ∷ []

-- another goroutine stores an entry for "c"
abbrev prewarmed : List StartupMediaCache → List StartupMediaCache
prewarmed entries = entry_of (text "c") ∷ entries

prewarmed-Keeps : Keeps (text "b") prewarmed × AddsNone (text "b") prewarmed
unfolding ◌==◌
prewarmed-Keeps = (
  (λ es e same m. inr m),
  (λ es h e m. elim m [
    | inl s ↦ ap (λ (x : StartupMediaCache). x.episode_id == text "b") s
    | inr n ↦ h e n
  ]),
)

prune_inactive-Active_example :
    (InWindow (text "b") sample_windows
      → (e : StartupMediaCache) → e.episode_id ≡ text "b"
      → In e sample_entries
      → In e (prune_inactive prewarmed (λ k. prewarmed) sample_windows sample_entries).0)
    × (¬ InWindow (text "b") sample_windows
        → Lacks
            (text "b")
            (prune_inactive prewarmed (λ k. prewarmed) sample_windows sample_entries).0)
prune_inactive-Active_example =
    prune_inactive-Active prewarmed (λ k. prewarmed) sample_windows sample_entries (text "b")
      prewarmed-Keeps.0 (λ k. prewarmed-Keeps)

abbrev only_candidate : StreamCandidate
only_candidate = record {
  url = text "u";
  container = text "mp4";
  quality = text "480p";
  codec = [];
  is_direct = true;
  playable = true;
  estimated_priority = pos 1;
  label = [];
}

abbrev only_result : StreamResult
only_result = record {
  episode_id = text "a";
  preferred_stream = none;
  candidates = only_candidate ∷ [];
  selection_reason = [];
  provider = text "k";
}

select_predictive_candidate-Usable_example :
    Usable (select_predictive_candidate only_result)
    × ((c : StreamCandidate)
        → In c only_result.candidates
        → is_usable c ≡ true
        → Present (select_predictive_candidate only_result))
select_predictive_candidate-Usable_example = select_predictive_candidate-Usable only_result

normalize_ids-Fresh_example :
    (length (normalize_ids [] 2 (text " a" ∷ text "a" ∷ text "b" ∷ [])) ≤ 2)
    × Fresh [] (normalize_ids [] 2 (text " a" ∷ text "a" ∷ text "b" ∷ []))
normalize_ids-Fresh_example = normalize_ids-Fresh [] 2 (text " a" ∷ text "a" ∷ text "b" ∷ [])
