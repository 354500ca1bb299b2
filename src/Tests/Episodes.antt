-- ===== src/Tests/Episodes.antt =====
-- The theorems on the providers, applied to small pages.
use mathlib.Core.List.{Permᴰ}
use zero_nime.Base.{
  ◌≤◌, ◌≡◌, refl, inl, inr, true, false, List, [], ◌∷◌, length, ◌<ℤ◌, ok, M, pure, InOrder,
}
use zero_nime.Domain.{StreamCandidate, parse_qualified_id}
use zero_nime.Kuramanime.Episodes.Merge.{merge_episode_refs_unique}
use zero_nime.Kuramanime.Episodes.Pages.{AllDifferent, collect_refs-Bounded}
use zero_nime.Kuramanime.Episodes.{
  EpisodeRef, Page, ref_less, merged, merge_episode_refs, ref_of, collect_refs,
}
use zero_nime.Otakudesu.Priority.{stream_candidates-outranks}
use zero_nime.Otakudesu.{
  Row, candidate_of, candidates_of_rows, candidates_of_links, normalize_download_url,
  stream_candidates,
}
use zero_nime.Text.{
  Text, text, ◌==◌, trim_space, trim_by, drop_while, is_space, to_lower, lower, has_prefix,
  has_suffix, contains, split_2, trim,
}

abbrev first_ref : EpisodeRef
first_ref = ref_of (text "1/one/episode/1", text "Ep 1")

abbrev second_ref : EpisodeRef
second_ref = ref_of (text "1/one/episode/2", text "Ep 2")

merge_episode_refs_unique_example :
    Permᴰ
      (merged (second_ref ∷ []) (first_ref ∷ []))
      (merge_episode_refs (second_ref ∷ []) (first_ref ∷ []))
    × InOrder ref_less (merge_episode_refs (second_ref ∷ []) (first_ref ∷ []))
    × ((arranged : List EpisodeRef)
        → Permᴰ (merged (second_ref ∷ []) (first_ref ∷ [])) arranged
        → InOrder ref_less arranged
        → arranged ≡ merge_episode_refs (second_ref ∷ []) (first_ref ∷ []))
merge_episode_refs_unique_example = merge_episode_refs_unique (second_ref ∷ []) (first_ref ∷ [])

-- a page that links to itself and to another
abbrev looping : Page
looping = record {
  links = (text "1/one/episode/1", text "Ep 1") ∷ [];
  pages = text "/anime/1/one?page=1" ∷ text "/anime/1/one?page=2" ∷ [];
}

abbrev get_looping : Text → M (List Text) Page
get_looping path asked = (ok looping, path ∷ asked)

collect_refs-Bounded_example :
    AllDifferent (collect_refs get_looping (text "1/one") looping []).1
    × (length (collect_refs get_looping (text "1/one") looping []).1 ≤ 24)
collect_refs-Bounded_example =
    collect_refs-Bounded get_looping (text "1/one") (λ asked. asked) (λ p w. refl) looping [] refl

abbrev rows : List Row
rows =
    (
      text "Mp4 720p",
      (text "http://a.net/x", text "A") ∷ (text "http://b.net/y.mp4", text "B") ∷ [],
    )
    ∷ []

abbrev shared_file : StreamCandidate
shared_file = candidate_of (text "Mp4 720p") (text "http://a.net/x") (text "A")

abbrev direct_file : StreamCandidate
direct_file = candidate_of (text "Mp4 720p") (text "http://b.net/y.mp4") (text "B")

rows_found :
    (stream_candidates (λ path. pure {W = Unit {0}} rows) (text "otakudesu:one") tt).0
    ≡ ok (shared_file ∷ direct_file ∷ [])
unfolding stream_candidates candidates_of_rows candidates_of_links parse_qualified_id ◌==◌
    trim_space trim_by drop_while is_space split_2 trim
rows_found = refl

is_direct_file : direct_file.is_direct ≡ true
unfolding candidate_of normalize_download_url contains has_prefix has_suffix to_lower lower
is_direct_file = refl

is_shared_file : shared_file.is_direct ≡ false
unfolding candidate_of normalize_download_url contains has_prefix has_suffix to_lower lower
is_shared_file = refl

stream_candidates-outranks_example :
    shared_file.estimated_priority <ℤ direct_file.estimated_priority
stream_candidates-outranks_example =
    stream_candidates-outranks (λ path. pure {W = Unit {0}} rows) (text "otakudesu:one") tt
      (shared_file ∷ direct_file ∷ []) rows_found direct_file shared_file (inr (inl refl))
      (inl refl) is_direct_file is_shared_file
