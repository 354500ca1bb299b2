-- ===== src/Stream/Select.antt =====
-- The choice of the preferred stream, in `resolve` and pickPreferredStream of
-- internal/service/stream/service.go.
pub mod Preferred
use zero_nime.Base.{Bool, ◌&&◌, Option, none, some, List, [], ◌∷◌, find_first}
use zero_nime.Domain.{StreamCandidate, StreamResult}
use zero_nime.Stream.Normalize.{is_playable_direct, is_mp4}
use zero_nime.Text.{Text, text, equal_fold}

unfoldable pub is_720p : StreamCandidate → Bool
is_720p c = equal_fold c.quality (text "720p")

abbrev pub is_playable_mp4 : StreamCandidate → Bool
is_playable_mp4 c = is_playable_direct c && is_mp4 c

abbrev pub is_playable_720p : StreamCandidate → Bool
is_playable_720p c = is_playable_mp4 c && is_720p c

-- the second loop of pickPreferredStream
abbrev pub pick_mp4 : Option StreamCandidate → Option (StreamCandidate × Text)
pick_mp4 none = none
pick_mp4 (some c) = some (c, text "preferred_direct_mp4")

abbrev pub pick_first :
    Option StreamCandidate → Option (StreamCandidate × Text) → Option (StreamCandidate × Text)
pick_first none other = other
pick_first (some c) other = some (c, text "preferred_720p_direct_mp4")

-- pickPreferredStream
unfoldable pub pick_preferred_stream : List StreamCandidate → Option (StreamCandidate × Text)
pick_preferred_stream cs =
    pick_first (find_first is_playable_720p cs) (pick_mp4 (find_first is_playable_mp4 cs))

-- the first candidate of all
abbrev pub pick_any : List StreamCandidate → Option StreamCandidate × Text
pick_any [] = (none, text "preferred_direct_mp4")
pick_any (c ∷ cs) = (some c, text "highest_ranked_candidate")

-- the loop over the direct candidates
abbrev pub pick_direct :
    Option StreamCandidate → List StreamCandidate → Option StreamCandidate × Text
pick_direct none cs = pick_any cs
pick_direct (some c) cs = (some c, text "preferred_direct_fallback")

abbrev pub pick_fallback :
    Option (StreamCandidate × Text) → List StreamCandidate → Option StreamCandidate × Text
pick_fallback none cs = pick_direct (find_first (λ c. c.is_direct) cs) cs
pick_fallback (some (c, reason)) cs = (some c, reason)

-- the preferred stream and the reason for it
unfoldable pub choose : List StreamCandidate → Option StreamCandidate × Text
choose cs = pick_fallback (pick_preferred_stream cs) cs

-- the result that `resolve` makes of the ordered candidates
unfoldable pub select_stream : Text → Text → List StreamCandidate → StreamResult
select_stream episode_id provider cs =
    let (preferred, reason) = choose cs in
    record {
      episode_id = episode_id;
      preferred_stream = preferred;
      candidates = cs;
      selection_reason = reason;
      provider = provider;
    }
