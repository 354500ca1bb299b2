-- ===== src/Otakudesu.antt =====
-- internal/provider/otakudesu/stream.go: the candidates for a stream. What goquery finds in the
-- page of an episode is a parameter: its rows, each with a quality and its links.
pub mod Priority
use zero_nime.Base.{
  ℕ, Bool, true, false, not, ◌||◌, Option, none, some, List, [], ◌∷◌, ◌++◌, map, ℤ, pos, ◌+◌,
  Result, ok, err, panic, M, pure, fail, lift, ◌>>=◌, if◌then◌else◌,
}
use zero_nime.Domain.{StreamCandidate, parse_qualified_id}
use zero_nime.Text.{Text, text, ◌==◌, trim_space, trim_right, to_lower, contains, has_suffix, split}

-- containerFrom; 32 is ' '
unfoldable pub container_from : Text → Text → Text
container_from quality href =
    let source = to_lower (quality ++ 32 ∷ href) in
    if contains source (text "mp4")
    then text "mp4"
    else if contains source (text "mkv")
    then text "mkv"
    else text "unknown"

abbrev last_part : Text → List Text → Text
last_part part [] = part
last_part part (p ∷ ps) = last_part p ps

-- normalizeDownloadURL; 47 is '/'
unfoldable pub normalize_download_url : Text → Bool × Text
normalize_download_url href =
    if contains href (text "pixeldrain.com/u/")
    then (
      true,
      text "https://pixeldrain.com/api/file/"
          ++ (last_part [] (split 47 (trim_right 47 href)) ++ text "?download"),
    )
    else if contains href (text "pixeldrain.com/api/file/")
    then (true, href)
    else if has_suffix (to_lower href) (text ".mp4")
    then (true, href)
    else (false, href)

-- the `switch` on the quality
abbrev pub quality_score : Text → ℕ
quality_score quality =
    let q = to_lower quality in
    if contains q (text "720")
    then 40
    else if contains q (text "480")
    then 35
    else if contains q (text "1080")
    then 30
    else if contains q (text "360")
    then 20
    else 10

-- streamPriority
unfoldable pub stream_priority : Text → Text → Bool → ℤ
stream_priority container quality is_direct = pos (
    (if is_direct then 100 else 0)
    + (if container == text "mp4" then 50 else 0)
    + quality_score quality)

abbrev pub url_or : Text → Text → Text
url_or url href = if url == [] then href else url

-- the candidate of a link
unfoldable pub candidate_of : Text → Text → Text → StreamCandidate
candidate_of quality href label =
    let (is_direct, direct_url) = normalize_download_url href in
    let container = container_from quality href in
    record {
      url = url_or direct_url href;
      container = container;
      quality = quality;
      codec = [];
      is_direct = is_direct;
      playable = is_direct;
      estimated_priority = stream_priority container quality is_direct;
      label = label;
    }

-- the links of a row: their href and their text
abbrev pub Row : Type 0
Row = Text × List (Text × Text)

unfoldable pub candidates_of_links : Text → List (Text × Text) → List StreamCandidate
candidates_of_links quality [] = []
candidates_of_links quality ((href, label) ∷ links) =
    let rest = candidates_of_links quality links in
    if href == [] then rest else candidate_of quality href (trim_space label) ∷ rest

unfoldable pub candidates_of_rows : List Row → List StreamCandidate
candidates_of_rows [] = []
candidates_of_rows ((quality, links) ∷ rows) =
    candidates_of_links (trim_space quality) links ++ candidates_of_rows rows

abbrev pub some_found : {W : Type 0} → List StreamCandidate → M W (List StreamCandidate)
some_found [] = fail (text "no downloadable candidates found")
some_found (c ∷ cs) = pure (c ∷ cs)

-- StreamCandidates; `get_rows` is getDoc with the rows of the page
unfoldable pub stream_candidates :
    {W : Type 0} → (Text → M W (List Row)) → Text → M W (List StreamCandidate)
stream_candidates get_rows episode_id = lift (parse_qualified_id episode_id) >>= λ r.
    get_rows (text "/episode/" ++ (r.1 ++ text "/")) >>= λ rows.
    some_found (candidates_of_rows rows)
