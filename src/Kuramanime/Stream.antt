-- ===== src/Kuramanime/Stream.antt =====
-- internal/provider/kuramanime/stream.go: the candidates for a stream. What goquery finds in the
-- player's page, and sort.Slice by a key, are parameters.
use zero_nime.Base.{
  true, none, some, List, [], ◌∷◌, ◌++◌, length, leb, take, ℤ, pos, Result, ok, err, panic, Message,
  M, pure, fail, lift, attempt, ◌>>=◌, if◌then◌else◌,
}
use zero_nime.Catalog.Clean.{digit_runs}
use zero_nime.Domain.{StreamCandidate, parse_qualified_id}
use zero_nime.Text.Decimal.{parse_int}
use zero_nime.Text.{Text, text, ◌==◌, trim_space, to_lower, has_suffix, member}

-- the first run of three digits or more, of which at most four are read
unfoldable pub quality_in : List Text → Text
quality_in [] = []
quality_in (run ∷ runs) =
    let rest = quality_in runs in if leb 3 (length run) then take 4 run else rest

-- qualityFromURL: sourceQualityPattern.FindStringSubmatch, `(\d{3,4})`
unfoldable pub quality_from_url : Text → Text
quality_from_url raw_url = quality_in (digit_runs raw_url)

-- extractQualityNumber
unfoldable pub extract_quality_number : Text → ℤ
extract_quality_number label = elim (parse_int (quality_from_url label)) [
  | none ↦ pos 0
  | some n ↦ n
]

-- qualityLabel; 112 is 'p'
unfoldable pub quality_label : Text → Text
quality_label raw =
    let value = trim_space raw in
    if value == []
    then []
    else if has_suffix (to_lower value) (text "p")
    then value
    else value ++ 112 ∷ []

-- streamPriority
unfoldable pub stream_priority : Text → ℤ
stream_priority quality =
    if quality == text "720p"
    then pos 170
    else if quality == text "480p"
    then pos 160
    else if quality == text "360p"
    then pos 150
    else pos 110

-- the candidate of a source
unfoldable pub source_candidate : Text → Text → StreamCandidate
source_candidate raw_url quality = record {
  url = trim_space raw_url;
  container = text "mp4";
  quality = quality;
  codec = [];
  is_direct = true;
  playable = true;
  estimated_priority = stream_priority quality;
  label = text "kuramadrive";
}

-- the `src` of the players, and the `src` and `size` of their sources
pub record Player : Type 0 where
  pub videos : List Text
  pub sources : List (Text × Text)

unfoldable pub video_candidates : List Text → List StreamCandidate
video_candidates [] = []
video_candidates (raw_url ∷ videos) =
    let rest = video_candidates videos in
    if trim_space raw_url == []
    then rest
    else source_candidate raw_url (quality_label (quality_from_url raw_url)) ∷ rest

abbrev pub quality_or : Text → Text → Text
quality_or size raw_url = if size == [] then quality_from_url raw_url else size

unfoldable pub source_candidates : List (Text × Text) → List StreamCandidate
source_candidates [] = []
source_candidates ((raw_url, size) ∷ sources) =
    let rest = source_candidates sources in
    if trim_space raw_url == []
    then rest
    else source_candidate raw_url (quality_label (quality_or size raw_url)) ∷ rest

-- `key`; 124 is '|'
abbrev pub quality_key : StreamCandidate → Text
quality_key c = to_lower (c.quality ++ 124 ∷ c.url)

-- the loop of dedupeCandidates
unfoldable pub distinct_from : List Text → List StreamCandidate → List StreamCandidate
distinct_from seen [] = []
distinct_from seen (c ∷ cs) =
    let skipped = distinct_from seen cs in
    let taken = distinct_from (quality_key c ∷ seen) cs in
    if member (quality_key c) seen then skipped else c ∷ taken

-- `sort_by_key` is sort.Slice by a descending key.
module _ (sort_by_key : (StreamCandidate → ℤ) → List StreamCandidate → List StreamCandidate) where
  -- dedupeCandidates
  unfoldable pub dedupe_candidates : List StreamCandidate → List StreamCandidate
  dedupe_candidates items =
      sort_by_key (λ c. extract_quality_number c.quality) (distinct_from [] items)

  abbrev pub some_sorted : List StreamCandidate → Result (List StreamCandidate)
  some_sorted [] = err (text "no stream candidates found")
  some_sorted (c ∷ cs) = ok (dedupe_candidates (sort_by_key (λ c. c.estimated_priority) (c ∷ cs)))

  -- ExtractStreamCandidates
  unfoldable pub extract_stream_candidates : Player → Result (List StreamCandidate)
  extract_stream_candidates player =
      some_sorted (video_candidates player.videos ++ source_candidates player.sources)

  -- `get_secret` is fetchSecret, `get_player` getDoc and `render_player` renderPlayerHTML, each with
  -- what is found in the page
  module _ {W : Type 0} (get_secret : Text → M W Text)
      (get_player render_player : Text → M W Player) where
    abbrev pub rendered_or : Message → Result Player → M W (List StreamCandidate)
    rendered_or e (ok player) = lift (extract_stream_candidates player)
    rendered_or e (err _) = fail e
    rendered_or e panic = lift panic

    abbrev pub extracted_or_rendered :
        Text → Result (List StreamCandidate) → M W (List StreamCandidate)
    extracted_or_rendered path (ok cs) = pure cs
    extracted_or_rendered path (err e) = attempt (render_player path) >>= rendered_or e
    extracted_or_rendered path panic = lift panic

    abbrev pub player_path : Text → Text → Text
    player_path slug secret =
        text "/anime/"
        ++ (slug
            ++ (text "?Ub3BzhijicHXZdv=" ++ (secret ++ text "&C2XAPerzX1BM7V9=kuramadrive&page=1")))

    -- StreamCandidates
    unfoldable pub stream_candidates : Text → M W (List StreamCandidate)
    stream_candidates episode_id = lift (parse_qualified_id episode_id) >>= λ r.
        get_secret (text "anime/" ++ r.1) >>= λ secret.
        get_player (player_path r.1 secret) >>= λ player.
        extracted_or_rendered (player_path r.1 secret) (extract_stream_candidates player)
