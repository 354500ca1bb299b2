-- ===== src/Catalog/Clean.antt =====
-- The pure functions of internal/service/catalog/service.go: what is cleaned in cards, pages and
-- details. A map of texts is the list of its entries.
pub mod Count
pub mod Metadata
use zero_nime.Base.{
  ℕ, Bool, true, false, not, ◌&&◌, ◌||◌, Option, none, some, List, [], ◌∷◌, ◌++◌, map, any, keep_if,
  length, ℤ, pos, ltb_ℤ, eq_ℤ, leb, nat_eq, if◌then◌else◌,
}
use zero_nime.Domain.{AnimeCard, HomeFeed, ScheduleDay, CollectionPage, Episode, AnimeDetail}
use zero_nime.Text.Decimal.{parse_int, format_int}
use zero_nime.Text.{Text, text, ◌==◌, trim_space, to_lower, contains, split_2}

abbrev pub is_digit : ℕ → Bool
is_digit c = leb 48 c && leb c 57

unfoldable pub all_digits : Text → Bool
all_digits [] = true
all_digits (c ∷ s) = is_digit c && all_digits s

-- `\d+`
abbrev pub some_digits : Text → Bool
some_digits s = not (s == []) && all_digits s

abbrev pub score_parts : Text → Option (Text × Text) → Bool
score_parts s none = some_digits s
score_parts s (some (whole, fraction)) = some_digits whole && some_digits fraction

-- scoreLabelPattern.MatchString, `^\d+(?:\.\d+)?$`; 46 is '.'
unfoldable pub is_score : Text → Bool
is_score s = score_parts s (split_2 46 s)

-- one turn of the loop of normalizeAnimeCards
unfoldable pub clean_card : AnimeCard → AnimeCard
clean_card item =
    if is_score (trim_space item.episode_label) then record item { episode_label = [] } else item

unfoldable pub normalize_anime_cards : List AnimeCard → List AnimeCard
normalize_anime_cards items = map clean_card items

unfoldable pub normalize_home : HomeFeed → HomeFeed
normalize_home feed = record {
  featured = normalize_anime_cards feed.featured;
  ongoing = normalize_anime_cards feed.ongoing;
  recent = normalize_anime_cards feed.recent;
}

unfoldable pub normalize_schedule : List ScheduleDay → List ScheduleDay
normalize_schedule items =
    map (λ (day : ScheduleDay). record day { items = normalize_anime_cards day.items }) items

unfoldable pub normalize_collection_page : CollectionPage → CollectionPage
normalize_collection_page page = record page { items = normalize_anime_cards page.items }

-- a digit in front of the runs of the rest, which begins with a run if `joined`
abbrev pub push_digit : ℕ → Bool → List Text → List Text
push_digit c true (run ∷ runs) = (c ∷ run) ∷ runs
push_digit c true [] = (c ∷ []) ∷ []
push_digit c false runs = (c ∷ []) ∷ runs

abbrev pub starts_with_digit : Text → Bool
starts_with_digit [] = false
starts_with_digit (c ∷ s) = is_digit c

-- episodeNumberPattern.FindAllString(s, -1), `\d+`
unfoldable pub digit_runs : Text → List Text
digit_runs [] = []
digit_runs (c ∷ s) =
    let rest = digit_runs s in if is_digit c then push_digit c (starts_with_digit s) rest else rest

-- Sscanf of a run with "%d", which leaves 0 where the value does not fit an int
abbrev pub run_value : Text → ℤ
run_value run = elim (parse_int run) [ none ↦ pos 0 | some n ↦ n ]

-- `if value > maxNumber { maxNumber = value }`
abbrev pub larger : ℤ → ℤ → ℤ
larger greatest n = if ltb_ℤ greatest n then n else greatest

unfoldable pub largest : ℤ → List ℤ → ℤ
largest greatest [] = greatest
largest greatest (n ∷ ns) = largest (larger greatest n) ns

-- the numbers of an episode: its own, those in its label and those in its title
unfoldable pub numbers_of : Episode → List ℤ
numbers_of item =
    item.number ∷ map run_value (digit_runs item.label) ++ map run_value (digit_runs item.title)

unfoldable pub largest_number : ℤ → List Episode → ℤ
largest_number greatest [] = greatest
largest_number greatest (item ∷ items) = largest_number (largest greatest (numbers_of item)) items

-- inferredEpisodeCount
unfoldable pub inferred_episode_count : List Episode → ℤ
inferred_episode_count items =
    let greatest = largest_number (pos 0) items in
    if eq_ℤ greatest (pos 0) then pos (length items) else greatest

abbrev pub Entries : Type 0
Entries = List (Text × Text)

-- `metadata[key]`, which is empty for a missing key
unfoldable pub entry_at : Text → Entries → Text
entry_at key [] = []
entry_at key ((k, v) ∷ entries) = if k == key then v else entry_at key entries

-- `delete(metadata, key)`
unfoldable pub without_key : Text → Entries → Entries
without_key key entries = keep_if (λ entry. not (entry.0 == key)) entries

-- `metadata[key] = value`
unfoldable pub with_entry : Text → Text → Entries → Entries
with_entry key value entries = (key, value) ∷ without_key key entries

-- the entry "episode", where it is missing or unknown
unfoldable pub with_count : List Episode → Entries → Entries
with_count [] entries = entries
with_count (item ∷ items) entries =
    let value = trim_space (entry_at (text "episode") entries) in
    if value == [] || value == text "?"
    then with_entry (text "episode") (format_int (inferred_episode_count (item ∷ items))) entries
    else entries

unfoldable pub clean_metadata : List Episode → Option Entries → Option Entries
clean_metadata episodes none = none
clean_metadata episodes (some entries) =
    some (with_count episodes (without_key (text "tema") (without_key (text "eksplisit") entries)))

-- normalizeDetail
unfoldable pub normalize_detail : AnimeDetail → AnimeDetail
normalize_detail detail = record detail {
  metadata = clean_metadata detail.episodes detail.metadata;
}

unfoldable pub is_my_anime_list_cover : Text → Bool
is_my_anime_list_cover value = contains (to_lower (trim_space value)) (text "cdn.myanimelist.net/")

-- strings.ReplaceAll of one character by another
unfoldable pub replace_char : ℕ → ℕ → Text → Text
replace_char from to s = map (λ c. if nat_eq c from then to else c) s

-- normalizeComparisonTitle; 8217 is '’', 96 is '`' and 39 is '\''
unfoldable pub normalize_comparison_title : Text → Text
normalize_comparison_title value =
    replace_char 96 39 (replace_char 8217 39 (to_lower (trim_space value)))

abbrev pub has_date : Episode → Bool
has_date item = not (trim_space item.released_at == [])

unfoldable pub needs_episode_release_refresh : List Episode → Bool
needs_episode_release_refresh items = any (λ item. not (has_date item)) items

unfoldable pub has_episode_release_dates : List Episode → Bool
has_episode_release_dates items = any has_date items
