-- ===== src/Kuramanime/Episodes.antt =====
-- The episodes of internal/provider/kuramanime/episodes.go, with the patterns of client.go and
-- collectEpisodes of catalog.go. What goquery and the raw patterns find in a page is a parameter.
-- A map from slugs to references is the list of its references.
pub mod Order
pub mod Merge
pub mod Pages
use zero_nime.Base.{
  ℕ, zero, suc, Bool, true, false, not, ◌&&◌, ◌||◌, Option, none, some, List, [], ◌∷◌, ◌++◌, map,
  any, keep_if, nat_eq, ltb, leb, ℤ, pos, eq_ℤ, ltb_ℤ, max_int64, Result, ok, err, panic, M, pure,
  fail, lift, attempt, ◌>>=◌, ◌>>◌, sort_by, if◌then◌else◌,
}
use zero_nime.Catalog.Clean.{is_digit, digit_runs}
use zero_nime.Domain.{Episode, new_catalog_id}
use zero_nime.Text.Decimal.{parse_int, format_int}
use zero_nime.Text.{Text, text, ◌==◌, trim_space, has_prefix, trim_prefix, contains, member}

-- episodeRef
pub record EpisodeRef : Type 0 where
  pub slug : Text
  pub path : Text
  pub number : ℤ
  pub display : Text

-- `<` of strings
unfoldable pub text_less : Text → Text → Bool
text_less s [] = false
text_less [] (b ∷ t) = true
text_less (a ∷ s) (b ∷ t) = ltb a b || (nat_eq a b && text_less s t)

-- the order of sortedEpisodeRefs
unfoldable pub ref_less : EpisodeRef → EpisodeRef → Bool
ref_less a b = if eq_ℤ a.number b.number then text_less a.slug b.slug else ltb_ℤ a.number b.number

-- sortedEpisodeRefs, of the references of a map in some order
unfoldable pub sorted_episode_refs : List EpisodeRef → List EpisodeRef
sorted_episode_refs refs = sort_by ref_less refs

abbrev pub has_slug : Text → List EpisodeRef → Bool
has_slug slug seen = any (λ r. r.slug == slug) seen

-- `seen[item.Slug] = item`
unfoldable pub put_ref : EpisodeRef → List EpisodeRef → List EpisodeRef
put_ref item seen = item ∷ keep_if (λ r. not (r.slug == item.slug)) seen

-- `if _, exists := seen[item.Slug]; !exists { seen[item.Slug] = item }`
unfoldable pub add_ref : EpisodeRef → List EpisodeRef → List EpisodeRef
add_ref item seen = if has_slug item.slug seen then seen else item ∷ seen

unfoldable pub put_refs : List EpisodeRef → List EpisodeRef → List EpisodeRef
put_refs [] seen = seen
put_refs (item ∷ items) seen = put_refs items (put_ref item seen)

unfoldable pub add_refs : List EpisodeRef → List EpisodeRef → List EpisodeRef
add_refs [] seen = seen
add_refs (item ∷ items) seen = add_refs items (add_ref item seen)

-- the map of mergeEpisodeRefs
unfoldable pub merged : List EpisodeRef → List EpisodeRef → List EpisodeRef
merged base extra = add_refs extra (put_refs base [])

-- mergeEpisodeRefs
unfoldable pub merge_episode_refs : List EpisodeRef → List EpisodeRef → List EpisodeRef
merge_episode_refs base extra = sorted_episode_refs (merged base extra)

abbrev first_run : List Text → Text
first_run [] = []
first_run (run ∷ runs) = run

-- strconv.Atoi of a run of digits, which gives the largest int where it is out of range
abbrev pub run_number : Text → ℤ
run_number run =
    if run == [] then pos 0 else elim (parse_int run) [ none ↦ pos max_int64 | some n ↦ n ]

-- parseEpisodeNumber: episodeNumPattern.FindString, `(\d+)`
unfoldable pub parse_episode_number : Text → ℤ
parse_episode_number label = run_number (first_run (digit_runs label))

-- `\s` of the patterns
abbrev pub is_blank_char : ℕ → Bool
is_blank_char c = nat_eq c 32 || nat_eq c 9 || nat_eq c 10 || nat_eq c 12 || nat_eq c 13

-- the longest beginning of characters that pass, and the rest
unfoldable pub span : (ℕ → Bool) → Text → Text × Text
span p [] = ([], [])
span p (c ∷ s) = let (a, b) = span p s in if p c then (c ∷ a, b) else ([], c ∷ s)

-- `\d+`, after `-\s*`
abbrev second_bound : Text → Text × Text → Text
second_bound before (blanks, rest) =
    let (digits, _) = span is_digit rest in
    if digits == [] then [] else before ++ 45 ∷ blanks ++ digits

-- `(?:\s*-\s*\d+)?`; 45 is '-'
abbrev range_end : Text × Text → Text
range_end (blanks, []) = []
range_end (blanks, c ∷ rest) =
    if nat_eq c 45 then second_bound blanks (span is_blank_char rest) else []

-- episodeRangePattern.FindString, `\d+(?:\s*-\s*\d+)?`
unfoldable pub episode_range : Text → Text
episode_range [] = []
episode_range (c ∷ s) =
    let later = episode_range s in
    let (digits, rest) = span is_digit (c ∷ s) in
    if is_digit c then digits ++ range_end (span is_blank_char rest) else later

-- the text after the first occurrence of the separator
abbrev pub after_or : Option Text → Text → Text
after_or none value = value
after_or (some rest) value = rest

unfoldable pub after_separator : Text → Text → Option Text
after_separator sep [] = none
after_separator sep (c ∷ s) =
    let later = after_separator sep s in
    if has_prefix (c ∷ s) sep then some (trim_prefix (c ∷ s) sep) else later

-- episodeRangeValue
unfoldable pub episode_range_value : Text → Text
episode_range_value value =
    keep_if (λ c. not (nat_eq c 32))
      (episode_range (after_or (after_separator (text "/episode/") value) value))

-- firstNonEmpty
unfoldable pub first_non_empty : List Text → Text
first_non_empty [] = []
first_non_empty (value ∷ values) =
    let rest = first_non_empty values in
    if not (trim_space value == []) then trim_space value else rest

-- episodeDisplayValue
unfoldable pub episode_display_value : Text → Text → Text
episode_display_value label slug =
    let value =
      trim_space (first_non_empty (episode_range_value label ∷ episode_range_value slug ∷ [])) in
    if value == [] then format_int (parse_episode_number slug) else value

-- a link to an episode: the slug that episodeSlugFromHref reads in it, and its text, of which
-- normalizeSpace made one line
abbrev pub Link : Type 0
Link = Text × Text

abbrev pub ref_of : Link → EpisodeRef
ref_of (slug, label) = record {
  slug = slug;
  path = text "/anime/" ++ slug;
  number = parse_episode_number (episode_display_value label slug);
  display = episode_display_value label slug;
}

-- appendEpisodeRef
unfoldable pub append_episode_ref : Text → List EpisodeRef → Link → List EpisodeRef
append_episode_ref anime_slug seen (slug, label) =
    if slug == [] || not (has_prefix slug (anime_slug ++ text "/episode/"))
    then seen
    else add_ref (ref_of (slug, label)) seen

unfoldable pub append_episode_refs : Text → List EpisodeRef → List Link → List EpisodeRef
append_episode_refs anime_slug seen [] = seen
append_episode_refs anime_slug seen (link ∷ links) =
    append_episode_refs anime_slug (append_episode_ref anime_slug seen link) links

-- What is found in a page: the links to episodes, those of its elements first, and the links to
-- other pages, normalised and sorted.
pub record Page : Type 0 where
  pub links : List Link
  pub pages : List Text

-- extractEpisodeRefsFromHTML
unfoldable pub extract_episode_refs : Page → Text → List EpisodeRef
extract_episode_refs page anime_slug =
    sorted_episode_refs (append_episode_refs anime_slug [] page.links)

-- the loops that queue the pages that were not visited: the pages visited, and the queue
unfoldable pub enqueue : List Text → List Text → List Text → List Text × List Text
enqueue [] visited queue = (visited, queue)
enqueue (page ∷ pages) visited queue =
    let skipped = enqueue pages visited queue in
    let taken = enqueue pages (page ∷ visited) (queue ++ page ∷ []) in
    if member page visited then skipped else taken

-- `get_page` is getDoc with the HTML read; an error leaves the page out.
module _ {W : Type 0} (get_page : Text → M W Page) (slug : Text) where
  abbrev pub Walk : Type 0
  Walk = List EpisodeRef × List Text × List Text

  -- the refs, the pages visited and the pages that are still queued
  abbrev pub visit : Walk → Result Page → M W Walk
  visit (refs, visited, queue) (ok page) =
      let (visited', queue') = enqueue page.pages visited queue in
      pure (merge_episode_refs refs (extract_episode_refs page slug), visited', queue')
  visit walk (err e) = pure walk
  visit walk panic = lift panic

  -- the loop over the queue, which ends after `room` pages
  unfoldable pub visit_pages : ℕ → Walk → M W (List EpisodeRef)
  visit_pages zero (refs, visited, queue) = pure refs
  visit_pages (suc room) (refs, visited, []) = pure refs
  visit_pages (suc room) (refs, visited, page ∷ queue) =
      attempt (get_page page) >>= visit (refs, visited, queue) >>= visit_pages room

  abbrev pub max_episode_pages : ℕ
  max_episode_pages = 24

  -- the first reference's own page is queued last
  abbrev pub seeded : EpisodeRef → List Text × List Text → List Text × List Text
  seeded first (visited, queue) =
      if first.path == [] then (visited, queue) else enqueue (first.path ∷ []) visited queue

  abbrev pub walk_from : Page → List EpisodeRef → M W (List EpisodeRef)
  walk_from page [] = fail (text "episode list content missing")
  walk_from page (first ∷ refs) =
      let (visited, queue) = seeded first (enqueue page.pages [] []) in
      visit_pages max_episode_pages (first ∷ refs, visited, queue)

  -- the references that collectEpisodes makes its episodes of
  unfoldable pub collect_refs : Page → M W (List EpisodeRef)
  collect_refs page = walk_from page (extract_episode_refs page slug)

-- the order of the episodes: by descending numbers
unfoldable pub episode_less : Episode → Episode → Bool
episode_less a b = if eq_ℤ a.number b.number then text_less a.id b.id else ltb_ℤ b.number a.number

abbrev pub episode_of : Text → EpisodeRef → Episode
episode_of catalog_id r =
    let display = if r.display == [] then format_int r.number else r.display in
    record {
      id = new_catalog_id (text "kuramanime") r.slug;
      catalog_id = catalog_id;
      number = r.number;
      title = text "Episode " ++ display;
      label = display;
      released_at = [];
    }

-- collectEpisodes but for the release dates
unfoldable pub collect_episodes :
    {W : Type 0} → (Text → M W Page) → Page → Text → Text → M W (List Episode)
collect_episodes get_page page catalog_id slug = collect_refs get_page slug page >>= λ refs.
    pure (sort_by episode_less (map (episode_of catalog_id) refs))
