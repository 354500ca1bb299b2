-- ===== src/Predictive.antt =====
-- The predictive startup cache of internal/httpserver: predictive_handlers.go and
-- predictive_startup_cache.go. The entries are a map from episodes, and the windows one from
-- clients to sets of episodes. The calls of blobs.Delete, whose errors are dropped, are the list
-- of their keys. Of the prewarming goroutines only the entries that they store are seen here.
pub mod Prune
pub mod Ids
pub mod Candidate
use zero_nime.Base.{
  ℕ, zero, suc, Bool, true, false, not, ◌&&◌, ◌||◌, Option, none, some, List, [], ◌∷◌, ◌++◌, map,
  keep_if, find_first, nat_eq, if◌then◌else◌, M, pure, ◌>>=◌, ◌>>◌, ℤ,
}
use zero_nime.Domain.{StartupMediaCache, StreamCandidate, StreamResult}
use zero_nime.Text.{Text, text, ◌==◌, trim_space, to_lower, contains, member, join}
use zero_nime.Text.Decimal.{format_nat}
use zero_nime.Memory.{Cache, flag, cache_get, cache_set}

-- predictiveMetadataStore: GetStartupMediaCache, UpsertStartupMediaCache, DeleteStartupMediaCache
unfoldable pub find_entry : Text → List StartupMediaCache → Option StartupMediaCache
find_entry k entries = find_first (λ e. e.episode_id == k) entries

unfoldable pub delete_entry : Text → List StartupMediaCache → List StartupMediaCache
delete_entry k entries = keep_if (λ e. not (e.episode_id == k)) entries

unfoldable pub upsert_entry : StartupMediaCache → List StartupMediaCache → List StartupMediaCache
upsert_entry entry entries = entry ∷ delete_entry entry.episode_id entries

-- the body of the loop of pruneInactive, from the deletion on: the entries, and the blobs deleted
abbrev pub drop_found :
    Text → Option StartupMediaCache → List StartupMediaCache → List StartupMediaCache × List Text
drop_found k none entries = (entries, [])
drop_found k (some e) entries = (delete_entry k entries, e.head_key ∷ e.tail_key ∷ [])

-- what other goroutines do to the entries while no lock is held
abbrev pub Meanwhile : Type 0
Meanwhile = List StartupMediaCache → List StartupMediaCache

-- the loop of pruneInactive, where other goroutines may run before each deletion
unfoldable pub prune_each :
    (Text → Meanwhile)
    → List Text
    → List Text
    → List StartupMediaCache
    → List StartupMediaCache × List Text
prune_each meanwhile active [] entries = (entries, [])
prune_each meanwhile active (k ∷ ks) entries =
    let kept = prune_each meanwhile active ks entries in
    let found = meanwhile k entries in
    let (rest, deleted) = drop_found k (find_entry k found) found in
    let dropped = prune_each meanwhile active ks rest in
    if member k active then kept else (dropped.0, deleted ++ dropped.1)

abbrev pub ids_of : List StartupMediaCache → List Text
ids_of entries = map (λ (e : StartupMediaCache). e.episode_id) entries

-- a client and the episodes of its window
abbrev pub Window : Type 0
Window = ℕ × List Text

unfoldable pub active_episodes : List Window → List Text
active_episodes [] = []
active_episodes ((client, episodes) ∷ windows) = episodes ++ active_episodes windows

-- pruneInactive: `windows` as they are while c.mu is held; other goroutines may run after that,
-- before the snapshot, and before each deletion
unfoldable pub prune_inactive :
    Meanwhile
    → (Text → Meanwhile)
    → List Window
    → List StartupMediaCache
    → List StartupMediaCache × List Text
prune_inactive before_snapshot meanwhile windows entries =
    let snapshot = before_snapshot entries in
    prune_each meanwhile (active_episodes windows) (ids_of snapshot) snapshot

-- predictiveEpisode
abbrev pub PredictiveEpisode : Type 0
PredictiveEpisode = Text × StreamCandidate

-- the loop of UpdateWindow that fills `normalized`; `seen` is activeSet so far
unfoldable pub normalize_episodes : List Text → List PredictiveEpisode → List PredictiveEpisode
normalize_episodes seen [] = []
normalize_episodes seen ((id, candidate) ∷ episodes) =
    let skipped = normalize_episodes seen episodes in
    let taken = normalize_episodes (trim_space id ∷ seen) episodes in
    if trim_space id == [] || trim_space candidate.url == []
    then skipped
    else if member (trim_space id) seen
    then skipped
    else (trim_space id, candidate) ∷ taken

-- `delete(c.windows, clientID)` or `c.windows[clientID] = activeSet`
unfoldable pub set_window : ℕ → List Text → List Window → List Window
set_window client [] windows = keep_if (λ w. not (nat_eq w.0 client)) windows
set_window client (id ∷ ids) windows =
    (client, id ∷ ids) ∷ keep_if (λ w. not (nat_eq w.0 client)) windows

-- normalizePredictiveEpisodeIDs, with room for `room` more
unfoldable pub normalize_ids : List Text → ℕ → List Text → List Text
normalize_ids seen zero ids = []
normalize_ids seen (suc room) [] = []
normalize_ids seen (suc room) (id ∷ ids) =
    let skipped = normalize_ids seen (suc room) ids in
    let taken = normalize_ids (trim_space id ∷ seen) room ids in
    if trim_space id == []
    then skipped
    else if member (trim_space id) seen
    then skipped
    else trim_space id ∷ taken

abbrev pub is_usable : StreamCandidate → Bool
is_usable c = c.is_direct && c.playable

abbrev pub is_usable_720 : StreamCandidate → Bool
is_usable_720 c = is_usable c && contains (to_lower c.quality) (text "720")

abbrev pub some_or : Option StreamCandidate → Option StreamCandidate → Option StreamCandidate
some_or none other = other
some_or (some c) other = some c

-- the loop of selectPredictiveCandidate, with its fallback
unfoldable pub scan_candidates :
    Option StreamCandidate → List StreamCandidate → Option StreamCandidate
scan_candidates fallback [] = fallback
scan_candidates fallback (c ∷ cs) =
    let skipped = scan_candidates fallback cs in
    let noted = scan_candidates (some_or fallback (some c)) cs in
    if not (is_usable c)
    then skipped
    else if contains (to_lower c.quality) (text "720")
    then some c
    else noted

abbrev pub usable_or : Option StreamCandidate → Option StreamCandidate → Option StreamCandidate
usable_or none other = other
usable_or (some c) other = if is_usable c then some c else other

-- selectPredictiveCandidate
unfoldable pub select_predictive_candidate : StreamResult → Option StreamCandidate
select_predictive_candidate r = usable_or r.preferred_stream (scan_candidates none r.candidates)

-- shouldQueuePredictiveWindow
unfoldable pub should_queue : {W : Type 0} → Option (Cache W) → ℕ → List Text → ℤ → M W Bool
should_queue none client ids ttl = pure false
should_queue (some cache) client [] ttl = pure false
should_queue (some cache) client (id ∷ ids) ttl =
    cache_get cache
      (text "predictive-window:" ++ (format_nat client ++ 58 ∷ join (id ∷ ids) (text ",")))
    >>= λ found. elim found [
      | some _ ↦ pure false
      | none ↦
          cache_set cache
            (text "predictive-window:" ++ (format_nat client ++ 58 ∷ join (id ∷ ids) (text ",")))
            flag ttl
          >> pure true
    ]
