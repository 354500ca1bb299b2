-- ===== src/Library.antt =====
-- internal/service/library/service.go: a client's watchlist and history, and the list of what it
-- goes on watching. A map from identifiers is the function that looks a key up in it.
pub mod Watching
pub mod Complete
use zero_nime.Base.{
  ℕ, Bool, true, false, not, ◌&&◌, Option, none, some, List, [], ◌∷◌, map, ℤ, Result, ok, err,
  panic, M, pure, lift, attempt, ◌>>=◌, if◌then◌else◌,
}
use zero_nime.Domain.{AnimeDetail, WatchlistItem, HistoryItem, ContinueWatchingItem}
use zero_nime.Store.Clients.{
  Watchlist, WatchHistory, ClientTables, upsert_watchlist, delete_watchlist_row, upsert_history,
  delete_history_row,
}
use zero_nime.Text.{Text, ◌==◌, trim_space, member}

-- `lookup[item.CatalogID] = item` for each item: the last item of a catalog identifier stays
unfoldable pub lookup : List Watchlist → Text → Option Watchlist
lookup [] k = none
lookup (item ∷ items) k = elim (lookup items k) [
  | some later ↦ some later
  | none ↦ if item.catalog_id == k then some item else none
]

abbrev pub has_meta : Text → Text → Bool
has_meta title cover_image = not (trim_space title == []) && not (trim_space cover_image == [])

abbrev pub listed_meta : Option Watchlist → Bool
listed_meta none = false
listed_meta (some meta) = has_meta meta.title meta.cover_image

-- collectMissingContinueWatchingMeta, from the identifiers that were seen
unfoldable pub missing_from : (Text → Option Watchlist) → List Text → List WatchHistory → List Text
missing_from listed seen [] = []
missing_from listed seen (row ∷ rows) =
    let skipped = missing_from listed seen rows in
    let rest = missing_from listed (row.catalog_id ∷ seen) rows in
    if member row.catalog_id seen
    then skipped
    else if has_meta row.title row.cover_image
    then rest
    else if listed_meta (listed row.catalog_id)
    then rest
    else row.catalog_id ∷ rest

unfoldable pub collect_missing : List WatchHistory → List Watchlist → List Text
collect_missing history watchlist = missing_from (lookup watchlist) [] history

-- `if title == "" { title = strings.TrimSpace(other) }`
abbrev pub or_trimmed : Text → Text → Text
or_trimmed found other = if found == [] then trim_space other else found

abbrev pub listed_title : Option Watchlist → Text
listed_title none = []
listed_title (some meta) = meta.title

abbrev pub listed_cover : Option Watchlist → Text
listed_cover none = []
listed_cover (some meta) = meta.cover_image

abbrev pub title_of : Text → Option AnimeDetail → Text
title_of found none = found
title_of found (some detail) = or_trimmed found detail.title

abbrev pub cover_of : Text → Option AnimeDetail → Text
cover_of found none = found
cover_of found (some detail) = or_trimmed found detail.cover_image

-- one turn of the loop of buildContinueWatchingItems
unfoldable pub watching_item :
    (Text → Option Watchlist) → (Text → Option AnimeDetail) → WatchHistory → ContinueWatchingItem
watching_item listed fallback row = record {
  catalog_id = row.catalog_id;
  episode_id = row.episode_id;
  title =
      title_of (or_trimmed (trim_space row.title) (listed_title (listed row.catalog_id)))
        (fallback row.catalog_id);
  cover_image =
      cover_of (or_trimmed (trim_space row.cover_image) (listed_cover (listed row.catalog_id)))
        (fallback row.catalog_id);
  position_seconds = row.position_seconds;
  updated_at = row.updated_at;
}

-- buildContinueWatchingItems
unfoldable pub build_items :
    List WatchHistory → List Watchlist → (Text → Option AnimeDetail) → List ContinueWatchingItem
build_items history watchlist fallback = map (watching_item (lookup watchlist) fallback) history

abbrev pub watchlist_item : Watchlist → WatchlistItem
watchlist_item row = record {
  catalog_id = row.catalog_id;
  title = row.title;
  cover_image = row.cover_image;
  provider = row.provider;
  updated_at = row.updated_at;
}

abbrev pub history_item : WatchHistory → HistoryItem
history_item row = record {
  catalog_id = row.catalog_id;
  episode_id = row.episode_id;
  position_seconds = row.position_seconds;
  updated_at = row.updated_at;
}

-- `catalog` is the provider's Catalog.
module _ {W : Type 0} (t : ClientTables W) (catalog : Text → M W AnimeDetail) where
  -- ListWatchlist
  unfoldable pub list_watchlist : ℕ → M W (List WatchlistItem)
  list_watchlist client_id = t.watchlist_of client_id >>= λ rows. pure (map watchlist_item rows)

  -- SaveWatchlist
  unfoldable pub save_watchlist : ℕ → Text → M W (Unit {0})
  save_watchlist client_id catalog_id = catalog catalog_id >>= λ detail.
      upsert_watchlist t client_id catalog_id detail.title detail.cover_image detail.provider

  -- DeleteWatchlist
  abbrev pub delete_watchlist : ℕ → Text → M W (Unit {0})
  delete_watchlist client_id catalog_id = delete_watchlist_row t client_id catalog_id

  -- ListHistory
  unfoldable pub list_history : ℕ → M W (List HistoryItem)
  list_history client_id = t.history_of client_id >>= λ rows. pure (map history_item rows)

  -- SaveHistory
  abbrev pub save_history : ℕ → Text → Text → ℤ → Text → Text → Text → M W (Unit {0})
  save_history client_id catalog_id episode_id position_seconds title cover_image provider =
      upsert_history t client_id catalog_id episode_id position_seconds title cover_image provider

  -- DeleteHistory
  abbrev pub delete_history : ℕ → Text → M W (Unit {0})
  delete_history client_id catalog_id = delete_history_row t client_id catalog_id

  -- `fallbackMeta[catalogID] = detail`
  abbrev pub with_detail :
      Text → AnimeDetail → (Text → Option AnimeDetail) → Text → Option AnimeDetail
  with_detail id detail fallback k = if id == k then some detail else fallback k

  abbrev pub add_detail :
      Text → (Text → Option AnimeDetail) → Result AnimeDetail → M W (Text → Option AnimeDetail)
  add_detail id fallback (ok detail) = pure (with_detail id detail fallback)
  add_detail id fallback (err e) = pure fallback
  add_detail id fallback panic = lift panic

  -- the loop that asks the provider; an error leaves the identifier out
  unfoldable pub fetch_details :
      (Text → Option AnimeDetail) → List Text → M W (Text → Option AnimeDetail)
  fetch_details fallback [] = pure fallback
  fetch_details fallback (id ∷ ids) =
      attempt (catalog id) >>= λ r. add_detail id fallback r >>= λ more. fetch_details more ids

  -- ContinueWatching
  unfoldable pub continue_watching : ℕ → M W (List ContinueWatchingItem)
  continue_watching client_id = t.history_of client_id >>= λ history.
      t.watchlist_of client_id >>= λ watchlist.
      fetch_details (λ _. none) (collect_missing history watchlist) >>= λ fallback.
      pure (build_items history watchlist fallback)
