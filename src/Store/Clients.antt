-- ===== src/Store/Clients.antt =====
-- The tables of internal/store/postgres/store.go that belong to a client: the clients themselves,
-- their watchlists and their histories. gorm sets the times of a row when it saves it.
use zero_nime.Base.{
  ℕ, Bool, true, false, not, ◌||◌, Option, none, some, List, [], ℤ, pos, M, pure, fail, ◌>>=◌,
  if◌then◌else◌,
}
use zero_nime.Store.{Rows}
use zero_nime.Text.{Text, text, ◌==◌, trim_space}

pub record AnonymousClient : Type 0 where
  pub id : ℕ
  pub token : Text

pub record Watchlist : Type 0 where
  pub id : ℕ
  pub client_id : ℕ
  pub catalog_id : Text
  pub title : Text
  pub cover_image : Text
  pub provider : Text
  pub updated_at : ℤ

pub record WatchHistory : Type 0 where
  pub id : ℕ
  pub client_id : ℕ
  pub catalog_id : Text
  pub episode_id : Text
  pub title : Text
  pub cover_image : Text
  pub provider : Text
  pub position_seconds : ℤ
  pub updated_at : ℤ

-- The three tables; the clients' is looked up by the token, the others by the client and the
-- catalog identifier. The lists are those of a client, the last updated first. `created_client`
-- is the row with the ID that Create gave it.
pub record ClientTables (W : Type 0) : Type 0 where
  pub clients : Rows W Text AnonymousClient
  pub create_client : Text → M W AnonymousClient
  pub watchlists : Rows W (ℕ × Text) Watchlist
  pub histories : Rows W (ℕ × Text) WatchHistory
  pub watchlist_of : ℕ → M W (List Watchlist)
  pub history_of : ℕ → M W (List WatchHistory)

abbrev pub watchlist_row : Option Watchlist → Watchlist
watchlist_row none = record {
  id = 0;
  client_id = 0;
  catalog_id = [];
  title = [];
  cover_image = [];
  provider = [];
  updated_at = pos 0;
}
watchlist_row (some row) = row

abbrev pub history_row : Option WatchHistory → WatchHistory
history_row none = record {
  id = 0;
  client_id = 0;
  catalog_id = [];
  episode_id = [];
  title = [];
  cover_image = [];
  provider = [];
  position_seconds = pos 0;
  updated_at = pos 0;
}
history_row (some row) = row

-- `if row.Title == "" || strings.TrimSpace(title) != "" { row.Title = title }`
unfoldable pub refreshed : Text → Text → Text
refreshed old new = if old == [] || not (trim_space new == []) then new else old

-- the row that UpsertHistory saves
unfoldable pub history_update :
    WatchHistory → ℕ → Text → Text → ℤ → Text → Text → Text → WatchHistory
history_update row client_id catalog_id episode_id position_seconds title cover_image provider =
    record row {
      client_id = client_id;
      catalog_id = catalog_id;
      episode_id = episode_id;
      title = refreshed row.title title;
      cover_image = refreshed row.cover_image cover_image;
      provider = refreshed row.provider provider;
      position_seconds = position_seconds;
    }

module _ {W : Type 0} (t : ClientTables W) where
  -- the client, and whether it was created
  abbrev pub client_or_new : Text → Option AnonymousClient → M W (AnonymousClient × Bool)
  client_or_new token none = t.create_client token >>= λ client. pure (client, true)
  client_or_new token (some client) = pure (client, false)

  -- EnsureClient
  unfoldable pub ensure_client : Text → M W (AnonymousClient × Bool)
  ensure_client token = t.clients.first token >>= client_or_new token

  abbrev pub found_client : Option AnonymousClient → M W AnonymousClient
  found_client none = fail (text "record not found")
  found_client (some client) = pure client

  -- FindClient
  unfoldable pub find_client : Text → M W AnonymousClient
  find_client token = t.clients.first token >>= found_client

  -- UpsertWatchlist
  unfoldable pub upsert_watchlist : ℕ → Text → Text → Text → Text → M W (Unit {0})
  upsert_watchlist client_id catalog_id title cover_image provider =
      t.watchlists.first (client_id, catalog_id) >>= λ found.
      t.watchlists.save (record (watchlist_row found) {
        client_id = client_id;
        catalog_id = catalog_id;
        title = title;
        cover_image = cover_image;
        provider = provider;
      })

  -- DeleteWatchlist
  abbrev pub delete_watchlist_row : ℕ → Text → M W (Unit {0})
  delete_watchlist_row client_id catalog_id = t.watchlists.delete_where (client_id, catalog_id)

  -- UpsertHistory
  unfoldable pub upsert_history : ℕ → Text → Text → ℤ → Text → Text → Text → M W (Unit {0})
  upsert_history client_id catalog_id episode_id position_seconds title cover_image provider =
      t.histories.first (client_id, catalog_id) >>= λ found. t.histories.save (
        history_update (history_row found) client_id catalog_id episode_id position_seconds title
          cover_image provider)

  -- DeleteHistory
  abbrev pub delete_history_row : ℕ → Text → M W (Unit {0})
  delete_history_row client_id catalog_id = t.histories.delete_where (client_id, catalog_id)
