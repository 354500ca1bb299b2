-- ===== src/Store/Payloads.antt =====
-- The tables of internal/store/postgres/store.go that hold a value as JSON under a key.
pub mod Kept
use zero_nime.Base.{
  ℕ, Option, none, some, [], ℤ, pos, M, pure, lift, ◌>>=◌, ◌>>◌, Bool, ltb_ℤ, not, if◌then◌else◌,
}
use zero_nime.Domain.{StreamResult, AnimeDetail, StartupMediaCache}
use zero_nime.MediaCache.{MetadataStore}
use zero_nime.Stream.Resolve.{StreamStore}
use zero_nime.Store.{Rows, Json}
use zero_nime.Text.{Text}

-- CatalogCache, DiscoveryCache and StartupMediaCache, by their key columns CatalogID, CacheKey and
-- EpisodeID
pub record PayloadRow : Type 0 where
  pub id : ℕ
  pub key : Text
  pub payload : Text

-- StreamCache
pub record StreamRow : Type 0 where
  pub id : ℕ
  pub episode_id : Text
  pub payload : Text
  pub expires_at : ℤ

abbrev pub payload_row : Option PayloadRow → PayloadRow
payload_row none = record { id = 0; key = []; payload = [] }
payload_row (some row) = row

abbrev pub stream_row : Option StreamRow → StreamRow
stream_row none = record { id = 0; episode_id = []; payload = []; expires_at = pos 0 }
stream_row (some row) = row

module _ {W A : Type 0} (json : Json A) where
  abbrev pub decode : Text → M W (Option A)
  decode payload = lift (json.unmarshal payload) >>= λ v. pure (some v)

  abbrev pub read_payload : Option PayloadRow → M W (Option A)
  read_payload none = pure none
  read_payload (some row) = decode row.payload

  -- GetCatalogCache, GetDiscoveryCache and GetStartupMediaCache
  unfoldable pub get_payload : Rows W Text PayloadRow → Text → M W (Option A)
  get_payload rows key = rows.first key >>= read_payload

  -- UpsertCatalogCache, UpsertDiscoveryCache and UpsertStartupMediaCache
  unfoldable pub upsert_payload : Rows W Text PayloadRow → Text → A → M W (Unit {0})
  upsert_payload rows key v = lift (json.marshal v) >>= λ payload. rows.first key >>= λ found.
      rows.save (record (payload_row found) { key = key; payload = payload })

module _ {W : Type 0} (json : Json AnimeDetail) (rows : Rows W Text PayloadRow) where
  abbrev pub get_catalog_cache : Text → M W (Option AnimeDetail)
  get_catalog_cache catalog_id = get_payload json rows catalog_id

  abbrev pub upsert_catalog_cache : Text → AnimeDetail → M W (Unit {0})
  upsert_catalog_cache catalog_id detail = upsert_payload json rows catalog_id detail

-- a value of any type, by its JSON
module _ {W A : Type 0} (json : Json A) (rows : Rows W Text PayloadRow) where
  abbrev pub get_discovery_cache : Text → M W (Option A)
  get_discovery_cache cache_key = get_payload json rows cache_key

  abbrev pub upsert_discovery_cache : Text → A → M W (Unit {0})
  upsert_discovery_cache cache_key v = upsert_payload json rows cache_key v

module _ {W : Type 0} (json : Json StartupMediaCache) (rows : Rows W Text PayloadRow) where
  abbrev pub get_startup_entry : Text → M W (Option StartupMediaCache)
  get_startup_entry episode_id = get_payload json rows episode_id

  abbrev pub upsert_startup_entry : StartupMediaCache → M W (Unit {0})
  upsert_startup_entry entry = upsert_payload json rows entry.episode_id entry

  -- the table as the MetadataStore of the media cache
  abbrev pub startup_store : MetadataStore W
  startup_store = record {
    get_startup_media_cache = get_startup_entry;
    upsert_startup_media_cache = upsert_startup_entry;
  }

module _ {W : Type 0} (json : Json StreamResult) (rows : Rows W Text StreamRow) where
  abbrev pub read_stream : ℤ → Option StreamRow → M W (Option StreamResult)
  read_stream now none = pure none
  read_stream now (some row) =
      if not (ltb_ℤ now row.expires_at)
      then rows.delete_row row >> pure none
      else decode json row.payload

  -- GetStreamCache
  unfoldable pub get_stream_row : Text → ℤ → M W (Option StreamResult)
  get_stream_row episode_id now = rows.first episode_id >>= read_stream now

  -- UpsertStreamCache
  unfoldable pub upsert_stream_row : Text → StreamResult → ℤ → M W (Unit {0})
  upsert_stream_row episode_id r expires_at = lift (json.marshal r) >>= λ payload.
      rows.first episode_id >>= λ found. rows.save (record (stream_row found) {
        episode_id = episode_id;
        payload = payload;
        expires_at = expires_at;
      })

  -- DeleteStreamCache
  abbrev pub delete_stream_row : Text → M W (Unit {0})
  delete_stream_row episode_id = rows.delete_where episode_id

  -- the table as the StreamStore of the stream service
  abbrev pub stream_store : StreamStore W
  stream_store = record {
    get_stream_cache = get_stream_row;
    upsert_stream_cache = upsert_stream_row;
    delete_stream_cache = delete_stream_row;
  }
