-- ===== src/Catalog/Listing.antt =====
-- The lists of internal/service/catalog/service.go: Home, Search, Schedule and Index, which are
-- kept in memory, and the discovery pages, which are also kept in the database.
pub mod Again
use zero_nime.Base.{
  ◌++◌, ◌∷◌, List, Option, none, some, ℤ, pos, Result, ok, err, panic, M, pure, attempt, lift,
  ◌>>=◌, ◌>>◌,
}
use zero_nime.Catalog.Clean.{
  normalize_anime_cards, normalize_home, normalize_schedule, normalize_collection_page,
}
use zero_nime.Domain.{AnimeCard, HomeFeed, ScheduleDay, CollectionPage, PropertyList, AnimeDetail}
use zero_nime.Memory.{
  Value, Cache, home, cards, days, page, index, properties, cache_get, cache_set, as_home, as_cards,
  as_days, as_page, as_index, as_properties,
}
use zero_nime.Text.Decimal.{format_int}
use zero_nime.Text.{Text, text, trim_space}

-- the operations of provider.Provider that the service calls
pub record Provider (W : Type 0) : Type 0 where
  pub home_feed : M W HomeFeed
  pub search_cards : Text → M W (List AnimeCard)
  pub schedule_days : M W (List ScheduleDay)
  pub day_page : Text → ℤ → M W CollectionPage
  pub index_cards : M W (List (Text × List AnimeCard))
  pub property_items : Text → M W PropertyList
  pub property_page : Text → Text → Text → ℤ → M W CollectionPage
  pub quick_page : Text → Text → ℤ → M W CollectionPage
  pub seasonal_page : M W CollectionPage
  pub catalog_detail : Text → M W AnimeDetail

-- GetDiscoveryCache and UpsertDiscoveryCache for the values of one type
pub record DiscoveryTable (W A : Type 0) : Type 0 where
  pub get_discovery : Text → M W (Option A)
  pub upsert_discovery : Text → A → M W (Unit {0})

-- GetCatalogCache and UpsertCatalogCache
pub record DetailTable (W : Type 0) : Type 0 where
  pub get_detail : Text → M W (Option AnimeDetail)
  pub upsert_detail : Text → AnimeDetail → M W (Unit {0})

pub record CatalogStore (W : Type 0) : Type 0 where
  pub pages : DiscoveryTable W CollectionPage
  pub lists : DiscoveryTable W PropertyList
  pub details : DetailTable W

pub record Service (W : Type 0) : Type 0 where
  pub provider : Provider W
  pub cache : Cache W
  pub store : Option (CatalogStore W)

-- How a value of one type is kept in memory, and how it is cleaned.
pub record Shape (A : Type 0) : Type 0 where
  pub unwrap : Option Value → Option A
  pub wrap : A → Value
  pub clean : A → A

module _ {W A : Type 0} (cache : Cache W) (shape : Shape A) where
  -- the provider's value, cleaned and kept
  unfoldable pub fetch_kept : Text → M W A → M W A
  fetch_kept key ask =
      ask >>= λ v. cache_set cache key (shape.wrap (shape.clean v)) (pos 0) >> pure (shape.clean v)

  abbrev pub kept_or : Option A → M W A → M W A
  kept_or none next = next
  kept_or (some v) next = pure v

  -- the body of Home, Search, Schedule and Index
  unfoldable pub list_call : Text → M W A → M W A
  list_call key ask = cache_get cache key >>= λ raw. kept_or (shape.unwrap raw) (fetch_kept key ask)

  abbrev pub save_discovery : Option (DiscoveryTable W A) → Text → A → M W (Unit {0})
  save_discovery none key v = pure tt
  save_discovery (some table) key v = attempt (table.upsert_discovery key v) >> pure tt

  -- the provider's value, cleaned and kept in memory and in the database
  unfoldable pub fetch_discovery : Option (DiscoveryTable W A) → Text → M W A → M W A
  fetch_discovery table key ask = ask >>= λ v.
      cache_set cache key (shape.wrap (shape.clean v)) (pos 0)
      >> save_discovery table key (shape.clean v)
      >> pure (shape.clean v)

  -- a value of the database is cleaned and kept in memory; an error counts as none
  abbrev pub from_table : Text → M W A → Result (Option A) → M W A
  from_table key next (ok (some v)) =
      cache_set cache key (shape.wrap (shape.clean v)) (pos 0) >> pure (shape.clean v)
  from_table key next (ok none) = next
  from_table key next (err e) = next
  from_table key next panic = lift panic

  abbrev pub look_in_table : Option (DiscoveryTable W A) → Text → M W A → M W A
  look_in_table none key next = next
  look_in_table (some table) key next = attempt (table.get_discovery key) >>= from_table key next

  abbrev pub cleaned_or : Option A → M W A → M W A
  cleaned_or none next = next
  cleaned_or (some v) next = pure (shape.clean v)

  -- the body of SchedulePage, PropertyList, PropertyCatalog, QuickCatalog and SeasonalPopular
  unfoldable pub discovery_call : Option (DiscoveryTable W A) → Text → M W A → M W A
  discovery_call table key ask = cache_get cache key >>= λ raw.
      cleaned_or (shape.unwrap raw) (look_in_table table key (fetch_discovery table key ask))

abbrev pub home_shape : Shape HomeFeed
home_shape = record { unwrap = as_home; wrap = home; clean = normalize_home }

abbrev pub cards_shape : Shape (List AnimeCard)
cards_shape = record { unwrap = as_cards; wrap = cards; clean = normalize_anime_cards }

abbrev pub days_shape : Shape (List ScheduleDay)
days_shape = record { unwrap = as_days; wrap = days; clean = normalize_schedule }

abbrev pub index_shape : Shape (List (Text × List AnimeCard))
index_shape = record { unwrap = as_index; wrap = index; clean = λ v. v }

abbrev pub page_shape : Shape CollectionPage
page_shape = record { unwrap = as_page; wrap = page; clean = normalize_collection_page }

abbrev pub list_shape : Shape PropertyList
list_shape = record { unwrap = as_properties; wrap = properties; clean = λ v. v }

abbrev pub pages_of :
    {W : Type 0} → Option (CatalogStore W) → Option (DiscoveryTable W CollectionPage)
pages_of none = none
pages_of (some store) = some store.pages

abbrev pub lists_of :
    {W : Type 0} → Option (CatalogStore W) → Option (DiscoveryTable W PropertyList)
lists_of none = none
lists_of (some store) = some store.lists

-- parts joined by ':'
unfoldable pub keyed : Text → Text → Text
keyed a b = a ++ 58 ∷ b

abbrev pub discovery_key : Text → Text
discovery_key rest = keyed (text "discovery:v2r2") rest

abbrev pub schedule_key : Text → ℤ → Text
schedule_key day number =
    discovery_key (keyed (text "schedule") (keyed (trim_space day) (format_int number)))

abbrev pub property_list_key : Text → Text
property_list_key kind = discovery_key (keyed (text "property-list") (trim_space kind))

abbrev pub property_key : Text → Text → Text → ℤ → Text
property_key kind id order number = discovery_key (
    keyed (text "property") (
      keyed (trim_space kind)
        (keyed (trim_space id) (keyed (trim_space order) (format_int number)))))

abbrev pub quick_key : Text → Text → ℤ → Text
quick_key kind order number =
    discovery_key (
      keyed (text "quick") (keyed (trim_space kind) (keyed (trim_space order) (format_int number))))

module _ {W : Type 0} (s : Service W) where
  abbrev pub home_call : M W HomeFeed
  home_call = list_call s.cache home_shape (text "home") s.provider.home_feed

  abbrev pub search_call : Text → M W (List AnimeCard)
  search_call query =
      list_call s.cache cards_shape (text "search:" ++ query) (s.provider.search_cards query)

  abbrev pub schedule_call : M W (List ScheduleDay)
  schedule_call = list_call s.cache days_shape (text "schedule") s.provider.schedule_days

  abbrev pub index_call : M W (List (Text × List AnimeCard))
  index_call = list_call s.cache index_shape (text "index") s.provider.index_cards

  abbrev pub schedule_page : Text → ℤ → M W CollectionPage
  schedule_page day number =
      discovery_call s.cache page_shape (pages_of s.store) (schedule_key day number)
        (s.provider.day_page day number)

  abbrev pub property_list : Text → M W PropertyList
  property_list kind =
      discovery_call s.cache list_shape (lists_of s.store) (property_list_key kind)
        (s.provider.property_items kind)

  abbrev pub property_catalog : Text → Text → Text → ℤ → M W CollectionPage
  property_catalog kind id order number =
      discovery_call s.cache page_shape (pages_of s.store) (property_key kind id order number)
        (s.provider.property_page kind id order number)

  abbrev pub quick_catalog : Text → Text → ℤ → M W CollectionPage
  quick_catalog kind order number =
      discovery_call s.cache page_shape (pages_of s.store) (quick_key kind order number)
        (s.provider.quick_page kind order number)

  abbrev pub seasonal_popular : M W CollectionPage
  seasonal_popular =
      discovery_call s.cache page_shape (pages_of s.store) (discovery_key (text "seasonal-popular"))
        s.provider.seasonal_page
