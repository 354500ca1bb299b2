-- ===== src/Domain.antt =====
-- internal/domain/models.go: the data that the services pass around, and qualified identifiers.
-- Go's `int` and `int64` are ℤ, a `time.Time` is its number of nanoseconds, a nil and an empty
-- slice are both the empty list, and a nil map or pointer is `none`.
pub mod Identifiers
use zero_nime.Base.{
  Bool, List, Option, none, some, [], ◌∷◌, ◌++◌, ◌||◌, ℤ, Result, ok, err, if◌then◌else◌,
}
use zero_nime.Text.{Text, text, ◌==◌, trim, trim_space, split_2}

pub record AnimeCard : Type 0 where
  pub id : Text
  pub title : Text
  pub cover_image : Text
  pub status_label : Text
  pub episode_label : Text
  pub rating_label : Text
  pub views_label : Text
  pub provider : Text

pub record HomeFeed : Type 0 where
  pub featured : List AnimeCard
  pub ongoing : List AnimeCard
  pub recent : List AnimeCard

pub record Episode : Type 0 where
  pub id : Text
  pub catalog_id : Text
  pub number : ℤ
  pub title : Text
  pub label : Text
  pub released_at : Text

pub record AnimeDetail : Type 0 where
  pub id : Text
  pub title : Text
  pub synopsis : Text
  pub cover_image : Text
  pub banner_image : Text
  pub genres : List Text
  pub metadata : Option (List (Text × Text))
  pub episodes : List Episode
  pub recommendations : List AnimeCard
  pub provider : Text

pub record ScheduleDay : Type 0 where
  pub day : Text
  pub items : List AnimeCard

pub record SelectOption : Type 0 where
  pub value : Text
  pub label : Text

pub record Pagination : Type 0 where
  pub current_page : ℤ
  pub prev_page : ℤ
  pub next_page : ℤ
  pub total_pages : ℤ

pub record PropertyItem : Type 0 where
  pub id : Text
  pub title : Text

pub record PropertyList : Type 0 where
  pub kind : Text
  pub title : Text
  pub items : List PropertyItem

pub record CollectionPage : Type 0 where
  pub kind : Text
  pub key : Text
  pub title : Text
  pub subtitle : Text
  pub items : List AnimeCard
  pub current_filter : Text
  pub current_order : Text
  pub filter_options : List SelectOption
  pub order_options : List SelectOption
  pub pagination : Pagination

pub record StreamCandidate : Type 0 where
  pub url : Text
  pub container : Text
  pub quality : Text
  pub codec : Text
  pub is_direct : Bool
  pub playable : Bool
  pub estimated_priority : ℤ
  pub label : Text

pub record StreamResult : Type 0 where
  pub episode_id : Text
  pub preferred_stream : Option StreamCandidate
  pub candidates : List StreamCandidate
  pub selection_reason : Text
  pub provider : Text

pub record StartupMediaCache : Type 0 where
  pub episode_id : Text
  pub source_url : Text
  pub source_key : Text
  pub container : Text
  pub quality : Text
  pub content_type : Text
  pub content_length : ℤ
  pub head_key : Text
  pub head_bytes : ℤ
  pub tail_key : Text
  pub tail_bytes : ℤ

pub record WatchlistItem : Type 0 where
  pub catalog_id : Text
  pub title : Text
  pub cover_image : Text
  pub provider : Text
  pub updated_at : ℤ

pub record HistoryItem : Type 0 where
  pub catalog_id : Text
  pub episode_id : Text
  pub position_seconds : ℤ
  pub updated_at : ℤ

pub record ContinueWatchingItem : Type 0 where
  pub catalog_id : Text
  pub episode_id : Text
  pub title : Text
  pub cover_image : Text
  pub position_seconds : ℤ
  pub updated_at : ℤ

abbrev pub err_invalid_identifier : Text
err_invalid_identifier = text "invalid identifier"

-- NewCatalogID; 58 is ':' and 47 is '/'
unfoldable pub new_catalog_id : Text → Text → Text
new_catalog_id provider slug = provider ++ 58 ∷ trim 47 (trim_space slug)

-- the test on `parts` of ParseQualifiedID
abbrev pub qualified_parts : Option (Text × Text) → Result (Text × Text)
qualified_parts none = err err_invalid_identifier
qualified_parts (some (provider, slug)) =
    if provider == [] || slug == [] then err err_invalid_identifier else ok (provider, trim 47 slug)

-- ParseQualifiedID: the provider and the slug
unfoldable pub parse_qualified_id : Text → Result (Text × Text)
parse_qualified_id value = qualified_parts (split_2 58 (trim_space value))
