-- ===== src/Memory.antt =====
-- internal/cache/cache.go: the in-memory cache with expiry. What ttlcache does with an entry and
-- when it drops one are a parameter. The values that the program puts into it are one data type,
-- and a type assertion is a match on it.
use zero_nime.Base.{Option, none, some, List, ℤ, M, ok}
use zero_nime.Domain.{
  HomeFeed, AnimeCard, ScheduleDay, CollectionPage, PropertyList, AnimeDetail, StreamResult,
}
use zero_nime.Http.{Bytes, Header}
use zero_nime.Text.{Text}
use zero_nime.Base.{ℕ}

pub record BufferedResponse : Type 0 where
  pub status_code : ℕ
  pub headers : Header
  pub body : Bytes

pub data Value : Type 0 where
  home : HomeFeed → Value
  cards : List AnimeCard → Value
  days : List ScheduleDay → Value
  page : CollectionPage → Value
  index : List (Text × List AnimeCard) → Value
  properties : PropertyList → Value
  detail : AnimeDetail → Value
  stream : StreamResult → Value
  buffered : BufferedResponse → Value
  flag : Value

-- `raw.(domain.StreamResult)`
unfoldable pub as_stream : Option Value → Option StreamResult
as_stream (some (stream r)) = some r
as_stream _ = none

-- and the other type assertions
unfoldable pub as_home : Option Value → Option HomeFeed
as_home (some (home r)) = some r
as_home _ = none

unfoldable pub as_cards : Option Value → Option (List AnimeCard)
as_cards (some (cards r)) = some r
as_cards _ = none

unfoldable pub as_days : Option Value → Option (List ScheduleDay)
as_days (some (days r)) = some r
as_days _ = none

unfoldable pub as_page : Option Value → Option CollectionPage
as_page (some (page r)) = some r
as_page _ = none

unfoldable pub as_index : Option Value → Option (List (Text × List AnimeCard))
as_index (some (index r)) = some r
as_index _ = none

unfoldable pub as_properties : Option Value → Option PropertyList
as_properties (some (properties r)) = some r
as_properties _ = none

unfoldable pub as_detail : Option Value → Option AnimeDetail
as_detail (some (detail r)) = some r
as_detail _ = none

unfoldable pub as_buffered : Option Value → Option BufferedResponse
as_buffered (some (buffered r)) = some r
as_buffered _ = none

-- Get, Set with a time to live in nanoseconds (0 for the default one), and Delete.
pub record Cache (W : Type 0) : Type 0 where
  pub get : Text → W → Option Value × W
  pub set : Text → Value → ℤ → W → W
  pub delete : Text → W → W

module _ {W : Type 0} where
  abbrev pub cache_get : Cache W → Text → M W (Option Value)
  cache_get c key w = let (v, w') = c.get key w in (ok v, w')

  abbrev pub cache_set : Cache W → Text → Value → ℤ → M W (Unit {0})
  cache_set c key v ttl w = (ok tt, c.set key v ttl w)

  abbrev pub cache_delete : Cache W → Text → M W (Unit {0})
  cache_delete c key w = (ok tt, c.delete key w)
