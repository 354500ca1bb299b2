-- ===== src/Identifiers.antt =====
-- internal/service/identifiers/service.go: what the clients see in place of internal identifiers.
-- The aliases are those of Store/Aliases. A loop over a map is one over its list of entries.
pub mod RoundTrip
pub mod Keeps
pub mod Upkeep
use zero_nime.Base.{
  Bool, not, List, [], ◌∷◌, Option, none, some, M, Result, ok, err, panic, pure, fail, lift,
  attempt, ◌>>=◌, if◌then◌else◌,
}
use zero_nime.Domain.{
  AnimeCard, HomeFeed, ScheduleDay, CollectionPage, Episode, AnimeDetail, StreamResult,
  WatchlistItem, HistoryItem, ContinueWatchingItem, PropertyList, err_invalid_identifier,
  parse_qualified_id,
}
use zero_nime.Store.Aliases.{AliasTable, ensure_alias, resolve_alias}
use zero_nime.Text.{Text, text, ◌==◌, trim_space}

abbrev pub kind_catalog : Text
kind_catalog = text "catalog"

abbrev pub kind_episode : Text
kind_episode = text "episode"

-- `for _, item := range items { cloned = append(cloned, f(item)) }`
unfoldable pub clone_each : {W A : Type 0} → (A → M W A) → List A → M W (List A)
clone_each f [] = pure []
clone_each f (x ∷ xs) = f x >>= λ y. clone_each f xs >>= λ ys. pure (y ∷ ys)

module _ {W : Type 0} (t : AliasTable W) where
  abbrev pub public_or : Text → Result Text → M W Text
  public_or trimmed (ok p) = pure p
  public_or trimmed (err e) = pure trimmed
  public_or trimmed panic = lift panic

  -- public
  unfoldable pub public_id : Text → Text → M W Text
  public_id kind internal_id =
      if trim_space internal_id == []
      then pure []
      else attempt (ensure_alias t kind (trim_space internal_id))
        >>= public_or (trim_space internal_id)

  abbrev pub resolved_alias : Option Text → M W Text
  resolved_alias none = fail err_invalid_identifier
  resolved_alias (some internal_id) = pure internal_id

  abbrev pub resolve_parsed : Text → Text → Result (Text × Text) → M W Text
  resolve_parsed kind trimmed (ok _) = pure trimmed
  resolve_parsed kind trimmed (err e) = resolve_alias t kind trimmed >>= resolved_alias
  resolve_parsed kind trimmed panic = lift panic

  -- resolve
  unfoldable pub resolve_id : Text → Text → M W Text
  resolve_id kind value =
      if trim_space value == []
      then fail err_invalid_identifier
      else resolve_parsed kind (trim_space value) (parse_qualified_id (trim_space value))

  -- ResolveCatalogID, ResolveEpisodeID, PublicCatalogID, PublicEpisodeID
  abbrev pub resolve_catalog_id : Text → M W Text
  resolve_catalog_id value = resolve_id kind_catalog value

  abbrev pub resolve_episode_id : Text → M W Text
  resolve_episode_id value = resolve_id kind_episode value

  abbrev pub public_catalog_id : Text → M W Text
  public_catalog_id internal_id = public_id kind_catalog internal_id

  abbrev pub public_episode_id : Text → M W Text
  public_episode_id internal_id = public_id kind_episode internal_id

  -- `if item.CatalogID != "" { … }`
  unfoldable pub catalog_field : Text → M W Text
  catalog_field id = if not (id == []) then public_catalog_id id else pure id

  unfoldable pub episode_field : Text → M W Text
  episode_field id = if not (id == []) then public_episode_id id else pure id

  unfoldable pub public_anime_card : AnimeCard → M W AnimeCard
  public_anime_card item = catalog_field item.id >>= λ id. pure (record item { id = id })

  unfoldable pub public_anime_cards : List AnimeCard → M W (List AnimeCard)
  public_anime_cards items = clone_each public_anime_card items

  unfoldable pub public_home : HomeFeed → M W HomeFeed
  public_home feed = public_anime_cards feed.featured >>= λ featured.
      public_anime_cards feed.ongoing >>= λ ongoing. public_anime_cards feed.recent >>= λ recent.
      pure (record { featured = featured; ongoing = ongoing; recent = recent })

  unfoldable pub public_day : ScheduleDay → M W ScheduleDay
  public_day item =
      public_anime_cards item.items >>= λ items. pure (record { day = item.day; items = items })

  unfoldable pub public_schedule : List ScheduleDay → M W (List ScheduleDay)
  public_schedule items = clone_each public_day items

  unfoldable pub public_index : List (Text × List AnimeCard) → M W (List (Text × List AnimeCard))
  public_index items =
      clone_each (λ entry. public_anime_cards entry.1 >>= λ cards. pure (entry.0, cards)) items

  -- a clone with copies of its slices
  abbrev pub public_property_list : PropertyList → PropertyList
  public_property_list item = item

  unfoldable pub public_collection_page : CollectionPage → M W CollectionPage
  public_collection_page item =
      public_anime_cards item.items >>= λ items. pure (record item { items = items })

  unfoldable pub public_episode : Episode → M W Episode
  public_episode item = episode_field item.id >>= λ id.
      catalog_field item.catalog_id >>= λ catalog_id.
      pure (record item { id = id; catalog_id = catalog_id })

  unfoldable pub public_episodes : List Episode → M W (List Episode)
  public_episodes items = clone_each public_episode items

  unfoldable pub public_detail : AnimeDetail → M W AnimeDetail
  public_detail item = catalog_field item.id >>= λ id. public_episodes item.episodes >>= λ episodes.
      public_anime_cards item.recommendations >>= λ recommendations.
      pure (record item { id = id; episodes = episodes; recommendations = recommendations })

  unfoldable pub public_stream : StreamResult → M W StreamResult
  public_stream item =
      episode_field item.episode_id >>= λ id. pure (record item { episode_id = id })

  unfoldable pub public_watchlist : List WatchlistItem → M W (List WatchlistItem)
  public_watchlist items =
      clone_each
        (λ item. catalog_field item.catalog_id >>= λ id. pure (record item { catalog_id = id }))
        items

  unfoldable pub public_history_item : HistoryItem → M W HistoryItem
  public_history_item item = catalog_field item.catalog_id >>= λ catalog_id.
      episode_field item.episode_id >>= λ episode_id.
      pure (record item { catalog_id = catalog_id; episode_id = episode_id })

  unfoldable pub public_history : List HistoryItem → M W (List HistoryItem)
  public_history items = clone_each public_history_item items

  unfoldable pub public_watching_item : ContinueWatchingItem → M W ContinueWatchingItem
  public_watching_item item = catalog_field item.catalog_id >>= λ catalog_id.
      episode_field item.episode_id >>= λ episode_id.
      pure (record item { catalog_id = catalog_id; episode_id = episode_id })

  unfoldable pub public_continue_watching :
      List ContinueWatchingItem → M W (List ContinueWatchingItem)
  public_continue_watching items = clone_each public_watching_item items
