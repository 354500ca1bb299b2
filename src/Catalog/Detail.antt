-- ===== src/Catalog/Detail.antt =====
-- The details of internal/service/catalog/service.go: Catalog and Episodes, with the covers and
-- release dates that are asked for again. The code changes the recommendations of a detail in
-- place; here the changed list takes the place of the old one.
pub mod Cleaned
pub mod Total
use zero_nime.Base.{
  Bool, true, false, not, ◌&&◌, ◌||◌, ◌++◌, ◌∷◌, [], List, Option, none, some, find_first, pos,
  Result, ok, err, panic, M, pure, attempt, lift, ◌>>=◌, ◌>>◌, if◌then◌else◌,
}
use zero_nime.Catalog.Clean.{
  normalize_detail, is_my_anime_list_cover, normalize_comparison_title,
  needs_episode_release_refresh, has_episode_release_dates,
}
use zero_nime.Catalog.Listing.{Service, CatalogStore, DetailTable}
use zero_nime.Domain.{AnimeCard, AnimeDetail, Episode}
use zero_nime.Memory.{detail, cache_get, cache_set, as_detail}
use zero_nime.Text.{Text, text, ◌==◌, trim_space}

abbrev pub catalog_key : Text → Text
catalog_key id = text "catalog:" ++ id

abbrev pub has_cover : AnimeCard → Bool
has_cover c = not (trim_space c.cover_image == [])

-- a cover that is not to be replaced
abbrev pub is_good_cover : Text → Bool
is_good_cover cover =
    not (trim_space cover == []) && not (is_my_anime_list_cover (trim_space cover))

abbrev pub details_of : {W : Type 0} → Option (CatalogStore W) → Option (DetailTable W)
details_of none = none
details_of (some store) = some store.details

-- the cover of the first candidate that passes the test, or the next
abbrev pub cover_or : Option AnimeCard → Text → Text
cover_or none other = other
cover_or (some c) other = c.cover_image

-- the three loops of findRecommendationCover over the results of the search
unfoldable pub best_cover : AnimeCard → List AnimeCard → Text
best_cover item results = cover_or (find_first (λ c. c.id == item.id && has_cover c) results) (
    cover_or
      (find_first
        (λ c.
          normalize_comparison_title c.title == normalize_comparison_title item.title
          && has_cover c)
        results)
      (cover_or (find_first has_cover results) []))

module _ {W : Type 0} (s : Service W) where
  abbrev pub save_detail : Option (DetailTable W) → Text → AnimeDetail → M W (Unit {0})
  save_detail none id d = pure tt
  save_detail (some table) id d = attempt (table.upsert_detail id d) >> pure tt

  -- the provider's detail, if it is that of the identifier and has a cover
  abbrev pub related_found : Text → Result AnimeDetail → M W Text
  related_found id (ok d) =
      if not (d.id == id) || trim_space d.cover_image == []
      then pure []
      else cache_set s.cache (catalog_key id) (detail (normalize_detail d)) (pos 0)
        >> save_detail (details_of s.store) id (normalize_detail d)
        >> pure (trim_space (normalize_detail d).cover_image)
  related_found id (err e) = pure []
  related_found id panic = lift panic

  unfoldable pub ask_related : Text → M W Text
  ask_related id = attempt (s.provider.catalog_detail id) >>= related_found id

  abbrev pub related_stored : Text → Result (Option AnimeDetail) → M W Text
  related_stored id (ok (some d)) =
      if is_good_cover d.cover_image
      then cache_set s.cache (catalog_key id) (detail d) (pos 0) >> pure (trim_space d.cover_image)
      else ask_related id
  related_stored id (ok none) = ask_related id
  related_stored id (err e) = ask_related id
  related_stored id panic = lift panic

  abbrev pub look_related : Option (DetailTable W) → Text → M W Text
  look_related none id = ask_related id
  look_related (some table) id = attempt (table.get_detail id) >>= related_stored id

  abbrev pub related_kept : Text → Option AnimeDetail → M W Text
  related_kept id none = look_related (details_of s.store) id
  related_kept id (some d) =
      if is_good_cover d.cover_image
      then pure (trim_space d.cover_image)
      else look_related (details_of s.store) id

  -- coverFromRelatedCatalog
  unfoldable pub cover_from_related_catalog : Text → M W Text
  cover_from_related_catalog id =
      cache_get s.cache (catalog_key id) >>= λ raw. related_kept id (as_detail raw)

  abbrev pub search_cover : AnimeCard → Result (List AnimeCard) → M W Text
  search_cover item (ok results) = pure (best_cover item results)
  search_cover item (err e) = pure []
  search_cover item panic = lift panic

  -- findRecommendationCover
  unfoldable pub find_recommendation_cover : AnimeCard → M W Text
  find_recommendation_cover item = cover_from_related_catalog item.id >>= λ cover.
      if not (cover == [])
      then pure cover
      else attempt (s.provider.search_cards item.title) >>= search_cover item

  -- one turn of the loop of hydrateRecommendationCovers
  unfoldable pub hydrate_card : AnimeCard → M W AnimeCard
  hydrate_card item =
      if is_good_cover item.cover_image
      then pure item
      else find_recommendation_cover item >>= λ cover.
          if trim_space cover == []
          then pure item
          else pure (record item { cover_image = trim_space cover })

  unfoldable pub hydrate_cards : List AnimeCard → M W (List AnimeCard)
  hydrate_cards [] = pure []
  hydrate_cards (item ∷ items) =
      hydrate_card item >>= λ c. hydrate_cards items >>= λ cs. pure (c ∷ cs)

  -- hydrateRecommendationCovers
  unfoldable pub hydrate_recommendation_covers : AnimeDetail → M W AnimeDetail
  hydrate_recommendation_covers d =
      hydrate_cards d.recommendations >>= λ cards. pure (record d { recommendations = cards })

  abbrev pub fresh_cover : AnimeDetail → Result AnimeDetail → M W AnimeDetail
  fresh_cover d (ok fresh) =
      if is_good_cover fresh.cover_image
      then pure (record d { cover_image = trim_space fresh.cover_image })
      else pure d
  fresh_cover d (err e) = pure d
  fresh_cover d panic = lift panic

  -- refreshPrimaryDetailCover
  unfoldable pub refresh_primary_detail_cover : Text → AnimeDetail → M W AnimeDetail
  refresh_primary_detail_cover id d =
      if is_good_cover d.cover_image
      then pure d
      else attempt (s.provider.catalog_detail id) >>= fresh_cover d

  abbrev pub fresh_episodes : AnimeDetail → Result AnimeDetail → M W AnimeDetail
  fresh_episodes d (ok fresh) =
      if not (has_episode_release_dates fresh.episodes)
      then pure d
      else pure (record d { episodes = fresh.episodes })
  fresh_episodes d (err e) = pure d
  fresh_episodes d panic = lift panic

  -- refreshEpisodeReleaseDates
  unfoldable pub refresh_episode_release_dates : Text → AnimeDetail → M W AnimeDetail
  refresh_episode_release_dates id d =
      if not (needs_episode_release_refresh d.episodes)
      then pure d
      else attempt (s.provider.catalog_detail id) >>= fresh_episodes d

  -- the four steps that each detail goes through
  unfoldable pub polish : Text → AnimeDetail → M W AnimeDetail
  polish id d = refresh_primary_detail_cover id d >>= λ covered.
      refresh_episode_release_dates id covered >>= λ dated.
      hydrate_recommendation_covers dated >>= λ hydrated. pure (normalize_detail hydrated)

  unfoldable pub keep_detail : Text → AnimeDetail → M W AnimeDetail
  keep_detail id d = cache_set s.cache (catalog_key id) (detail d) (pos 0) >> pure d

  unfoldable pub keep_and_save : Text → AnimeDetail → M W AnimeDetail
  keep_and_save id d = keep_detail id d >> save_detail (details_of s.store) id d >> pure d

  unfoldable pub ask_detail : Text → M W AnimeDetail
  ask_detail id = s.provider.catalog_detail id >>= λ d. polish id d >>= keep_and_save id

  abbrev pub detail_stored : Text → Result (Option AnimeDetail) → M W AnimeDetail
  detail_stored id (ok (some d)) = polish id d >>= keep_and_save id
  detail_stored id (ok none) = ask_detail id
  detail_stored id (err e) = ask_detail id
  detail_stored id panic = lift panic

  abbrev pub look_detail : Option (DetailTable W) → Text → M W AnimeDetail
  look_detail none id = ask_detail id
  look_detail (some table) id = attempt (table.get_detail id) >>= detail_stored id

  abbrev pub detail_kept : Text → Option AnimeDetail → M W AnimeDetail
  detail_kept id none = look_detail (details_of s.store) id
  detail_kept id (some d) = polish id d >>= keep_detail id

  -- Catalog
  unfoldable pub catalog : Text → M W AnimeDetail
  catalog id = cache_get s.cache (catalog_key id) >>= λ raw. detail_kept id (as_detail raw)

  -- Episodes
  unfoldable pub episodes_of : Text → M W (List Episode)
  episodes_of id = catalog id >>= λ d. pure d.episodes
