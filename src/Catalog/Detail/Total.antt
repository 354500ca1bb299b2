-- ===== src/Catalog/Detail/Total.antt =====
-- Catalog returns a clean detail whenever the provider has one.
use zero_nime.Base.{
  ◌≡◌, refl, not, ◌||◌, Option, none, some, List, [], ◌∷◌, pos, ok, pure, attempt, ◌>>=◌, ◌>>◌,
  if_cases, Returns, Survives, pure-Returns, bind-Returns, attempt-then-Returns, attempt-Returns,
}
use zero_nime.Catalog.Detail.Cleaned.{IsClean, catalog-Yields}
use zero_nime.Catalog.Clean.{
  normalize_detail, needs_episode_release_refresh, has_episode_release_dates,
}
use zero_nime.Catalog.Detail.{
  is_good_cover, details_of, save_detail, related_found, ask_related, related_stored, look_related,
  related_kept, cover_from_related_catalog, search_cover, best_cover, find_recommendation_cover,
  hydrate_card, hydrate_cards, hydrate_recommendation_covers, fresh_cover,
  refresh_primary_detail_cover, fresh_episodes, refresh_episode_release_dates, polish, keep_detail,
  keep_and_save, ask_detail, detail_stored, look_detail, detail_kept, catalog, catalog_key,
}
use zero_nime.Catalog.Listing.{Service, DetailTable}
use zero_nime.Domain.{AnimeCard, AnimeDetail}
use zero_nime.Memory.{cache_get, cache_set, detail, as_detail}
use zero_nime.Text.{Text, ◌==◌, trim_space}

module _ {W : Type 0} (s : Service W) where
  -- The calls of the provider and of the database do not panic, whatever errors they return.
  abbrev pub TableNoPanic : Option (DetailTable W) → Type 0
  TableNoPanic none = Unit
  TableNoPanic (some table) =
      ((id : Text) → Survives (table.get_detail id))
      × ((id : Text) (d : AnimeDetail) → Survives (table.upsert_detail id d))

  pub record Calm : Type 0 where
    pub details : (id : Text) → Survives (s.provider.catalog_detail id)
    pub searches : (title : Text) → Survives (s.provider.search_cards title)
    pub tables : TableNoPanic (details_of s.store)

  save_detail-Returns :
      (o : Option (DetailTable W)) (id : Text) (d : AnimeDetail)
      → TableNoPanic o
      → Returns (save_detail s o id d)
  save_detail-Returns none id d safe = pure-Returns tt
  save_detail-Returns (some table) id d (_, safe) =
      bind-Returns (attempt (table.upsert_detail id d)) _
        (attempt-Returns (table.upsert_detail id d) (safe id d)) (λ _. pure-Returns tt)

  module _ (calm : Calm) where
    related_found-Returns : (id : Text) (d : AnimeDetail) → Returns (related_found s id (ok d))
    related_found-Returns id d =
        if_cases Returns (not (d.id == id) || trim_space d.cover_image == []) _ _
          (λ _. pure-Returns [])
          (λ _.
            bind-Returns
              (cache_set s.cache (catalog_key id) (detail (normalize_detail d)) (pos 0)
                >> save_detail s (details_of s.store) id (normalize_detail d))
              _
              (bind-Returns
                (cache_set s.cache (catalog_key id) (detail (normalize_detail d)) (pos 0))
                (λ _. save_detail s (details_of s.store) id (normalize_detail d)) (λ w. (tt, refl))
                (λ _. save_detail-Returns (details_of s.store) id (normalize_detail d) calm.tables))
              (λ _. pure-Returns (trim_space (normalize_detail d).cover_image)))

    ask_related-Returns : (id : Text) → Returns (ask_related s id)
    unfolding ask_related
    ask_related-Returns id =
        attempt-then-Returns (s.provider.catalog_detail id) (related_found s id) (calm.details id)
          (related_found-Returns id) (λ e. pure-Returns [])

    related_stored-Returns :
        (id : Text) (o : Option AnimeDetail) → Returns (related_stored s id (ok o))
    related_stored-Returns id none = ask_related-Returns id
    related_stored-Returns id (some d) =
        if_cases Returns (is_good_cover d.cover_image) _ _
          (λ _.
            bind-Returns (cache_set s.cache (catalog_key id) (detail d) (pos 0))
              (λ _. pure (trim_space d.cover_image)) (λ w. (tt, refl))
              (λ _. pure-Returns (trim_space d.cover_image)))
          (λ _. ask_related-Returns id)

    look_related-Returns :
        (o : Option (DetailTable W)) (id : Text) → TableNoPanic o → Returns (look_related s o id)
    look_related-Returns none id safe = ask_related-Returns id
    look_related-Returns (some table) id (safe, _) =
        attempt-then-Returns (table.get_detail id) (related_stored s id) (safe id)
          (related_stored-Returns id) (λ e. ask_related-Returns id)

    related_kept-Returns : (id : Text) (o : Option AnimeDetail) → Returns (related_kept s id o)
    related_kept-Returns id none = look_related-Returns (details_of s.store) id calm.tables
    related_kept-Returns id (some d) =
        if_cases Returns (is_good_cover d.cover_image) _ _
          (λ _. pure-Returns (trim_space d.cover_image))
          (λ _. look_related-Returns (details_of s.store) id calm.tables)

    cover_from_related_catalog-Returns : (id : Text) → Returns (cover_from_related_catalog s id)
    unfolding cover_from_related_catalog
    cover_from_related_catalog-Returns id =
        bind-Returns (cache_get s.cache (catalog_key id)) (λ raw. related_kept s id (as_detail raw))
          (λ w. ((s.cache.get (catalog_key id) w).0, refl))
          (λ raw. related_kept-Returns id (as_detail raw))

    find_recommendation_cover-Returns :
        (item : AnimeCard) → Returns (find_recommendation_cover s item)
    unfolding find_recommendation_cover
    find_recommendation_cover-Returns item =
        bind-Returns (cover_from_related_catalog s item.id) _
          (cover_from_related_catalog-Returns item.id)
          (λ cover.
            if_cases Returns (not (cover == [])) _ _ (λ _. pure-Returns cover)
              (λ _.
                attempt-then-Returns (s.provider.search_cards item.title) (search_cover s item)
                  (calm.searches item.title) (λ results. pure-Returns (best_cover item results))
                  (λ e. pure-Returns [])))

    hydrate_card-Returns : (item : AnimeCard) → Returns (hydrate_card s item)
    unfolding hydrate_card
    hydrate_card-Returns item =
        if_cases Returns (is_good_cover item.cover_image) _ _ (λ _. pure-Returns item)
          (λ _.
            bind-Returns (find_recommendation_cover s item) _
              (find_recommendation_cover-Returns item)
              (λ cover.
                if_cases Returns (trim_space cover == []) _ _ (λ _. pure-Returns item)
                  (λ _. pure-Returns (record item { cover_image = trim_space cover }))))

    hydrate_cards-Returns : (items : List AnimeCard) → Returns (hydrate_cards s items)
    unfolding hydrate_cards
    hydrate_cards-Returns [] = pure-Returns []
    hydrate_cards-Returns (item ∷ items) =
        bind-Returns (hydrate_card s item) _ (hydrate_card-Returns item) (λ c.
          bind-Returns (hydrate_cards s items) _ (hydrate_cards-Returns items)
            (λ cs. pure-Returns (c ∷ cs)))

    refresh_primary_detail_cover-Returns :
        (id : Text) (d : AnimeDetail) → Returns (refresh_primary_detail_cover s id d)
    unfolding refresh_primary_detail_cover
    refresh_primary_detail_cover-Returns id d =
        if_cases Returns (is_good_cover d.cover_image) _ _ (λ _. pure-Returns d)
          (λ _.
            attempt-then-Returns (s.provider.catalog_detail id) (fresh_cover s d) (calm.details id)
              (λ fresh.
                if_cases Returns (is_good_cover fresh.cover_image) _ _
                  (λ _. pure-Returns (record d { cover_image = trim_space fresh.cover_image }))
                  (λ _. pure-Returns d))
              (λ e. pure-Returns d))

    refresh_episode_release_dates-Returns :
        (id : Text) (d : AnimeDetail) → Returns (refresh_episode_release_dates s id d)
    unfolding refresh_episode_release_dates
    refresh_episode_release_dates-Returns id d =
        if_cases Returns (not (needs_episode_release_refresh d.episodes)) _ _ (λ _. pure-Returns d)
          (λ _.
            attempt-then-Returns (s.provider.catalog_detail id) (fresh_episodes s d)
              (calm.details id)
              (λ fresh.
                if_cases Returns (not (has_episode_release_dates fresh.episodes)) _ _
                  (λ _. pure-Returns d)
                  (λ _. pure-Returns (record d { episodes = fresh.episodes })))
              (λ e. pure-Returns d))

    polish-Returns : (id : Text) (d : AnimeDetail) → Returns (polish s id d)
    unfolding polish hydrate_recommendation_covers
    polish-Returns id d =
        bind-Returns (refresh_primary_detail_cover s id d) _
          (refresh_primary_detail_cover-Returns id d)
          (λ covered.
            bind-Returns (refresh_episode_release_dates s id covered) _
              (refresh_episode_release_dates-Returns id covered)
              (λ dated.
                bind-Returns (hydrate_recommendation_covers s dated) _
                  (bind-Returns (hydrate_cards s dated.recommendations) _
                    (hydrate_cards-Returns dated.recommendations)
                    (λ cards. pure-Returns (record dated { recommendations = cards })))
                  (λ hydrated. pure-Returns (normalize_detail hydrated))))

    keep_detail-Returns : (id : Text) (d : AnimeDetail) → Returns (keep_detail s id d)
    unfolding keep_detail
    keep_detail-Returns id d w = (d, refl)

    saved-Returns : (id : Text) (d : AnimeDetail) → Returns (polish s id d >>= keep_and_save s id)
    unfolding keep_and_save
    saved-Returns id d =
        bind-Returns (polish s id d) (keep_and_save s id) (polish-Returns id d) (λ p.
          bind-Returns (keep_detail s id p >> save_detail s (details_of s.store) id p) (λ _. pure p)
            (bind-Returns (keep_detail s id p) (λ _. save_detail s (details_of s.store) id p)
              (keep_detail-Returns id p)
              (λ _. save_detail-Returns (details_of s.store) id p calm.tables))
            (λ _. pure-Returns p))

    module _ (id : Text) (found : Returns (s.provider.catalog_detail id)) where
      ask_detail-Returns : Returns (ask_detail s id)
      unfolding ask_detail
      ask_detail-Returns =
          bind-Returns (s.provider.catalog_detail id) _ found (λ d. saved-Returns id d)

      detail_stored-Returns : (o : Option AnimeDetail) → Returns (detail_stored s id (ok o))
      detail_stored-Returns none = ask_detail-Returns
      detail_stored-Returns (some d) = saved-Returns id d

      look_detail-Returns :
          (o : Option (DetailTable W)) → TableNoPanic o → Returns (look_detail s o id)
      look_detail-Returns none safe = ask_detail-Returns
      look_detail-Returns (some table) (safe, _) =
          attempt-then-Returns (table.get_detail id) (detail_stored s id) (safe id)
            detail_stored-Returns (λ e. ask_detail-Returns)

      detail_kept-Returns : (o : Option AnimeDetail) → Returns (detail_kept s id o)
      detail_kept-Returns none = look_detail-Returns (details_of s.store) calm.tables
      detail_kept-Returns (some d) =
          bind-Returns (polish s id d) (keep_detail s id) (polish-Returns id d)
            (λ p. keep_detail-Returns id p)

      catalog-Returns : Returns (catalog s id)
      unfolding catalog
      catalog-Returns =
          bind-Returns (cache_get s.cache (catalog_key id))
            (λ raw. detail_kept s id (as_detail raw))
            (λ w. ((s.cache.get (catalog_key id) w).0, refl))
            (λ raw. detail_kept-Returns (as_detail raw))

  -- When the provider returns details of the catalog entry, Catalog returns a detail, whatever is
  -- cached and whatever errors the provider's other calls and the database return, if these do not
  -- panic. Its metadata is that of a detail from the memory, the database or the provider, but
  -- without "eksplisit" and "tema", and with the number that inferredEpisodeCount finds as "episode"
  -- where there are episodes and this entry was missing, blank or a question mark.
  pub catalog-Answers :
      (calm : Calm) (id : Text) (w : W)
      → Returns (s.provider.catalog_detail id)
      → (d : AnimeDetail) × ((catalog s id w).0 ≡ ok d) × IsClean s id d
  catalog-Answers calm id w found =
      let (d, e) = catalog-Returns calm id found w in (d, e, catalog-Yields s id w d e)
