-- ===== src/Catalog/Detail/Cleaned.antt =====
-- Each detail that Catalog returns is clean.
use zero_nime.Base.{
  Option, none, some, pos, Result, ok, err, panic, pure, attempt, ◌>>=◌, ◌>>◌, Yields, pure-Yields,
  lift_panic-Yields, bind-Yields, chain-Yields, attempt-Yields, ◌≡◌, refl, ◌∙◌, subst, inl, inr,
  ◌⊎◌, not, if_cases,
}
use zero_nime.Catalog.Clean.Metadata.{CleanEntries, CleanDetail, normalize_detail-CleanDetail}
use zero_nime.Catalog.Clean.{
  normalize_detail, needs_episode_release_refresh, has_episode_release_dates,
}
use zero_nime.Catalog.Detail.{
  is_good_cover, fresh_cover, fresh_episodes, hydrate_cards, details_of, save_detail,
  hydrate_recommendation_covers, refresh_primary_detail_cover, refresh_episode_release_dates,
  polish, keep_detail, keep_and_save, ask_detail, detail_stored, look_detail, detail_kept, catalog,
  catalog_key,
}
use zero_nime.Catalog.Listing.{Service, DetailTable}
use zero_nime.Domain.{AnimeDetail}
use zero_nime.Memory.{Value, cache_get, cache_set, detail, as_detail}
use zero_nime.Text.{Text, trim_space}

module _ {W : Type 0} (s : Service W) where
  -- A detail of the catalog entry comes from the memory, the database or the provider.
  abbrev pub TableOffers : Option (DetailTable W) → Text → AnimeDetail → Type 0
  TableOffers none id d = ⊥
  TableOffers (some table) id d = (w : W) × ((table.get_detail id w).0 ≡ ok (some d))

  abbrev pub MemoryOffers : Text → AnimeDetail → Type 0
  MemoryOffers id d =
      (w : W) × (raw : Option Value) × ((cache_get s.cache (catalog_key id) w).0 ≡ ok raw)
      × (as_detail raw ≡ some d)

  abbrev pub ProviderOffers : Text → AnimeDetail → Type 0
  ProviderOffers id d = (w : W) × ((s.provider.catalog_detail id w).0 ≡ ok d)

  abbrev pub Offered : Text → AnimeDetail → Type 0
  Offered id d = MemoryOffers id d ⊎ TableOffers (details_of s.store) id d ⊎ ProviderOffers id d

  -- The detail is an offered one whose metadata was cleaned up.
  abbrev pub IsClean : Text → AnimeDetail → Type 0
  IsClean id d = (offered : AnimeDetail) × Offered id offered × CleanDetail offered d

  -- the metadata is still that of the detail
  abbrev Like : AnimeDetail → AnimeDetail → Type 0
  Like d d' = d'.metadata ≡ d.metadata

  fresh_cover-Like :
      (d : AnimeDetail) (r : Result AnimeDetail) → Yields (Like d) (fresh_cover s d r)
  fresh_cover-Like d (ok fresh) =
      if_cases (Yields (Like d)) (is_good_cover fresh.cover_image) _ _
        (λ _. pure-Yields (Like d) (record d { cover_image = trim_space fresh.cover_image }) refl)
        (λ _. pure-Yields (Like d) d refl)
  fresh_cover-Like d (err e) = pure-Yields (Like d) d refl
  fresh_cover-Like d panic = lift_panic-Yields (Like d)

  refresh_primary_detail_cover-Like :
      (id : Text) (d : AnimeDetail) → Yields (Like d) (refresh_primary_detail_cover s id d)
  unfolding refresh_primary_detail_cover
  refresh_primary_detail_cover-Like id d =
      if_cases (Yields (Like d)) (is_good_cover d.cover_image) _ _
        (λ _. pure-Yields (Like d) d refl)
        (λ _.
          bind-Yields (Like d) (attempt (s.provider.catalog_detail id)) (fresh_cover s d)
            (fresh_cover-Like d))

  fresh_episodes-Like :
      (d : AnimeDetail) (r : Result AnimeDetail) → Yields (Like d) (fresh_episodes s d r)
  fresh_episodes-Like d (ok fresh) =
      if_cases (Yields (Like d)) (not (has_episode_release_dates fresh.episodes)) _ _
        (λ _. pure-Yields (Like d) d refl)
        (λ _. pure-Yields (Like d) (record d { episodes = fresh.episodes }) refl)
  fresh_episodes-Like d (err e) = pure-Yields (Like d) d refl
  fresh_episodes-Like d panic = lift_panic-Yields (Like d)

  refresh_episode_release_dates-Like :
      (id : Text) (d : AnimeDetail) → Yields (Like d) (refresh_episode_release_dates s id d)
  unfolding refresh_episode_release_dates
  refresh_episode_release_dates-Like id d =
      if_cases (Yields (Like d)) (not (needs_episode_release_refresh d.episodes)) _ _
        (λ _. pure-Yields (Like d) d refl)
        (λ _.
          bind-Yields (Like d) (attempt (s.provider.catalog_detail id)) (fresh_episodes s d)
            (fresh_episodes-Like d))

  hydrate_recommendation_covers-Like :
      (d : AnimeDetail) → Yields (Like d) (hydrate_recommendation_covers s d)
  unfolding hydrate_recommendation_covers
  hydrate_recommendation_covers-Like d =
      bind-Yields (Like d) (hydrate_cards s d.recommendations) _
        (λ cards. pure-Yields (Like d) (record d { recommendations = cards }) refl)

  polish-Yields : (id : Text) (d : AnimeDetail) → Yields (CleanDetail d) (polish s id d)
  unfolding polish normalize_detail
  polish-Yields id d =
      chain-Yields (CleanDetail d) (Like d) (refresh_primary_detail_cover s id d) _
        (refresh_primary_detail_cover-Like id d)
        (λ covered e.
          chain-Yields (CleanDetail d) (Like covered) (refresh_episode_release_dates s id covered) _
            (refresh_episode_release_dates-Like id covered)
            (λ dated e'.
              chain-Yields (CleanDetail d) (Like dated) (hydrate_recommendation_covers s dated) _
                (hydrate_recommendation_covers-Like dated)
                (λ hydrated e''. pure-Yields (CleanDetail d) (normalize_detail hydrated) (
                  subst (λ m. CleanEntries hydrated.episodes m (normalize_detail hydrated).metadata)
                    (e'' ∙ e' ∙ e) (normalize_detail-CleanDetail hydrated)))))

  module _ (id : Text) where
    -- the detail that is kept is the one returned
    keep_detail-Yields : (d : AnimeDetail) → IsClean id d → Yields (IsClean id) (keep_detail s id d)
    unfolding keep_detail
    keep_detail-Yields d h =
        bind-Yields (IsClean id) (cache_set s.cache (catalog_key id) (detail d) (pos 0))
          (λ _. pure d) (λ _. pure-Yields (IsClean id) d h)

    keep_and_save-Yields :
        (d : AnimeDetail) → IsClean id d → Yields (IsClean id) (keep_and_save s id d)
    unfolding keep_and_save
    keep_and_save-Yields d h =
        bind-Yields (IsClean id) (keep_detail s id d >> save_detail s (details_of s.store) id d)
          (λ _. pure d) (λ _. pure-Yields (IsClean id) d h)

    saved-Yields :
        (d : AnimeDetail)
        → Offered id d
        → Yields (IsClean id) (polish s id d >>= keep_and_save s id)
    saved-Yields d from =
        chain-Yields (IsClean id) (CleanDetail d) (polish s id d) (keep_and_save s id)
          (polish-Yields id d) (λ p h. keep_and_save-Yields p (d, from, h))

    ask_detail-Yields : Yields (IsClean id) (ask_detail s id)
    unfolding ask_detail
    ask_detail-Yields =
        chain-Yields (IsClean id) (ProviderOffers id) (s.provider.catalog_detail id) _
          (λ w d e. (w, e)) (λ d from. saved-Yields d (inr (inr from)))

    -- what the database answers, with its errors
    abbrev Answered : DetailTable W → Result (Option AnimeDetail) → Type 0
    Answered table r = (w : W) × ((table.get_detail id w).0 ≡ r)

    detail_stored-Yields :
        (table : DetailTable W) (r : Result (Option AnimeDetail))
        → ((d : AnimeDetail) → r ≡ ok (some d) → Offered id d)
        → Yields (IsClean id) (detail_stored s id r)
    detail_stored-Yields table (ok (some d)) from = saved-Yields d (from d refl)
    detail_stored-Yields table (ok none) from = ask_detail-Yields
    detail_stored-Yields table (err e) from = ask_detail-Yields
    detail_stored-Yields table panic from = lift_panic-Yields (IsClean id)

    look_detail-Yields :
        (o : Option (DetailTable W))
        → ((d : AnimeDetail) → TableOffers o id d → Offered id d)
        → Yields (IsClean id) (look_detail s o id)
    look_detail-Yields none from = ask_detail-Yields
    look_detail-Yields (some table) from =
        chain-Yields (IsClean id) (Answered table) (attempt (table.get_detail id))
          (detail_stored s id) (attempt-Yields (table.get_detail id))
          (λ r (w, e). detail_stored-Yields table r (λ d k. from d (w, e ∙ k)))

    detail_kept-Yields :
        (o : Option AnimeDetail)
        → ((d : AnimeDetail) → o ≡ some d → Offered id d)
        → Yields (IsClean id) (detail_kept s id o)
    detail_kept-Yields none from = look_detail-Yields (details_of s.store) (λ d k. inr (inl k))
    detail_kept-Yields (some d) from =
        chain-Yields (IsClean id) (CleanDetail d) (polish s id d) (keep_detail s id)
          (polish-Yields id d) (λ p h. keep_detail-Yields p (d, from d refl, h))

    pub catalog-Yields : Yields (IsClean id) (catalog s id)
    unfolding catalog
    catalog-Yields =
        chain-Yields (IsClean id)
          (λ raw. (w : W) × ((cache_get s.cache (catalog_key id) w).0 ≡ ok raw))
          (cache_get s.cache (catalog_key id)) (λ raw. detail_kept s id (as_detail raw))
          (λ w raw e. (w, e))
          (λ raw (w, e). detail_kept-Yields (as_detail raw) (λ d k. inl (w, raw, e, k)))
