-- ===== src/Library/Complete.antt =====
-- The list of what a client goes on watching is complete when the provider answers.
use zero_nime.Base.{
  ◌≡◌, refl, sym, ap, ◌∙◌, subst, ◌⊎◌, inl, inr, ℕ, Option, none, some, List, [], ◌∷◌, map, ok, M,
  In, bind-ok, attempt-ok, if_cases, if_true,
}
use zero_nime.Domain.{AnimeDetail, ContinueWatchingItem}
use zero_nime.Library.Watching.{
  DistinctRows, HasMeta, Shown, KnownOrMissing, missing_from-covers, Known-Shown, fetched-Shown,
}
use zero_nime.Library.{
  lookup, collect_missing, missing_from, watching_item, build_items, with_detail, fetch_details,
  continue_watching,
}
use zero_nime.Store.Clients.{Watchlist, WatchHistory, ClientTables}
use zero_nime.Text.Laws.{eq_refl}
use zero_nime.Text.{Text, ◌==◌, member}

-- The function has a detail with a title and a cover under the key.
abbrev pub Finds : (Text → Option AnimeDetail) → Text → Type 0
Finds fallback k =
    (detail : AnimeDetail) × (fallback k ≡ some detail) × HasMeta detail.title detail.cover_image

module _ {W : Type 0} (t : ClientTables W) (catalog : Text → M W AnimeDetail) where
  -- The provider answers every request with a title and a cover.
  abbrev pub Answers : Type 0
  Answers =
      (id : Text) (w : W)
      → (detail : AnimeDetail) × ((catalog id w).0 ≡ ok detail)
        × HasMeta detail.title detail.cover_image

  with_detail-keeps :
      (id k : Text) (detail : AnimeDetail) (fallback : Text → Option AnimeDetail)
      → HasMeta detail.title detail.cover_image
      → Finds fallback k
      → Finds (with_detail t catalog id detail fallback) k
  with_detail-keeps id k detail fallback meta (d, e, h) =
      if_cases (λ o. (x : AnimeDetail) × (o ≡ some x) × HasMeta x.title x.cover_image) (id == k) _ _
        (λ _. (detail, refl, meta)) (λ _. (d, e, h))

  with_detail-finds :
      (id : Text) (detail : AnimeDetail) (fallback : Text → Option AnimeDetail)
      → HasMeta detail.title detail.cover_image
      → Finds (with_detail t catalog id detail fallback) id
  with_detail-finds id detail fallback meta =
      if_true (λ o. (x : AnimeDetail) × (o ≡ some x) × HasMeta x.title x.cover_image) (id == id) _ _
        (eq_refl id) (detail, refl, meta)

  fetch_details-finds :
      (fallback : Text → Option AnimeDetail) (ids : List Text) (w : W)
      → Answers
      → (found : Text → Option AnimeDetail) × ((fetch_details t catalog fallback ids w).0
          ≡ ok found)
        × ((k : Text) → In k ids ⊎ Finds fallback k → Finds found k)
  unfolding fetch_details
  fetch_details-finds fallback [] w answers =
      (fallback, refl, λ k c. elim c [ inl m ↦ elim m [ ] | inr f ↦ f ])
  fetch_details-finds fallback (id ∷ ids) w answers =
      let (detail, e, meta) = answers id w in
      let more : Text → Option AnimeDetail = with_detail t catalog id detail fallback in
      let (found, e', h) = fetch_details-finds more ids (catalog id w).1 answers in
      (
        found,
        ap (λ x. x.0) (attempt-ok (catalog id) _ w detail e) ∙ e',
        λ k c. h k (elim c [
          | inl m ↦ elim m [
            | inl same ↦
                inr (subst (Finds more) (sym same) (with_detail-finds id detail fallback meta))
            | inr m' ↦ inl m'
          ]
          | inr f ↦ inr (with_detail-keeps id k detail fallback meta f)
        ]),
      )

  map-Shown :
      (f : WatchHistory → ContinueWatchingItem) (rows : List WatchHistory)
      → ((row : WatchHistory) → In row rows → Shown (f row))
      → (item : ContinueWatchingItem) → In item (map f rows)
      → Shown item
  map-Shown f [] h item m = elim m [ ]
  map-Shown f (row ∷ rows) h item (inl e) = subst Shown (sym e) (h row (inl refl))
  map-Shown f (row ∷ rows) h item (inr m) = map-Shown f rows (λ r n. h r (inr n)) item m

  row-Shown :
      (history : List WatchHistory) (watchlist : List Watchlist)
      (fallback : Text → Option AnimeDetail)
      → DistinctRows history
      → ((k : Text) → In k (collect_missing history watchlist) → Finds fallback k)
      → (row : WatchHistory) → In row history
      → Shown (watching_item (lookup watchlist) fallback row)
  unfolding collect_missing member
  row-Shown history watchlist fallback distinct finds row m =
      outcome (missing_from-covers (lookup watchlist) [] history row distinct refl m)
    where
      outcome :
          KnownOrMissing (lookup watchlist) row (missing_from (lookup watchlist) [] history)
          → Shown (watching_item (lookup watchlist) fallback row)
      outcome (inl known) = Known-Shown (lookup watchlist) fallback row known
      outcome (inr n) =
          let (detail, e, meta) = finds row.catalog_id n in
          fetched-Shown (lookup watchlist) fallback row detail e meta

  -- ContinueWatching of a client whose history has one row for each catalog identifier returns a
  -- list in which every item shows a title and a cover, if the database returns both lists and the
  -- provider answers every request with a title and a cover.
  pub continue_watching-Shown :
      (client_id : ℕ) (w : W) (history : List WatchHistory) (watchlist : List Watchlist)
      → Answers
      → DistinctRows history
      → (t.history_of client_id w).0 ≡ ok history
      → (t.watchlist_of client_id (t.history_of client_id w).1).0 ≡ ok watchlist
      → (items : List ContinueWatchingItem) × ((continue_watching t catalog client_id w).0
          ≡ ok items)
        × ((item : ContinueWatchingItem) → In item items → Shown item)
  unfolding continue_watching build_items
  continue_watching-Shown client_id w history watchlist answers distinct h k =
      let v : W = (t.watchlist_of client_id (t.history_of client_id w).1).1 in
      let (found, e, finds) =
        fetch_details-finds (λ _. none) (collect_missing history watchlist) v answers in
      (
        build_items history watchlist found,
        ap (λ x. x.0)
            (bind-ok (t.history_of client_id) _ w history h
              ∙ bind-ok (t.watchlist_of client_id) _ (t.history_of client_id w).1 watchlist k
              ∙ bind-ok (fetch_details t catalog (λ _. none) (collect_missing history watchlist)) _
                  v found e),
        map-Shown (watching_item (lookup watchlist) found) history
            (row-Shown history watchlist found distinct (λ j m. finds j (inl m))),
      )
