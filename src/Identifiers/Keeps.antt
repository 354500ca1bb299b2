-- ===== src/Identifiers/Keeps.antt =====
-- Giving out public identifiers leaves everything else of an item as it is, and cannot fail.
use zero_nime.Base.{
  ◌≡◌, refl, ap, [], ◌∷◌, map, ℤ, not, Result, ok, err, panic, M, attempt, ◌>>=◌, Returns, Survives,
  pure-Returns, bind-ok, if_cases, ◌∙◌, recover, ◌≢◌, continue,
}
use zero_nime.Domain.{AnimeCard, ContinueWatchingItem}
use zero_nime.Identifiers.{
  public_id, public_or, catalog_field, episode_field, clone_each, public_anime_card,
  public_anime_cards, public_watching_item, public_continue_watching, kind_catalog, kind_episode,
}
use zero_nime.Store.Aliases.{AliasTable, ensure_alias}
use zero_nime.Text.{Text, ◌==◌, trim_space}

-- The function returns, and keeps what `view` shows of its argument.
abbrev pub KeepsView : {W A B : Type 0} → (A → B) → (A → M W A) → Type 0
KeepsView {W} {A} view f = (x : A) (w : W) → (y : A) × ((f x w).0 ≡ ok y) × (view y ≡ view x)

-- all of a card but its identifier
abbrev pub card_view : AnimeCard → Text × Text × Text × Text × Text × Text × Text
card_view c = (
  c.title, c.cover_image, c.status_label, c.episode_label, c.rating_label, c.views_label,
  c.provider,
)

abbrev pub watching_view : ContinueWatchingItem → Text × Text × ℤ × ℤ
watching_view i = (i.title, i.cover_image, i.position_seconds, i.updated_at)

clone_each-KeepsView :
    {W A B : Type 0} (view : A → B) (f : A → M W A)
    → KeepsView view f
    → KeepsView (map view) (clone_each f)
unfolding clone_each
clone_each-KeepsView view f keeps [] w = ([], refl, refl)
clone_each-KeepsView view f keeps (x ∷ xs) w =
    let (y, e, h) = keeps x w in
    let (ys, e', h') = clone_each-KeepsView view f keeps xs (f x w).1 in
    (
      y ∷ ys,
      ap (λ r. r.0) (bind-ok (f x) _ w y e ∙ bind-ok (clone_each f xs) _ (f x w).1 ys e'),
      ap (λ b. b ∷ map view ys) h ∙ ap (λ bs. view x ∷ bs) h',
    )

module _ {W : Type 0} (t : AliasTable W)
    (safe : (kind id : Text) → Survives (ensure_alias t kind id)) where
  public_or-Returns :
      (kind trimmed : Text)
      → Returns (attempt (ensure_alias t kind trimmed) >>= public_or t trimmed)
  public_or-Returns kind trimmed w = outcome (ensure_alias t kind trimmed w).0 (safe kind trimmed w)
    where
      outcome :
          (r : Result Text)
          → r ≢ panic
          → (p : Text) × ((continue
                (recover r)
                (public_or t trimmed)
                (ensure_alias t kind trimmed w).1).0
              ≡ ok p)
      outcome (ok p) h = (p, refl)
      outcome (err e) h = (trimmed, refl)
      outcome panic h = absurd (h refl)

  public_id-Returns : (kind id : Text) → Returns (public_id t kind id)
  unfolding public_id
  public_id-Returns kind id =
      if_cases Returns (trim_space id == []) _ _ (λ _. pure-Returns [])
        (λ _. public_or-Returns kind (trim_space id))

  catalog_field-Returns : (id : Text) → Returns (catalog_field t id)
  unfolding catalog_field
  catalog_field-Returns id =
      if_cases Returns (not (id == [])) _ _ (λ _. public_id-Returns kind_catalog id)
        (λ _. pure-Returns id)

  episode_field-Returns : (id : Text) → Returns (episode_field t id)
  unfolding episode_field
  episode_field-Returns id =
      if_cases Returns (not (id == [])) _ _ (λ _. public_id-Returns kind_episode id)
        (λ _. pure-Returns id)

  public_anime_card-KeepsView : KeepsView card_view (public_anime_card t)
  unfolding public_anime_card
  public_anime_card-KeepsView c w =
      let (id, e) = catalog_field-Returns c.id w in
      (record c { id = id }, ap (λ r. r.0) (bind-ok (catalog_field t c.id) _ w id e), refl)

  -- PublicAnimeCards returns as many cards as it is given, in their order and with everything but
  -- the identifiers as it was, whatever errors the database returns, if it does not panic.
  pub public_anime_cards-KeepsView : KeepsView (map card_view) (public_anime_cards t)
  unfolding public_anime_cards
  public_anime_cards-KeepsView =
      clone_each-KeepsView card_view (public_anime_card t) public_anime_card-KeepsView

  public_watching_item-KeepsView : KeepsView watching_view (public_watching_item t)
  unfolding public_watching_item
  public_watching_item-KeepsView i w =
      let (c, e) = catalog_field-Returns i.catalog_id w in
      let (p, e') = episode_field-Returns i.episode_id (catalog_field t i.catalog_id w).1 in
      (
        record i { catalog_id = c; episode_id = p },
        ap (λ r. r.0)
            (bind-ok (catalog_field t i.catalog_id) _ w c e
              ∙ bind-ok (episode_field t i.episode_id) _ (catalog_field t i.catalog_id w).1 p e'),
        refl,
      )

  -- PublicContinueWatching returns as many items as it is given, in their order and with everything
  -- but the identifiers as it was, whatever errors the database returns, if it does not panic.
  pub public_continue_watching-KeepsView :
      KeepsView (map watching_view) (public_continue_watching t)
  unfolding public_continue_watching
  public_continue_watching-KeepsView =
      clone_each-KeepsView watching_view (public_watching_item t) public_watching_item-KeepsView
