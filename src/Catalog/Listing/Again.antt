-- ===== src/Catalog/Listing/Again.antt =====
-- A list that was returned is returned again, without the provider, while the memory keeps it.
use zero_nime.Base.{
  ◌≡◌, refl, sym, ap, ◌∙◌, subst, Bool, Option, none, some, List, [], ◌∷◌, pos, Result, ok, err,
  panic, M, pure, attempt, ◌>>=◌, ◌>>◌, bind-ok, bind-inv, if_false, if_cases, if◌then◌else◌,
}
use zero_nime.Catalog.Clean.{clean_card, normalize_anime_cards, normalize_collection_page, is_score}
use zero_nime.Catalog.Listing.{
  Shape, DiscoveryTable, fetch_discovery, from_table, look_in_table, cleaned_or, discovery_call,
  save_discovery,
}
use zero_nime.Domain.{AnimeCard, CollectionPage}
use zero_nime.Memory.{Value, Cache, cache_set}
use zero_nime.Text.{Text, trim_space}

if_same : {A : Type 0} (b : Bool) (x : A) → (if b then x else x) ≡ x
if_same b x = if_cases (λ y. y ≡ x) b x x (λ _. refl) (λ _. refl)

clean_card_idem : (c : AnimeCard) → clean_card (clean_card c) ≡ clean_card c
unfolding clean_card
clean_card_idem c =
    if_cases
      (λ d.
        (if is_score (trim_space d.episode_label) then record d { episode_label = [] } else d) ≡ d)
      (is_score (trim_space c.episode_label)) _ _
      (λ _. if_same (is_score (trim_space [])) (record c { episode_label = [] }))
      (λ f. if_false (λ d. d ≡ c) (is_score (trim_space c.episode_label)) _ _ f refl)

pub normalize_anime_cards_idem :
    (cs : List AnimeCard)
    → normalize_anime_cards (normalize_anime_cards cs) ≡ normalize_anime_cards cs
unfolding normalize_anime_cards
normalize_anime_cards_idem [] = refl
normalize_anime_cards_idem (c ∷ cs) = cc (clean_card_idem c, normalize_anime_cards_idem cs)

pub normalize_collection_page_idem :
    (p : CollectionPage)
    → normalize_collection_page (normalize_collection_page p) ≡ normalize_collection_page p
unfolding normalize_collection_page
normalize_collection_page_idem p =
    ap (λ cs. record p { items = cs }) (normalize_anime_cards_idem p.items)

-- What was set is got back, while it has not expired, and no other call touches it.
pub record Remembers {W A : Type 0} (holds : W → Text → Option Value) (cache : Cache W)
    (shape : Shape A) (table : Option (DiscoveryTable W A)) : Type 0 where
  pub got : (k : Text) (w : W) → (cache.get k w).0 ≡ holds w k
  pub get_leaves : (k : Text) (w : W) → holds (cache.get k w).1 k ≡ holds w k
  pub set_holds : (k : Text) (v : Value) (w : W) → holds (cache.set k v (pos 0) w) k ≡ some v
  pub save_leaves :
      (k : Text) (v : A) (w : W) → holds (save_discovery cache shape table k v w).1 k ≡ holds w k
  pub unwraps : (v : A) → shape.unwrap (some (shape.wrap v)) ≡ some v
  pub cleans : (v : A) → shape.clean (shape.clean v) ≡ shape.clean v

module _ {W A : Type 0} (holds : W → Text → Option Value) (cache : Cache W) (shape : Shape A)
    (table : Option (DiscoveryTable W A)) (r : Remembers holds cache shape table) (key : Text) where
  -- the value is kept, and cleaning it changes nothing
  abbrev Kept : A → W → Type 0
  Kept v w = (u : A) × (shape.unwrap (holds w key) ≡ some u) × (shape.clean u ≡ v)

  kept_after_set :
      (v : A) (w : W) → Kept (shape.clean v) (cache.set key (shape.wrap (shape.clean v)) (pos 0) w)
  kept_after_set v w = (
    shape.clean v,
    ap shape.unwrap (r.set_holds key (shape.wrap (shape.clean v)) w) ∙ r.unwraps (shape.clean v),
    r.cleans v,
  )

  ok_value : {B : Type 0} (a b : B) → ok a ≡ ok b → a ≡ b
  ok_value a b h = cc

  -- the call keeps the value that it returns
  abbrev KeepsRun : M W A → Type 0
  KeepsRun m = (w : W) (v : A) → (m w).0 ≡ ok v → Kept v (m w).1

  bind-KeepsRun :
      {B : Type 0} (m : M W B) (f : B → M W A) → ((b : B) → KeepsRun (f b)) → KeepsRun (m >>= f)
  bind-KeepsRun m f keeps w v h =
      let (b, e, h') = bind-inv m f w v h in
      subst (λ x. Kept v x.1) (sym (bind-ok m f w b e)) (keeps b (m w).1 v h')

  -- the value is set, and then nothing touches it
  set_save-KeepsRun :
      (u : A)
      → KeepsRun (
          cache_set cache key (shape.wrap (shape.clean u)) (pos 0)
          >> save_discovery cache shape table key (shape.clean u)
          >> pure (shape.clean u))
  set_save-KeepsRun u w v h =
      let set : W = cache.set key (shape.wrap (shape.clean u)) (pos 0) w in
      let (_, e, h') =
        bind-inv
          (cache_set cache key (shape.wrap (shape.clean u)) (pos 0)
            >> save_discovery cache shape table key (shape.clean u))
          (λ _. pure (shape.clean u)) w v h in
      let run =
        bind-ok
          (cache_set cache key (shape.wrap (shape.clean u)) (pos 0)
            >> save_discovery cache shape table key (shape.clean u))
          (λ _. pure (shape.clean u)) w tt e in
      let (k, e', e'') = kept_after_set u w in
      subst (λ x. Kept v x.1) (sym run)
        (
          k,
          ap shape.unwrap (r.save_leaves key (shape.clean u) set) ∙ e',
          e'' ∙ ok_value (shape.clean u) v h',
        )

  fetch_discovery-KeepsRun : (ask : M W A) → KeepsRun (fetch_discovery cache shape table key ask)
  unfolding fetch_discovery
  fetch_discovery-KeepsRun ask = bind-KeepsRun ask _ set_save-KeepsRun

  from_table-KeepsRun :
      (next : M W A) (o : Result (Option A))
      → KeepsRun next
      → KeepsRun (from_table cache shape key next o)
  from_table-KeepsRun next (ok none) h = h
  from_table-KeepsRun next (err e) h = h
  from_table-KeepsRun next panic h = λ w v e. cc
  from_table-KeepsRun next (ok (some u)) h = λ w v e.
      subst (λ x. Kept x (cache.set key (shape.wrap (shape.clean u)) (pos 0) w))
        (ok_value (shape.clean u) v e) (kept_after_set u w)

  look_in_table-KeepsRun :
      (o : Option (DiscoveryTable W A)) (next : M W A)
      → KeepsRun next
      → KeepsRun (look_in_table cache shape o key next)
  look_in_table-KeepsRun none next h = h
  look_in_table-KeepsRun (some t) next h =
      bind-KeepsRun (attempt (t.get_discovery key)) (from_table cache shape key next)
        (λ o. from_table-KeepsRun next o h)

  discovery_call-Kept :
      (ask : M W A) (w : W) (v : A)
      → (discovery_call cache shape table key ask w).0 ≡ ok v
      → Kept v (discovery_call cache shape table key ask w).1
  unfolding discovery_call
  discovery_call-Kept ask w v h = from (shape.unwrap (cache.get key w).0) refl h
    where
      from :
          (o : Option A)
          → shape.unwrap (cache.get key w).0 ≡ o
          → (cleaned_or cache shape o
              (look_in_table cache shape table key (fetch_discovery cache shape table key ask))
              (cache.get key w).1).0
            ≡ ok v
          → Kept v
              (cleaned_or cache shape o
                (look_in_table cache shape table key (fetch_discovery cache shape table key ask))
                (cache.get key w).1).1
      from none e h =
          look_in_table-KeepsRun table (fetch_discovery cache shape table key ask)
            (fetch_discovery-KeepsRun ask) (cache.get key w).1 v h
      from (some u) e h = (
        u,
        ap shape.unwrap (r.get_leaves key w ∙ sym (r.got key w)) ∙ e,
        ok_value (shape.clean u) v h,
      )

  repeated :
      (again : M W A) (after : W) (u v : A)
      → shape.unwrap (cache.get key after).0 ≡ some u
      → shape.clean u ≡ v
      → discovery_call cache shape table key again after ≡ (ok v, (cache.get key after).1)
  unfolding discovery_call
  repeated again after u v e e' =
      subst
        (λ o.
          cleaned_or cache shape o
            (look_in_table cache shape table key (fetch_discovery cache shape table key again))
            (cache.get key after).1
          ≡ (ok v, (cache.get key after).1))
        (sym e) (ap (λ x. (ok x, (cache.get key after).1)) e')

  -- A discovery page or list that was returned is returned again by the next request of the same
  -- key, which asks neither the database nor the provider, if the memory and the database behave as
  -- `Remembers` says.
  pub discovery_call-again :
      (ask again : M W A) (w : W) (v : A)
      → (discovery_call cache shape table key ask w).0 ≡ ok v
      → discovery_call cache shape table key again (discovery_call cache shape table key ask w).1
        ≡ (ok v, (cache.get key (discovery_call cache shape table key ask w).1).1)
  discovery_call-again ask again w v h =
      let after : W = (discovery_call cache shape table key ask w).1 in
      let (u, e, e') = discovery_call-Kept ask w v h in
      repeated again after u v (ap shape.unwrap (r.got key after) ∙ e) e'
