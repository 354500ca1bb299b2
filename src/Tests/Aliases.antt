-- ===== src/Tests/Aliases.antt =====
-- The theorems on aliases and public identifiers, applied to a table that is a list of rows.
use zero_nime.Base.{
  ℕ, ◌≡◌, refl, subst, ◌⊎◌, inl, inr, ◌≢◌, Bool, true, false, ◌&&◌, ◌||◌, Option, none, some, List,
  [], ◌∷◌, map, pos, Result, ok, err, Message, In, find_first, find_first-In, find_first-none,
  arith, panic, continue, recover, Survives,
}
use zero_nime.Domain.{AnimeCard, ContinueWatchingItem}
use zero_nime.Identifiers.{public_id, resolve_id, public_continue_watching}
use zero_nime.Identifiers.Keeps.{watching_view, public_continue_watching-KeepsView}
use zero_nime.Identifiers.RoundTrip.{IsPublicId, resolve_id-public_id}
use zero_nime.Store.Aliases.{
  IdAlias, alias_retried, alias_created, alias_found, AliasTable, ensure_alias,
}
use zero_nime.Store.Aliases.Unique.{IsAliasTable, WellFormed, Ensured, ensure_alias-Ensured}
use zero_nime.Store.Uuid.{uuid_text, hex, uuid_text-IsPublicId}
use zero_nime.Text.Laws.{eq_iff}
use zero_nime.Text.{Text, text, ◌==◌, trim_space, trim_by, drop_while, is_space}

abbrev Aliases : Type 0
Aliases = List IdAlias

abbrev by_internal : Text → Text → IdAlias → Bool
by_internal kind id r = r.kind == kind && r.internal_id == id

abbrev by_public : Text → Text → IdAlias → Bool
by_public kind id r = r.kind == kind && r.public_id == id

abbrev clashes : IdAlias → IdAlias → Bool
clashes r x = x.public_id == r.public_id || by_internal r.kind r.internal_id x

abbrev insert_unless : Option IdAlias → IdAlias → Aliases → Result (Unit {0}) × Aliases
insert_unless none r w = (ok tt, r ∷ w)
insert_unless (some _) r w = (err (text "duplicate key"), w)

abbrev sample_bytes : List ℕ
sample_bytes =
    0 ∷ 17 ∷ 34 ∷ 51 ∷ 68 ∷ 85 ∷ 102 ∷ 119 ∷ 136 ∷ 153 ∷ 170 ∷ 187 ∷ 204 ∷ 221 ∷ 238 ∷ 255 ∷ []

abbrev alias_list : AliasTable Aliases
alias_list = record {
  find_internal = λ kind id w. (ok (find_first (by_internal kind id) w), w);
  find_public = λ kind id w. (ok (find_first (by_public kind id) w), w);
  create_alias = λ r w. insert_unless (find_first (clashes r) w) r w;
  new_uuid = λ w. (ok (uuid_text sample_bytes), w);
}

abbrev Listed : Aliases → IdAlias → Type 0
Listed w r = In r w

uuid_text-IsPublicId_example : IsPublicId (uuid_text sample_bytes)
uuid_text-IsPublicId_example = uuid_text-IsPublicId sample_bytes (omega arith) refl

value_of : {A : Type 0} (a b : A) → ok a ≡ ok b → a ≡ b
value_of a b h = cc

both_true : (a b : Text) (c d : Text) → (a == b && c == d) ≡ true → (a ≡ b) × (c ≡ d)
both_true a b c d h = (ground (arith, eq_iff a b), ground (arith, eq_iff c d))

not_both : (a b c d : Text) → a ≡ b → c ≡ d → (a == b && c == d) ≡ false → ⊥
not_both a b c d h k f = let left = (eq_iff a b).1 h in let right = (eq_iff c d).1 k in ground arith

not_either : (a b : Text) (o : Bool) → a ≡ b → (a == b || o) ≡ false → ⊥
not_either a b o h f = let left = (eq_iff a b).1 h in ground arith

inserted :
    (o : Option IdAlias) (r x : IdAlias) (w : Aliases)
    → In x (insert_unless o r w).1
    → (((insert_unless o r w).0 ≡ ok tt) × (x ≡ r)) ⊎ In x w
inserted none r x w (inl e) = inl (refl, e)
inserted none r x w (inr m) = inr m
inserted (some _) r x w m = inr m

inserted_row :
    (o : Option IdAlias) (r : IdAlias) (w : Aliases)
    → (insert_unless o r w).0 ≡ ok tt
    → In r (insert_unless o r w).1
inserted_row none r w h = inl refl
inserted_row (some _) r w h = cc

inserted_new :
    (o : Option IdAlias) (r : IdAlias) (w : Aliases) → (insert_unless o r w).0 ≡ ok tt → o ≡ none
inserted_new none r w h = refl
inserted_new (some _) r w h = cc

alias_list-IsAliasTable : IsAliasTable Listed IsPublicId alias_list
alias_list-IsAliasTable = record {
  internal_some = λ kind id w r h.
      let (m, p) = find_first-In (by_internal kind id) w r (value_of _ _ h) in
      let (k, i) = both_true r.kind kind r.internal_id id p in (m, k, i);
  internal_keeps = λ kind id w. refl;
  public_some = λ kind id w r h.
      let (m, p) = find_first-In (by_public kind id) w r (value_of _ _ h) in
      let (k, i) = both_true r.kind kind r.public_id id p in (m, k, i);
  public_none = λ kind id w r h m k i.
      let other = find_first-none (by_public kind id) w r (value_of _ _ h) m in
      not_both r.kind kind r.public_id id k i other;
  create_rows = λ r x w m. inserted (find_first (clashes r) w) r x w m;
  create_row = λ r w h. inserted_row (find_first (clashes r) w) r w h;
  create_new = λ r x w h m e.
      let other =
        find_first-none (clashes r) w x (inserted_new (find_first (clashes r) w) r w h) m in
      not_either x.public_id r.public_id (by_internal r.kind r.internal_id x) e other;
  uuid_keeps = λ w x m. m;
  uuid_public = λ w p h. subst IsPublicId (value_of _ _ h) uuid_text-IsPublicId_example;
}

empty-WellFormed : WellFormed Listed IsPublicId alias_list alias_list-IsAliasTable []
empty-WellFormed = (λ x y m n e. elim m [ ], λ x m. elim m [ ])

abbrev given_alias : IdAlias
given_alias = record {
  kind = text "catalog";
  internal_id = text "otakudesu:one-piece";
  public_id = uuid_text sample_bytes;
}

ensure_alias-Ensured_example :
    Ensured Listed IsPublicId alias_list alias_list-IsAliasTable
      (text "catalog")
      (text "otakudesu:one-piece")
      (uuid_text sample_bytes)
      (given_alias ∷ [])
unfolding ensure_alias find_first
ensure_alias-Ensured_example =
    ensure_alias-Ensured Listed IsPublicId alias_list alias_list-IsAliasTable (text "catalog")
      (text "otakudesu:one-piece") (uuid_text sample_bytes) [] empty-WellFormed refl

given_found :
    (alias_list.find_public (text "catalog") (uuid_text sample_bytes) (given_alias ∷ [])).0
    ≡ ok (some given_alias)
unfolding ◌==◌ find_first uuid_text hex
given_found = refl

spaced_trimmed : trim_space (text " otakudesu:one-piece ") ≡ text "otakudesu:one-piece"
unfolding trim_space trim_by drop_while is_space
spaced_trimmed = refl

resolve_id-public_id_example :
    ((public_id alias_list (text "catalog") (text " otakudesu:one-piece ") []).0
      ≡ ok (uuid_text sample_bytes))
    × ((resolve_id alias_list
          (text "catalog")
          (uuid_text sample_bytes)
          (public_id alias_list (text "catalog") (text " otakudesu:one-piece ") []).1).0
        ≡ ok (trim_space (text " otakudesu:one-piece ")))
unfolding ensure_alias find_first trim_space trim_by drop_while is_space ◌==◌
resolve_id-public_id_example =
    resolve_id-public_id Listed alias_list alias_list-IsAliasTable (text "catalog")
      (text " otakudesu:one-piece ") (uuid_text sample_bytes) [] (some given_alias) empty-WellFormed
      refl refl given_found

retried-safe :
    (e : Message) (o : Option IdAlias) (w : Aliases)
    → (alias_retried alias_list e (ok o) w).0 ≢ panic
retried-safe e none w h = cc
retried-safe e (some r) w h = cc

created-safe :
    (kind id p : Text) (o : Option IdAlias) (r : IdAlias) (w : Aliases)
    → (continue
        (recover (insert_unless o r w).0)
        (alias_created alias_list kind id p)
        (insert_unless o r w).1).0
      ≢ panic
created-safe kind id p none r w h = cc
created-safe kind id p (some x) r w h = retried-safe _ (find_first (by_internal kind id) w) w h

found-safe :
    (kind id : Text) (o : Option IdAlias) (w : Aliases)
    → (alias_found alias_list kind id o w).0 ≢ panic
found-safe kind id (some r) w h = cc
found-safe kind id none w h = created-safe kind id (uuid_text sample_bytes) _ _ w h

alias_list-Survives : (kind id : Text) → Survives (ensure_alias alias_list kind id)
unfolding ensure_alias
alias_list-Survives kind id w = found-safe kind id (find_first (by_internal kind id) w) w

abbrev sample_card : AnimeCard
sample_card = record {
  id = text "otakudesu:one-piece";
  title = text "One Piece";
  cover_image = [];
  status_label = [];
  episode_label = [];
  rating_label = [];
  views_label = [];
  provider = text "otakudesu";
}

abbrev sample_watching : ContinueWatchingItem
sample_watching = record {
  catalog_id = text "otakudesu:one-piece";
  episode_id = text "otakudesu:one-piece-1";
  title = text "One Piece";
  cover_image = [];
  position_seconds = pos 90;
  updated_at = pos 7;
}

public_continue_watching-KeepsView_example :
    (items : List ContinueWatchingItem) × ((public_continue_watching alias_list
        (sample_watching ∷ [])
        []).0
      ≡ ok items)
    × (map watching_view items ≡ watching_view sample_watching ∷ [])
public_continue_watching-KeepsView_example =
    public_continue_watching-KeepsView alias_list alias_list-Survives (sample_watching ∷ []) []
