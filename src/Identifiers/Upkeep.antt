-- ===== src/Identifiers/Upkeep.antt =====
-- What resolve of internal/service/identifiers/service.go leaves of the world.
use zero_nime.Base.{
  Option, none, some, [], Result, ok, err, panic, ◌>>=◌, Preserves, pure-Preserves, bind-Preserves,
  if_cases,
}
use zero_nime.Domain.{parse_qualified_id}
use zero_nime.Identifiers.{resolve_id, resolve_parsed, resolved_alias}
use zero_nime.Store.Aliases.{AliasTable, IdAlias, resolve_alias, alias_target}
use zero_nime.Text.{Text, ◌==◌, trim_space}

module _ {W : Type 0} (P : W → Type 0) (t : AliasTable W)
    (lookups : (kind id : Text) → Preserves P (t.find_public kind id)) where
  alias_target-Preserves : (o : Option IdAlias) → Preserves P (alias_target t o)
  alias_target-Preserves none = λ w h. h
  alias_target-Preserves (some row) = λ w h. h

  resolved_alias-Preserves : (o : Option Text) → Preserves P (resolved_alias t o)
  resolved_alias-Preserves none = λ w h. h
  resolved_alias-Preserves (some id) = λ w h. h

  resolve_alias-Preserves :
      (kind id : Text) → Preserves P (resolve_alias t kind id >>= resolved_alias t)
  unfolding resolve_alias
  resolve_alias-Preserves kind id =
      bind-Preserves P (t.find_public kind id >>= alias_target t) (resolved_alias t)
        (bind-Preserves P (t.find_public kind id) (alias_target t) (lookups kind id)
          alias_target-Preserves)
        resolved_alias-Preserves

  resolve_parsed-Preserves :
      (kind trimmed : Text) (r : Result (Text × Text))
      → Preserves P (resolve_parsed t kind trimmed r)
  resolve_parsed-Preserves kind trimmed (ok x) = pure-Preserves P trimmed
  resolve_parsed-Preserves kind trimmed (err e) = resolve_alias-Preserves kind trimmed
  resolve_parsed-Preserves kind trimmed panic = λ w h. h

  -- resolving an identifier keeps what the lookups keep
  pub resolve_id-Preserves : (kind value : Text) → Preserves P (resolve_id t kind value)
  unfolding resolve_id
  resolve_id-Preserves kind value =
      if_cases (Preserves P) (trim_space value == []) _ _ (λ _ w h. h)
        (λ _.
          resolve_parsed-Preserves kind (trim_space value) (parse_qualified_id (trim_space value)))
