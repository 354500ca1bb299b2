-- ===== src/Store/Aliases.antt =====
-- EnsureAlias and ResolveAlias of internal/store/postgres/store.go: public identifiers in place of
-- internal ones. An alias row is its columns that the code reads.
pub mod Unique
use zero_nime.Base.{
  Option, none, some, M, Message, Result, ok, err, panic, pure, fail, lift, attempt, ◌>>=◌,
}
use zero_nime.Text.{Text}

-- IDAlias
pub record IdAlias : Type 0 where
  pub kind : Text
  pub internal_id : Text
  pub public_id : Text

-- The table of aliases, and newUUID.
pub record AliasTable (W : Type 0) : Type 0 where
  -- Where("kind = ? AND internal_id = ?", …).First
  pub find_internal : Text → Text → M W (Option IdAlias)
  -- Where("kind = ? AND public_id = ?", …).First
  pub find_public : Text → Text → M W (Option IdAlias)
  pub create_alias : IdAlias → M W (Unit {0})
  pub new_uuid : M W Text

module _ {W : Type 0} (t : AliasTable W) where
  -- the second lookup, after a row that could not be created
  abbrev pub alias_retried : Message → Result (Option IdAlias) → M W Text
  alias_retried e (ok (some row)) = pure row.public_id
  alias_retried e (ok none) = fail e
  alias_retried e (err _) = fail e
  alias_retried e panic = lift panic

  abbrev pub alias_created : Text → Text → Text → Result (Unit {0}) → M W Text
  alias_created kind internal_id public_id (ok _) = pure public_id
  alias_created kind internal_id public_id (err e) =
      attempt (t.find_internal kind internal_id) >>= alias_retried e
  alias_created kind internal_id public_id panic = lift panic

  abbrev pub alias_found : Text → Text → Option IdAlias → M W Text
  alias_found kind internal_id (some row) = pure row.public_id
  alias_found kind internal_id none = t.new_uuid >>= λ public_id.
      attempt
        (t.create_alias (record { kind = kind; internal_id = internal_id; public_id = public_id }))
      >>= alias_created kind internal_id public_id

  -- EnsureAlias
  unfoldable pub ensure_alias : Text → Text → M W Text
  ensure_alias kind internal_id = t.find_internal kind internal_id >>= alias_found kind internal_id

  abbrev pub alias_target : Option IdAlias → M W (Option Text)
  alias_target none = pure none
  alias_target (some row) = pure (some row.internal_id)

  -- ResolveAlias; `none` is `"", false, nil`
  unfoldable pub resolve_alias : Text → Text → M W (Option Text)
  resolve_alias kind public_id = t.find_public kind public_id >>= alias_target
