-- ===== src/Identifiers/RoundTrip.antt =====
-- A public identifier is resolved to the internal one that it was made for.
use zero_nime.Base.{
  ◌≡◌, sym, ap, subst, [], Option, some, ok, err, Message, M, bind-ok, attempt-ok, if_false, false,
  fail, if◌then◌else◌,
}
use zero_nime.Domain.{parse_qualified_id, err_invalid_identifier}
use zero_nime.Identifiers.{public_id, public_or, resolve_id, resolve_parsed, resolved_alias}
use zero_nime.Store.Aliases.{IdAlias, AliasTable, ensure_alias, resolve_alias}
use zero_nime.Store.Aliases.Unique.{
  IsAliasTable, WellFormed, ensure_alias-Ensured, resolve_alias-ensure_alias,
}
use zero_nime.Text.{Text, ◌==◌, trim_space}

-- A public identifier: no spaces around it, not empty, and not qualified.
pub record IsPublicId (p : Text) : Type 0 where
  pub trimmed : trim_space p ≡ p
  pub non_empty : (p == []) ≡ false
  pub unqualified : (e : Message) × (parse_qualified_id p ≡ err e)

module _ {W : Type 0} (Row : W → IdAlias → Type 0) (t : AliasTable W)
    (table : IsAliasTable Row IsPublicId t) where
  public_id-run :
      (kind id p : Text) (w : W)
      → (trim_space id == []) ≡ false
      → (ensure_alias t kind (trim_space id) w).0 ≡ ok p
      → public_id t kind id w ≡ (ok p, (ensure_alias t kind (trim_space id) w).1)
  unfolding public_id
  public_id-run kind id p w named h =
      if_false {A = M W Text} (λ m. m w ≡ (ok p, (ensure_alias t kind (trim_space id) w).1))
        (trim_space id == []) _ _ named
        (attempt-ok (ensure_alias t kind (trim_space id)) (public_or t (trim_space id)) w p h)

  resolve_id-run :
      (kind p id : Text) (w : W)
      → IsPublicId p
      → (resolve_alias t kind p w).0 ≡ ok (some id)
      → (resolve_id t kind p w).0 ≡ ok id
  unfolding resolve_id
  resolve_id-run kind p id w public h =
      let (e, parsed) = public.unqualified in
      subst
        (λ q.
          ((if q == []
              then fail err_invalid_identifier
              else resolve_parsed t kind q (parse_qualified_id q))
            w).0
          ≡ ok id)
        (sym public.trimmed)
        (if_false {A = M W Text} (λ m. (m w).0 ≡ ok id) (p == []) _ _ public.non_empty
          (subst (λ r. (resolve_parsed t kind p r w).0 ≡ ok id) (sym parsed)
            (ap (λ x. x.0) (bind-ok (resolve_alias t kind p) (resolved_alias t) w (some id) h))))

  -- The public identifier that is given out for an internal one is resolved to the internal one,
  -- without the spaces around it, when the database accepts the alias and answers the lookup.
  pub resolve_id-public_id :
      (kind id p : Text) (w : W) (o : Option IdAlias)
      → WellFormed Row IsPublicId t table w
      → (trim_space id == []) ≡ false
      → (ensure_alias t kind (trim_space id) w).0 ≡ ok p
      → (t.find_public kind p (ensure_alias t kind (trim_space id) w).1).0 ≡ ok o
      → ((public_id t kind id w).0 ≡ ok p)
        × ((resolve_id t kind p (public_id t kind id w).1).0 ≡ ok (trim_space id))
  resolve_id-public_id kind id p w o form named h found =
      let run = public_id-run kind id p w named h in
      let ((_, public), row) =
        ensure_alias-Ensured Row IsPublicId t table kind (trim_space id) p w form h in
      (
        ap (λ x. x.0) run,
        subst (λ x. (resolve_id t kind p x.1).0 ≡ ok (trim_space id)) (sym run)
            (resolve_id-run kind p (trim_space id) (ensure_alias t kind (trim_space id) w).1
              (public _ row)
              (resolve_alias-ensure_alias Row IsPublicId t table kind (trim_space id) p w o form h
                found)),
      )
