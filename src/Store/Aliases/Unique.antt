-- ===== src/Store/Aliases/Unique.antt =====
-- A public identifier stands for one internal identifier, and is resolved to it.
use zero_nime.Base.{
  ◌≡◌, refl, sym, ap, ◌∙◌, subst, ◌⊎◌, inl, inr, ◌≢◌, Option, none, some, Result, ok, err, panic,
  Message, attempt, recover, ◌>>=◌, bind-ok, bind-inv, attempt-ok, attempt-err, continue,
}
use zero_nime.Store.Aliases.{
  IdAlias, AliasTable, alias_retried, alias_created, alias_found, alias_target, ensure_alias,
  resolve_alias,
}
use zero_nime.Text.{Text}

-- `Row w r`: the row is in the table. What the database promises: a lookup finds a row of the
-- table or says that there is none, and the unique indexes on the kind and internal identifier and
-- on the public identifier refuse a row that would break them.
pub record IsAliasTable {W : Type 0} (Row : W → IdAlias → Type 0) (Public : Text → Type 0)
    (t : AliasTable W) : Type 0 where
  pub internal_some :
      (kind id : Text) (w : W) (r : IdAlias)
      → (t.find_internal kind id w).0 ≡ ok (some r)
      → Row w r × (r.kind ≡ kind) × (r.internal_id ≡ id)
  pub internal_keeps : (kind id : Text) (w : W) → (t.find_internal kind id w).1 ≡ w
  pub public_some :
      (kind id : Text) (w : W) (r : IdAlias)
      → (t.find_public kind id w).0 ≡ ok (some r)
      → Row w r × (r.kind ≡ kind) × (r.public_id ≡ id)
  pub public_none :
      (kind id : Text) (w : W) (r : IdAlias)
      → (t.find_public kind id w).0 ≡ ok none
      → Row w r
      → r.kind ≡ kind
      → r.public_id ≢ id
  pub create_rows :
      (r x : IdAlias) (w : W)
      → Row (t.create_alias r w).1 x
      → (((t.create_alias r w).0 ≡ ok tt) × (x ≡ r)) ⊎ Row w x
  pub create_row :
      (r : IdAlias) (w : W) → (t.create_alias r w).0 ≡ ok tt → Row (t.create_alias r w).1 r
  pub create_new :
      (r x : IdAlias) (w : W) → (t.create_alias r w).0 ≡ ok tt → Row w x → x.public_id ≢ r.public_id
  pub uuid_keeps : (w : W) (x : IdAlias) → Row (t.new_uuid w).1 x → Row w x
  pub uuid_public : (w : W) (p : Text) → (t.new_uuid w).0 ≡ ok p → Public p

same_alias :
    (r : IdAlias) (kind id p : Text)
    → r.kind ≡ kind
    → r.internal_id ≡ id
    → r.public_id ≡ p
    → r ≡ record { kind = kind; internal_id = id; public_id = p }
same_alias r kind id p k i e = cc

recover-inv : {A : Type 0} (r : Result A) (a : A) → recover r ≡ ok (ok a) → r ≡ ok a
recover-inv (ok b) a h = cc
recover-inv (err e) a h = cc
recover-inv panic a h = cc

ok_value : {A : Type 0} (a b : A) → ok a ≡ ok b → a ≡ b
ok_value a b h = cc

module _ {W : Type 0} (Row : W → IdAlias → Type 0) (Public : Text → Type 0) (t : AliasTable W)
    (table : IsAliasTable Row Public t) where
  -- Rows with the same public identifier are the same, and each is a public identifier.
  abbrev pub WellFormed : W → Type 0
  WellFormed w =
      ((x y : IdAlias) → Row w x → Row w y → x.public_id ≡ y.public_id → x ≡ y)
      × ((x : IdAlias) → Row w x → Public x.public_id)

  fewer-WellFormed : (w v : W) → ((x : IdAlias) → Row v x → Row w x) → WellFormed w → WellFormed v
  fewer-WellFormed w v sub (unique, public) =
      (λ x y m n e. unique x y (sub x m) (sub y n) e, λ x m. public x (sub x m))

  create-WellFormed :
      (r : IdAlias) (w : W) → Public r.public_id → WellFormed w → WellFormed (t.create_alias r w).1
  create-WellFormed r w p (unique, public) = (
    λ x y m n e. same x y (table.create_rows r x w m) (table.create_rows r y w n) e,
    λ x m. named x (table.create_rows r x w m),
  )
    where
      same :
          (x y : IdAlias)
          → (((t.create_alias r w).0 ≡ ok tt) × (x ≡ r)) ⊎ Row w x
          → (((t.create_alias r w).0 ≡ ok tt) × (y ≡ r)) ⊎ Row w y
          → x.public_id ≡ y.public_id
          → x ≡ y
      same x y (inl (_, h)) (inl (_, k)) e = h ∙ sym k
      same x y (inl (done, h)) (inr n) e =
          absurd (table.create_new r y w done n (sym e ∙ ap (λ (z : IdAlias). z.public_id) h))
      same x y (inr m) (inl (done, k)) e =
          absurd (table.create_new r x w done m (e ∙ ap (λ (z : IdAlias). z.public_id) k))
      same x y (inr m) (inr n) e = unique x y m n e

      named :
          (x : IdAlias)
          → (((t.create_alias r w).0 ≡ ok tt) × (x ≡ r)) ⊎ Row w x
          → Public x.public_id
      named x (inl (_, h)) = subst (λ (z : IdAlias). Public z.public_id) (sym h) p
      named x (inr m) = public x m

  -- EnsureAlias gave `p`: the table is well formed and has the row.
  abbrev pub Ensured : Text → Text → Text → W → Type 0
  Ensured kind id p w =
      WellFormed w × Row w (record { kind = kind; internal_id = id; public_id = p })

  found-Ensured :
      (kind id p : Text) (w : W) (r : IdAlias)
      → (t.find_internal kind id w).0 ≡ ok (some r)
      → r.public_id ≡ p
      → WellFormed w
      → Ensured kind id p (t.find_internal kind id w).1
  found-Ensured kind id p w r h e form =
      let (m, k, i) = table.internal_some kind id w r h in
      let same : r ≡ record { kind = kind; internal_id = id; public_id = p } =
        same_alias r kind id p k i e in
      subst (Ensured kind id p) (sym (table.internal_keeps kind id w)) (form, subst (Row w) same m)

  retried-Ensured :
      (kind id p : Text) (e : Message) (w : W) (o : Result (Option IdAlias))
      → WellFormed w
      → (t.find_internal kind id w).0 ≡ o
      → ((attempt (t.find_internal kind id) >>= alias_retried t e) w).0 ≡ ok p
      → Ensured kind id p ((attempt (t.find_internal kind id) >>= alias_retried t e) w).1
  retried-Ensured kind id p e w (ok (some r)) form found h =
      let run = attempt-ok (t.find_internal kind id) (alias_retried t e) w (some r) found in
      subst (λ x. Ensured kind id p x.1) (sym run)
        (found-Ensured kind id p w r found (ok_value r.public_id p (sym (ap (λ x. x.0) run) ∙ h))
          form)
  retried-Ensured kind id p e w (ok none) form found h =
      let run = attempt-ok (t.find_internal kind id) (alias_retried t e) w none found in cc
  retried-Ensured kind id p e w (err e') form found h =
      let run = attempt-err (t.find_internal kind id) (alias_retried t e) w e' found in cc
  retried-Ensured kind id p e w panic form found h = cc (
      ap (λ r. (continue (recover r) (alias_retried t e) (t.find_internal kind id w).1).0)
        (sym found)
      ∙ h)

  created-Ensured :
      (kind id q p : Text) (o : Result (Unit {0})) (w : W)
      → WellFormed w
      → (o ≡ ok tt → Row w (record { kind = kind; internal_id = id; public_id = q }))
      → (alias_created t kind id q o w).0 ≡ ok p
      → Ensured kind id p (alias_created t kind id q o w).1
  created-Ensured kind id q p (ok _) w form there h = (
    form,
    subst (λ z. Row w (record { kind = kind; internal_id = id; public_id = z })) (ok_value q p h)
        (there refl),
  )
  created-Ensured kind id q p (err e) w form there h =
      retried-Ensured kind id p e w (t.find_internal kind id w).0 form refl h
  created-Ensured kind id q p panic w form there h = cc

  make-Ensured :
      (kind id p : Text) (w : W)
      → WellFormed w
      → (alias_found t kind id none w).0 ≡ ok p
      → Ensured kind id p (alias_found t kind id none w).1
  make-Ensured kind id p w form h =
      let (q, e, h') = bind-inv t.new_uuid _ w p h in
      let row : IdAlias = record { kind = kind; internal_id = id; public_id = q } in
      let v : W = (t.new_uuid w).1 in
      let (o, e', h'') =
        bind-inv (attempt (t.create_alias row)) (alias_created t kind id q) v p h' in
      let ran : alias_found t kind id none w
          ≡ alias_created t kind id q o (t.create_alias row v).1 =
        bind-ok t.new_uuid _ w q e
        ∙ bind-ok (attempt (t.create_alias row)) (alias_created t kind id q) v o e' in
      subst (λ x. Ensured kind id p x.1) (sym ran)
        (created-Ensured kind id q p o (t.create_alias row v).1
          (create-WellFormed row v (table.uuid_public w q e)
            (fewer-WellFormed w v (table.uuid_keeps w) form))
          (λ done.
            table.create_row row v (recover-inv (t.create_alias row v).0 tt (e' ∙ ap ok done)))
          h'')

  -- EnsureAlias keeps the public identifiers unique, and the one it returns is that of a row of
  -- the table for the internal identifier.
  pub ensure_alias-Ensured :
      (kind id p : Text) (w : W)
      → WellFormed w
      → (ensure_alias t kind id w).0 ≡ ok p
      → Ensured kind id p (ensure_alias t kind id w).1
  unfolding ensure_alias
  ensure_alias-Ensured kind id p w form h =
      let (o, e, h') = bind-inv (t.find_internal kind id) (alias_found t kind id) w p h in
      subst (λ x. Ensured kind id p x.1)
        (sym (bind-ok (t.find_internal kind id) (alias_found t kind id) w o e)) (outcome o e h')
    where
      outcome :
          (o : Option IdAlias)
          → (t.find_internal kind id w).0 ≡ ok o
          → (alias_found t kind id o (t.find_internal kind id w).1).0 ≡ ok p
          → Ensured kind id p (alias_found t kind id o (t.find_internal kind id w).1).1
      outcome (some r) e h = found-Ensured kind id p w r e (ok_value r.public_id p h) form
      outcome none e h =
          make-Ensured kind id p (t.find_internal kind id w).1
            (subst WellFormed (sym (table.internal_keeps kind id w)) form) h

  -- A public identifier that EnsureAlias returned is resolved to the internal one, whenever the
  -- database answers the lookup.
  pub resolve_alias-ensure_alias :
      (kind id p : Text) (w : W) (o : Option IdAlias)
      → WellFormed w
      → (ensure_alias t kind id w).0 ≡ ok p
      → (t.find_public kind p (ensure_alias t kind id w).1).0 ≡ ok o
      → (resolve_alias t kind p (ensure_alias t kind id w).1).0 ≡ ok (some id)
  unfolding resolve_alias
  resolve_alias-ensure_alias kind id p w o form h found =
      let v : W = (ensure_alias t kind id w).1 in
      let ((unique, _), row) = ensure_alias-Ensured kind id p w form h in
      ap (λ x. x.0) (bind-ok (t.find_public kind p) (alias_target t) v o found)
      ∙ target o found unique row
    where
      target :
          (o : Option IdAlias)
          → (t.find_public kind p (ensure_alias t kind id w).1).0 ≡ ok o
          → ((x y : IdAlias)
              → Row (ensure_alias t kind id w).1 x
              → Row (ensure_alias t kind id w).1 y
              → x.public_id ≡ y.public_id
              → x ≡ y)
          → Row
              (ensure_alias t kind id w).1
              (record { kind = kind; internal_id = id; public_id = p })
          → (alias_target t o (t.find_public kind p (ensure_alias t kind id w).1).1).0
            ≡ ok (some id)
      target none found unique row = absurd (table.public_none kind p _ _ found row refl refl)
      target (some r) found unique row =
          let (m, _, e) = table.public_some kind p _ r found in
          ap (λ (z : IdAlias). ok (some z.internal_id)) (unique r _ m row e)
