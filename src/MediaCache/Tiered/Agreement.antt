-- ===== src/MediaCache/Tiered/Agreement.antt =====
-- A tiered store against the table of its remote store.
use mathlib.Core.Option.{some-injective}
use zero_nime.Base.{
  ◌≡◌, ap, sym, subst, ◌∙◌, Option, none, some, arith, ok, err, Message, inl, inr, if◌then◌else◌,
  Option-cases, attempt-ok, attempt-err, bind-ok, bind-err, pure, continue,
}
use zero_nime.Http.{Bytes}
use zero_nime.MediaCache.{BlobStore}
use zero_nime.MediaCache.Blobs.{Table, IsBlobStore, LeavesAlone}
use zero_nime.MediaCache.Tiered.{
  TieredStore, put_remote, put_local, tiered_put, get_remote, tiered_get,
}
use zero_nime.Text.{Text}
use zero_nime.Text.Laws.{eq_iff, eq_refl}

-- The local store holds nothing but what the remote store holds.
abbrev pub Agrees : {W : Type 0} → Table W → Table W → W → Type 0
Agrees near far w = (k : Text) (b : Bytes) → near w k ≡ some b → far w k ≡ some b

pub record IsTiered {W : Type 0} (near far : Table W) (local remote : BlobStore W) : Type 0 where
  pub local_store : IsBlobStore near local
  pub remote_store : IsBlobStore far remote
  pub local_apart : LeavesAlone far local
  pub remote_apart : LeavesAlone near remote

module _ {W : Type 0} (near far : Table W) (local remote : BlobStore W)
    (t : IsTiered near far local remote) where
  abbrev tiered : Option (TieredStore W)
  tiered = some (record { local = some local; remote = some remote })

  local_hit :
      (k : Text) (b : Bytes) (w : W)
      → (local.get k w).0 ≡ ok b
      → tiered_get tiered k w ≡ (ok b, (local.get k w).1)
  unfolding tiered_get
  local_hit k b w e = attempt-ok (local.get k) _ w b e

  local_miss :
      (k : Text) (w : W) (e : Message)
      → (local.get k w).0 ≡ err e
      → tiered_get tiered k w ≡ get_remote (some local) (some remote) k (local.get k w).1
  unfolding tiered_get
  local_miss k w e h = attempt-err (local.get k) _ w e h

  put_local-runs :
      (k : Text) (b : Bytes) (w : W) → put_local (some local) k b w ≡ (ok tt, (local.put k b w).1)
  unfolding put_local
  put_local-runs k b w = elim (t.local_store.put_returns k b w) [
    | inl e ↦ attempt-ok (local.put k b) _ w tt e
    | inr (m, e) ↦ attempt-err (local.put k b) _ w m e
  ]

  remote_hit :
      (k : Text) (b : Bytes) (w : W)
      → (remote.get k w).0 ≡ ok b
      → get_remote (some local) (some remote) k w ≡ (ok b, (local.put k b (remote.get k w).1).1)
  unfolding get_remote
  remote_hit k b w e =
      bind-ok (remote.get k) _ w b e
      ∙ ap (λ x. continue x.0 (λ _. pure b) x.1) (put_local-runs k b (remote.get k w).1)

  remote_miss :
      (k : Text) (w : W) (e : Message)
      → (remote.get k w).0 ≡ err e
      → get_remote (some local) (some remote) k w ≡ (err e, (remote.get k w).1)
  unfolding get_remote
  remote_miss k w e h = bind-err (remote.get k) _ w e h

  -- the state after a read that goes to the remote store
  abbrev filled : Text → Bytes → W → W
  filled k b w = (local.put k b (remote.get k (local.get k w).1).1).1

  get-through :
      (k : Text) (b : Bytes) (w : W) (e : Message)
      → (local.get k w).0 ≡ err e
      → far w k ≡ some b
      → tiered_get tiered k w ≡ (ok b, filled k b w)
  get-through k b w e missed held =
      local_miss k w e missed
      ∙ remote_hit k b (local.get k w).1
          (t.remote_store.get_present k b _ (t.local_apart.get_leaves k w k ∙ held))

  get-absent :
      (k : Text) (w : W)
      → far w k ≡ none
      → near w k ≡ none
      → (e : Message) × (tiered_get tiered k w ≡ (err e, (remote.get k (local.get k w).1).1))
  get-absent k w gone missing =
      let (m, missed) = t.local_store.get_absent k w missing in
      let (e, lost) =
        t.remote_store.get_absent k (local.get k w).1 (t.local_apart.get_leaves k w k ∙ gone) in
      (e, local_miss k w m missed ∙ remote_miss k (local.get k w).1 e lost)

  -- While the local store holds nothing but what the remote one holds, reading returns the body
  -- that the remote store holds under the key.
  pub tiered_get-present :
      (k : Text) (b : Bytes) (w : W)
      → Agrees near far w
      → far w k ≡ some b
      → (tiered_get tiered k w).0 ≡ ok b
  tiered_get-present k b w agrees held = elim (Option-cases (near w k)) [
    | inl e ↦
        let (m, missed) = t.local_store.get_absent k w e in
        ap (λ x. x.0) (get-through k b w m missed held)
    | inr (b', e) ↦
        ap (λ x. x.0) (local_hit k b' w (t.local_store.get_present k b' w e))
        ∙ ap ok (some-injective b' b (sym (agrees k b' e) ∙ held))
  ]

  fill-Agrees :
      (k : Text) (b : Bytes) (w : W)
      → Agrees near far w
      → far w k ≡ some b
      → (local.put k b w).0 ≡ ok tt
      → Agrees near far (local.put k b w).1
  fill-Agrees k b w agrees held stored j c e = ground (
    arith,
    t.local_store.put_stores k b w j stored,
    t.local_apart.put_leaves k b w j,
    agrees j c,
    eq_iff k j,
    ap (far w) {x = k} {y = j},
  )

  reads-Agrees :
      (k : Text) (w : W) → Agrees near far w → Agrees near far (remote.get k (local.get k w).1).1
  reads-Agrees k w agrees j c e =
      t.remote_store.get_keeps k (local.get k w).1 j
      ∙ t.local_apart.get_leaves k w j
      ∙ agrees j c (sym (t.local_store.get_keeps k w j) ∙ sym (t.remote_apart.get_leaves k _ j) ∙ e)

  local_read-Agrees : (k : Text) (w : W) → Agrees near far w → Agrees near far (local.get k w).1
  local_read-Agrees k w agrees j c e =
      t.local_apart.get_leaves k w j ∙ agrees j c (sym (t.local_store.get_keeps k w j) ∙ e)

  abbrev after_reads : Text → W → W
  after_reads k w = (remote.get k (local.get k w).1).1

  -- A read keeps the agreement, unless the local store lacks the key and refuses to store what the
  -- remote one holds under it.
  pub tiered_get-Agrees :
      (k : Text) (w : W)
      → Agrees near far w
      → ((b : Bytes)
          → near w k ≡ none
          → far w k ≡ some b
          → (local.put k b (after_reads k w)).0 ≡ ok tt)
      → Agrees near far (tiered_get tiered k w).1
  tiered_get-Agrees k w agrees stores = elim (Option-cases (near w k)) [
    | inr (b, e) ↦
        subst (Agrees near far)
          (sym (ap (λ x. x.1) (local_hit k b w (t.local_store.get_present k b w e))))
          (local_read-Agrees k w agrees)
    | inl e ↦ elim (Option-cases (far w k)) [
      | inl gone ↦
          let (m, run) = get-absent k w gone e in
          subst (Agrees near far) (sym (ap (λ x. x.1) run)) (reads-Agrees k w agrees)
      | inr (b, held) ↦
          let (m, missed) = t.local_store.get_absent k w e in
          subst (Agrees near far) (sym (ap (λ x. x.1) (get-through k b w m missed held))) (
            fill-Agrees k b (after_reads k w) (reads-Agrees k w agrees)
              (t.remote_store.get_keeps k (local.get k w).1 k
                ∙ t.local_apart.get_leaves k w k
                ∙ held)
              (stores b e held))
    ]
  ]

  put-runs :
      (k : Text) (b : Bytes) (w : W)
      → (remote.put k b w).0 ≡ ok tt
      → tiered_put tiered k b w ≡ (ok tt, (local.put k b (remote.put k b w).1).1)
  unfolding tiered_put put_remote
  put-runs k b w e =
      bind-ok (remote.put k b) _ w tt e
      ∙ ap (λ x. continue x.0 (λ _. pure tt) x.1) (put_local-runs k b (remote.put k b w).1)

  -- A write that fails at the remote store returns its error and writes nothing to the local one.
  pub tiered_put-err :
      (k : Text) (b : Bytes) (w : W) (e : Message)
      → (remote.put k b w).0 ≡ err e
      → (tiered_put tiered k b w ≡ (err e, (remote.put k b w).1))
        × ((j : Text) → near (tiered_put tiered k b w).1 j ≡ near w j)
  tiered_put-err k b w e h =
      (run, λ j. ap (λ x. near x.1 j) run ∙ t.remote_apart.put_leaves k b w j)
    where
      run : tiered_put tiered k b w ≡ (err e, (remote.put k b w).1)
      run = unfold tiered_put put_remote in bind-err (remote.put k b) _ w e h

  written-Agrees :
      (k : Text) (b : Bytes) (w : W)
      → Agrees near far w
      → (remote.put k b w).0 ≡ ok tt
      → (local.put k b (remote.put k b w).1).0 ≡ ok tt
      → Agrees near far (local.put k b (remote.put k b w).1).1
  written-Agrees k b w agrees sent stored j c e = ground (
    arith,
    t.local_store.put_stores k b (remote.put k b w).1 j stored,
    t.local_apart.put_leaves k b (remote.put k b w).1 j,
    t.remote_store.put_stores k b w j sent,
    t.remote_apart.put_leaves k b w j,
    agrees j c,
  )

  written_body :
      (k : Text) (b : Bytes) (w : W)
      → (remote.put k b w).0 ≡ ok tt
      → far (local.put k b (remote.put k b w).1).1 k ≡ some b
  written_body k b w sent =
      t.local_apart.put_leaves k b (remote.put k b w).1 k
      ∙ t.remote_store.put_stores k b w k sent
      ∙ ap (λ x. if x then some b else far w k) (eq_refl k)

  -- A write that both stores accept succeeds, keeps the agreement, and the next read of the key
  -- returns the body.
  pub tiered_get-tiered_put :
      (k : Text) (b : Bytes) (w : W)
      → Agrees near far w
      → (remote.put k b w).0 ≡ ok tt
      → (local.put k b (remote.put k b w).1).0 ≡ ok tt
      → ((tiered_put tiered k b w).0 ≡ ok tt)
        × Agrees near far (tiered_put tiered k b w).1
        × ((tiered_get tiered k (tiered_put tiered k b w).1).0 ≡ ok b)
  tiered_get-tiered_put k b w agrees sent stored = (
    ap (λ x. x.0) run,
    subst (Agrees near far) (sym (ap (λ x. x.1) run)) now,
    ap (λ x. (tiered_get tiered k x.1).0) run
        ∙ tiered_get-present k b _ now (written_body k b w sent),
  )
    where
      run : tiered_put tiered k b w ≡ (ok tt, (local.put k b (remote.put k b w).1).1)
      run = put-runs k b w sent

      now : Agrees near far (local.put k b (remote.put k b w).1).1
      now = written-Agrees k b w agrees sent stored

  -- A write that the remote store accepts and the local one refuses succeeds, and where the local
  -- store still holds an older body under the key, reading goes on to return that.
  pub tiered_put-stale :
      (k : Text) (old b : Bytes) (w : W) (e : Message)
      → (remote.put k b w).0 ≡ ok tt
      → (local.put k b (remote.put k b w).1).0 ≡ err e
      → near (local.put k b (remote.put k b w).1).1 k ≡ some old
      → ((tiered_put tiered k b w).0 ≡ ok tt)
        × ((tiered_get tiered k (tiered_put tiered k b w).1).0 ≡ ok old)
  tiered_put-stale k old b w e sent refused kept = (
    ap (λ x. x.0) run,
    ap (λ x. (tiered_get tiered k x.1).0) run
        ∙ ap (λ x. x.0) (local_hit k old _ (t.local_store.get_present k old _ kept)),
  )
    where
      run : tiered_put tiered k b w ≡ (ok tt, (local.put k b (remote.put k b w).1).1)
      run = put-runs k b w sent
