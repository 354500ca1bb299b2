-- ===== src/Tests/Tiers.antt =====
-- The theorems of the tiered store and of identifiers at concrete values.
use zero_nime.Base.{
  ◌≡◌, refl, ap, Bool, true, false, ◌⊎◌, Option, none, some, [], ◌∷◌, ok, err, M, inl, inr,
  if◌then◌else◌, Message,
}
use zero_nime.Domain.Identifiers.{IsProviderName, slug_part, parse_qualified_id-new_catalog_id}
use zero_nime.Domain.{new_catalog_id, parse_qualified_id}
use zero_nime.Http.{Bytes}
use zero_nime.MediaCache.Blobs.{Table, IsBlobStore}
use zero_nime.MediaCache.Tiered.Agreement.{
  Agrees, IsTiered, tiered_get-present, tiered_get-Agrees, tiered_get-tiered_put, tiered_put-stale,
}
use zero_nime.MediaCache.Tiered.{TieredStore, tiered_get, tiered_put}
use zero_nime.MediaCache.{BlobStore}
use zero_nime.Tests.World.{or_missing}
use zero_nime.Text.{Text, text, ◌==◌, trim_space, trim, is_space}

-- two tables, and keys that the local store and the remote one refuse to write
record Tiers : Type 0 where
  near : Text → Option Bytes
  far : Text → Option Bytes

abbrev look_near : Table Tiers
look_near w = w.near

abbrev look_far : Table Tiers
look_far w = w.far

abbrev update : (Text → Option Bytes) → Text → Bytes → Text → Option Bytes
update f key body j = if key == j then some body else f j

abbrev put_near : Bool → Text → Bytes → M Tiers (Unit {0})
put_near refused key body w =
    if refused
    then (err (text "disk full"), w)
    else (ok tt, record w { near = update w.near key body })

abbrev put_far : Bool → Text → Bytes → M Tiers (Unit {0})
put_far refused key body w =
    if refused
    then (err (text "no bucket"), w)
    else (ok tt, record w { far = update w.far key body })

abbrev local : BlobStore Tiers
local = record {
  put = λ key body. put_near (key == text "full") key body;
  get = λ key w. (or_missing (w.near key), w);
}

abbrev remote : BlobStore Tiers
remote = record {
  put = λ key body. put_far (key == text "gone") key body;
  get = λ key w. (or_missing (w.far key), w);
}

abbrev both : Option (TieredStore Tiers)
both = some (record { local = some local; remote = some remote })

put_near-returns :
    (refused : Bool) (k : Text) (b : Bytes) (w : Tiers)
    → ((put_near refused k b w).0 ≡ ok tt) ⊎ ((e : Message) × ((put_near refused k b w).0 ≡ err e))
put_near-returns true k b w = inr (_, refl)
put_near-returns false k b w = inl refl

put_near-stores :
    (refused : Bool) (k : Text) (b : Bytes) (w : Tiers) (j : Text)
    → (put_near refused k b w).0 ≡ ok tt
    → (put_near refused k b w).1.near j ≡ update w.near k b j
put_near-stores true k b w j e = cc
put_near-stores false k b w j e = refl

put_near-far :
    (refused : Bool) (k : Text) (b : Bytes) (w : Tiers) (j : Text)
    → (put_near refused k b w).1.far j ≡ w.far j
put_near-far true k b w j = refl
put_near-far false k b w j = refl

put_far-returns :
    (refused : Bool) (k : Text) (b : Bytes) (w : Tiers)
    → ((put_far refused k b w).0 ≡ ok tt) ⊎ ((e : Message) × ((put_far refused k b w).0 ≡ err e))
put_far-returns true k b w = inr (_, refl)
put_far-returns false k b w = inl refl

put_far-stores :
    (refused : Bool) (k : Text) (b : Bytes) (w : Tiers) (j : Text)
    → (put_far refused k b w).0 ≡ ok tt
    → (put_far refused k b w).1.far j ≡ update w.far k b j
put_far-stores true k b w j e = cc
put_far-stores false k b w j e = refl

put_far-near :
    (refused : Bool) (k : Text) (b : Bytes) (w : Tiers) (j : Text)
    → (put_far refused k b w).1.near j ≡ w.near j
put_far-near true k b w j = refl
put_far-near false k b w j = refl

local-IsBlobStore : IsBlobStore look_near local
local-IsBlobStore = record {
  get_present = λ k b w e. ap or_missing e;
  get_absent = λ k w e. (text "missing", ap or_missing e);
  get_keeps = λ k w j. refl;
  put_returns = λ k b w. put_near-returns (k == text "full") k b w;
  put_stores = λ k b w j e. put_near-stores (k == text "full") k b w j e;
}

remote-IsBlobStore : IsBlobStore look_far remote
remote-IsBlobStore = record {
  get_present = λ k b w e. ap or_missing e;
  get_absent = λ k w e. (text "missing", ap or_missing e);
  get_keeps = λ k w j. refl;
  put_returns = λ k b w. put_far-returns (k == text "gone") k b w;
  put_stores = λ k b w j e. put_far-stores (k == text "gone") k b w j e;
}

tiers-IsTiered : IsTiered look_near look_far local remote
tiers-IsTiered = record {
  local_store = local-IsBlobStore;
  remote_store = remote-IsBlobStore;
  local_apart = record {
    get_leaves = λ k w j. refl;
    put_leaves = λ k b w j. put_near-far (k == text "full") k b w j;
  };
  remote_apart = record {
    get_leaves = λ k w j. refl;
    put_leaves = λ k b w j. put_far-near (k == text "gone") k b w j;
  };
}

abbrev remote_only : Tiers
remote_only = record {
  near = λ k. none;
  far = λ k. if k == text "a" then some (1 ∷ 2 ∷ []) else none;
}

-- the local store has an old body under the key that it refuses to write
abbrev outdated : Tiers
outdated = record { near = λ k. some (7 ∷ []); far = λ k. some (7 ∷ []) }

remote_only-Agrees : Agrees look_near look_far remote_only
remote_only-Agrees k b e = cc

tiered_get-present_example : (tiered_get both (text "a") remote_only).0 ≡ ok (1 ∷ 2 ∷ [])
unfolding ◌==◌
tiered_get-present_example =
    tiered_get-present look_near look_far local remote tiers-IsTiered (text "a") (1 ∷ 2 ∷ [])
      remote_only remote_only-Agrees refl

tiered_get-Agrees_example : Agrees look_near look_far (tiered_get both (text "a") remote_only).1
unfolding ◌==◌
tiered_get-Agrees_example =
    tiered_get-Agrees look_near look_far local remote tiers-IsTiered (text "a") remote_only
      remote_only-Agrees (λ b _ _. refl)

tiered_get-tiered_put_example :
    ((tiered_put both (text "b") (3 ∷ []) remote_only).0 ≡ ok tt)
    × Agrees look_near look_far (tiered_put both (text "b") (3 ∷ []) remote_only).1
    × ((tiered_get both (text "b") (tiered_put both (text "b") (3 ∷ []) remote_only).1).0
        ≡ ok (3 ∷ []))
unfolding ◌==◌
tiered_get-tiered_put_example =
    tiered_get-tiered_put look_near look_far local remote tiers-IsTiered (text "b") (3 ∷ [])
      remote_only remote_only-Agrees refl refl

tiered_put-stale_example :
    ((tiered_put both (text "full") (8 ∷ []) outdated).0 ≡ ok tt)
    × ((tiered_get both (text "full") (tiered_put both (text "full") (8 ∷ []) outdated).1).0
        ≡ ok (7 ∷ []))
unfolding ◌==◌
tiered_put-stale_example =
    tiered_put-stale look_near look_far local remote tiers-IsTiered (text "full") (7 ∷ []) (8 ∷ [])
      outdated (text "disk full") refl refl refl

kuramanime-IsProviderName : IsProviderName (text "kuramanime")
unfolding is_space
kuramanime-IsProviderName = record {
  non_empty = λ e. cc;
  colon_free = (refl, (refl, (refl, (refl, (refl, (refl, (refl, (refl, (refl, (refl, tt))))))))));
  no_leading_space = refl;
}

parse_qualified_id-new_catalog_id_example :
    parse_qualified_id (new_catalog_id (text "kuramanime") (text " 12/one-piece/ "))
    ≡ ok (text "kuramanime", slug_part (text " 12/one-piece/ "))
unfolding is_space trim trim_space
parse_qualified_id-new_catalog_id_example =
    parse_qualified_id-new_catalog_id (text "kuramanime") (text " 12/one-piece/ ")
      kuramanime-IsProviderName (λ e. cc) refl
