-- ===== src/MediaCache/Tiered.antt =====
-- internal/mediacache/tiered.go: a local store in front of a remote one. A nil store is `none`.
pub mod Agreement
use zero_nime.Base.{
  Option, none, some, [], M, Result, ok, err, panic, pure, lift, attempt, ◌>>=◌, ◌>>◌,
}
use zero_nime.Http.{Bytes}
use zero_nime.MediaCache.{BlobStore}
use zero_nime.Text.{Text}

pub record TieredStore (W : Type 0) : Type 0 where
  pub local : Option (BlobStore W)
  pub remote : Option (BlobStore W)

module _ {W : Type 0} where
  -- the write to the remote store, whose error is the error of the call
  unfoldable pub put_remote : Option (BlobStore W) → Text → Bytes → M W (Unit {0})
  put_remote none key body = pure tt
  put_remote (some remote) key body = remote.put key body

  -- the write to the local store, whose error is dropped
  unfoldable pub put_local : Option (BlobStore W) → Text → Bytes → M W (Unit {0})
  put_local none key body = pure tt
  put_local (some local) key body = do attempt (local.put key body); pure tt

  -- TieredStore.Put
  unfoldable pub tiered_put : Option (TieredStore W) → Text → Bytes → M W (Unit {0})
  unfolding put_remote put_local
  tiered_put none key body = pure tt
  tiered_put (some s) key body = do
    put_remote s.remote key body
    put_local s.local key body
    pure tt

  -- from the remote store on; a body that is found is written to the local store
  unfoldable pub get_remote : Option (BlobStore W) → Option (BlobStore W) → Text → M W Bytes
  unfolding put_local
  get_remote local none key = pure []
  get_remote local (some remote) key = do body ← remote.get key; put_local local key body; pure body

  abbrev or_remote : TieredStore W → Text → Result Bytes → M W Bytes
  or_remote s key (ok body) = pure body
  or_remote s key (err e) = get_remote s.local s.remote key
  or_remote s key panic = lift panic

  unfoldable pub get_local : TieredStore W → Option (BlobStore W) → Text → M W Bytes
  unfolding get_remote
  get_local s none key = get_remote s.local s.remote key
  get_local s (some local) key = do r ← attempt (local.get key); or_remote s key r

  -- TieredStore.Get
  unfoldable pub tiered_get : Option (TieredStore W) → Text → M W Bytes
  unfolding get_local
  tiered_get none key = pure []
  tiered_get (some s) key = get_local s s.local key

  -- TieredStore as a BlobStore
  abbrev pub tiered_store : Option (TieredStore W) → BlobStore W
  tiered_store s = record { put = tiered_put s; get = tiered_get s }
