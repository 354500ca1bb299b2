-- ===== src/MediaCache/Blobs.antt =====
-- What the services rely on from a blob store: a table of bodies by key, which reading leaves
-- alone and a successful write changes at its key. Nothing is asked of a write that fails.
use zero_nime.Base.{◌≡◌, ◌⊎◌, Option, none, some, ok, err, Message, M, if◌then◌else◌}
use zero_nime.Http.{Bytes}
use zero_nime.MediaCache.{BlobStore}
use zero_nime.Text.{Text, ◌==◌}

-- The bodies that a world holds.
abbrev pub Table : Type 0 → Type 0
Table W = W → Text → Option Bytes

-- An action leaves a table alone, whether it returns or fails.
abbrev pub Keeps {ℓ} : {W A : Type ℓ} {B : Type ℓ} → (W → Text → B) → M W A → Type ℓ
Keeps {W} look m = (w : W) (j : Text) → look (m w).1 j ≡ look w j

pub record IsBlobStore {W : Type 0} (look : Table W) (blobs : BlobStore W) : Type 0 where
  pub get_present : (k : Text) (b : Bytes) (w : W) → look w k ≡ some b → (blobs.get k w).0 ≡ ok b
  pub get_absent :
      (k : Text) (w : W) → look w k ≡ none → (e : Message) × ((blobs.get k w).0 ≡ err e)
  pub get_keeps : (k : Text) → Keeps look (blobs.get k)
  pub put_returns :
      (k : Text) (b : Bytes) (w : W)
      → ((blobs.put k b w).0 ≡ ok tt) ⊎ ((e : Message) × ((blobs.put k b w).0 ≡ err e))
  pub put_stores :
      (k : Text) (b : Bytes) (w : W) (j : Text)
      → (blobs.put k b w).0 ≡ ok tt
      → look (blobs.put k b w).1 j ≡ (if k == j then some b else look w j)

-- Neither method touches another table.
pub record LeavesAlone {W : Type 0} (look : Table W) (blobs : BlobStore W) : Type 0 where
  pub get_leaves : (k : Text) → Keeps look (blobs.get k)
  pub put_leaves : (k : Text) (b : Bytes) → Keeps look (blobs.put k b)
