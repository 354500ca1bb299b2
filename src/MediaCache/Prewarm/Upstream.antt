-- ===== src/MediaCache/Prewarm/Upstream.antt =====
-- What Prewarm of internal/mediacache/service.go relies on: an upstream that serves the ranges of
-- a file, and a store and blobs that accept what is written to them and give it back.
use zero_nime.Base.{ℕ, suc, ◌≤◌, ◌<◌, ◌≡◌, some, pos, ok, length, slice, max_int64}
use zero_nime.Domain.{StartupMediaCache}
use zero_nime.Http.{Bytes, Response, header_get}
use zero_nime.MediaCache.Blobs.{Table, Keeps, IsBlobStore}
use zero_nime.MediaCache.Range.{range_header}
use zero_nime.MediaCache.Serve.{content_range}
use zero_nime.MediaCache.{BlobStore, Fetcher, MetadataStore}
use zero_nime.Text.{Text, text}

-- A response to the range from `a` to `b`: the bytes of the file in that range, under a
-- Content-Range header that ends with the length of the file.
pub record IsPartial (file : Bytes) (a b : ℕ) (r : Response) : Type 0 where
  pub body : r.body ≡ some (ok (slice a (suc b) file))
  pub last : ℕ
  pub content_range_header :
      header_get r.header (text "Content-Range")
      ≡ content_range (pos a) (pos last) (pos (length file))

-- The upstream answers each range that starts inside the file and is named by int64 values.
pub record Serves {W : Type 0} (fetcher : Fetcher W) (url : Text) (file : Bytes) : Type 0 where
  pub responds :
      (a b : ℕ) (w : W)
      → a < length file
      → a ≤ b
      → b ≤ max_int64
      → (r : Response) × ((fetcher.fetch url (range_header (pos a) (pos b)) w).0 ≡ ok (some r))
        × IsPartial file a b r

pub record IsWorking {W : Type 0} (look : Table W) (store : MetadataStore W) (blobs : BlobStore W)
    (fetcher : Fetcher W) : Type 0 where
  pub blob_store : IsBlobStore look blobs
  pub put_accepts : (k : Text) (b : Bytes) (w : W) → (blobs.put k b w).0 ≡ ok tt
  pub fetch_leaves : (url range : Text) → Keeps look (fetcher.fetch url range)
  pub upsert_accepts :
      (e : StartupMediaCache) (w : W) → (store.upsert_startup_media_cache e w).0 ≡ ok tt
  pub upsert_leaves : (e : StartupMediaCache) → Keeps look (store.upsert_startup_media_cache e)
  pub get_upsert :
      (e : StartupMediaCache) (w : W)
      → (store.get_startup_media_cache e.episode_id (store.upsert_startup_media_cache e w).1).0
        ≡ ok (some e)
  pub get_leaves : (id : Text) → Keeps look (store.get_startup_media_cache id)
