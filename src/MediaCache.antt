-- ===== src/MediaCache.antt =====
-- internal/mediacache/service.go: the state of the startup cache service, the interfaces that it
-- works against, and the keys of its entries. Contexts and their timeouts are part of what the
-- interfaces' implementations do.
pub mod Range
pub mod Serve
pub mod Prewarm
pub mod Tiered
pub mod Filesystem
pub mod Blobs
use zero_nime.Base.{
  ℕ, Bool, ◌&&◌, not, List, [], ◌∷◌, ◌++◌, Option, none, some, M, ℤ, if◌then◌else◌,
}
use zero_nime.Domain.{StartupMediaCache}
use zero_nime.Http.{Bytes, Header, Response}
use zero_nime.Text.{Text, text, ◌==◌, trim_space, trim_right, to_lower, split}

pub record MetadataStore (W : Type 0) : Type 0 where
  pub get_startup_media_cache : Text → M W (Option StartupMediaCache)
  pub upsert_startup_media_cache : StartupMediaCache → M W (Unit {0})

pub record BlobStore (W : Type 0) : Type 0 where
  pub put : Text → Bytes → M W (Unit {0})
  pub get : Text → M W Bytes

pub record Fetcher (W : Type 0) : Type 0 where
  pub fetch : Text → Text → M W (Option Response)

pub record CachedResponse : Type 0 where
  pub status_code : ℕ
  pub headers : Header
  pub body : Bytes

-- A nil interface is `none`.
pub record Service (W : Type 0) : Type 0 where
  pub store : Option (MetadataStore W)
  pub blobs : Option (BlobStore W)
  pub fetcher : Option (Fetcher W)
  pub head_bytes : ℤ
  pub tail_bytes : ℤ

-- What the keys are made with: the hexadecimal SHA-1 digest of a text, and the path of a URL as
-- url.Parse gives it, `none` where it returns an error.
pub record KeyFunctions : Type 0 where
  pub sha1_hex : Text → Text
  pub url_path : Text → Option Text

abbrev last : Text → List Text → Text
last p [] = p
last p (q ∷ ps) = last q ps

-- path.Base; 47 is '/'
unfoldable pub path_base : Text → Text
path_base [] = text "."
path_base (c ∷ p) =
    let stripped = trim_right 47 (c ∷ p) in
    if stripped == [] then text "/" else last [] (split 47 stripped)

module _ (keys : KeyFunctions) where
  -- blobKey
  unfoldable pub blob_key : Text → Text → Text → Text
  blob_key episode_id source_url suffix =
      text "startup-media/" ++ (episode_id ++ (text "/" ++ (digest ++ text ".bin")))
    where
      digest : Text
      digest = keys.sha1_hex (episode_id ++ (text "|" ++ (source_url ++ (text "|" ++ suffix))))

  -- the file name of a path, or the path itself where it has none
  unfoldable pub path_key : Text → Text
  path_key path =
      let filename = trim_space (path_base path) in
      if not (filename == []) && not (filename == text ".") && not (filename == text "/")
      then to_lower filename
      else to_lower (trim_space path)

  -- sourceKey
  unfoldable pub source_key : Text → Text
  unfolding path_key
  source_key raw_url = elim (keys.url_path (trim_space raw_url)) [
    | none ↦ trim_space raw_url
    | some path ↦ path_key path
  ]
