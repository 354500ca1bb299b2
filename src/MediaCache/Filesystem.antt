-- ===== src/MediaCache/Filesystem.antt =====
-- internal/mediacache/filesystem.go: blobs as files below a directory. The calls of the packages
-- os and path/filepath are a parameter.
use zero_nime.Base.{M, Result, ok, err, panic, ◌++◌, attempt, pure, fail, lift, ◌>>=◌, ◌>>◌}
use zero_nime.Http.{Bytes}
use zero_nime.MediaCache.{BlobStore}
use zero_nime.Text.{Text, text}

-- os.MkdirAll, os.WriteFile and os.ReadFile, and filepath.Join of a directory and a key with its
-- slashes turned by filepath.FromSlash, and filepath.Dir.
pub record FileOperations (W : Type 0) : Type 0 where
  pub mkdir_all : Text → M W (Unit {0})
  pub write_file : Text → Bytes → M W (Unit {0})
  pub read_file : Text → M W Bytes
  pub join_key : Text → Text → Text
  pub dir : Text → Text

module _ {W : Type 0} (os : FileOperations W) (base_dir : Text) where
  -- FilesystemStore.Put
  unfoldable pub file_put : Text → Bytes → M W (Unit {0})
  file_put key body = do
    os.mkdir_all (os.dir (os.join_key base_dir key))
    os.write_file (os.join_key base_dir key) body

  abbrev read_result : Text → Result Bytes → M W Bytes
  read_result key (ok body) = pure body
  read_result key (err e) = fail (text "read blob " ++ (key ++ (text ": " ++ e)))
  read_result key panic = lift panic

  -- FilesystemStore.Get
  unfoldable pub file_get : Text → M W Bytes
  file_get key = do r ← attempt (os.read_file (os.join_key base_dir key)); read_result key r

  -- FilesystemStore as a BlobStore
  abbrev pub filesystem_store : BlobStore W
  filesystem_store = record { put = file_put; get = file_get }
