-- ===== src/Tests/World.antt =====
-- A small world to run the media cache in: a table of blobs, a table of cache entries, and an
-- upstream that has one file.
use zero_nime.Base.{
  ℕ, suc, ◌≤◌, ◌≡◌, refl, ap, Option, none, some, [], ◌∷◌, pos, max_int64, Result, ok, err, length,
  slice, arith, if◌then◌else◌, inl,
}
use zero_nime.Domain.{StartupMediaCache}
use zero_nime.Http.{Bytes, Response, header_get}
use zero_nime.MediaCache.Blobs.{Table, IsBlobStore}
use zero_nime.MediaCache.Prewarm.Upstream.{Serves, IsWorking}
use zero_nime.MediaCache.Range.RoundTrip.{AllDigits-Lacks}
use zero_nime.MediaCache.Range.{range_header}
use zero_nime.MediaCache.Serve.{content_range}
use zero_nime.MediaCache.{BlobStore, Fetcher, MetadataStore, KeyFunctions}
use zero_nime.Text.Decimal.{
  parse_int, format_int, parse_int-format_nat, format_nat, format_nat-AllDigits,
}
use zero_nime.Text.Laws.{eq_refl, split_2-append}
use zero_nime.Text.{Text, text, ◌==◌, split_2, trim_prefix}

pub record World : Type 0 where
  pub bodies : Text → Option Bytes
  pub entries : Text → Option StartupMediaCache

abbrev pub look_bodies : Table World
look_bodies w = w.bodies

abbrev pub or_missing : Option Bytes → Result Bytes
or_missing none = err (text "missing")
or_missing (some b) = ok b

abbrev pub memory_blobs : BlobStore World
memory_blobs = record {
  put =
      λ key body w. (ok tt, record w { bodies = λ j. if key == j then some body else w.bodies j });
  get = λ key w. (or_missing (w.bodies key), w);
}

abbrev pub memory_store : MetadataStore World
memory_store = record {
  get_startup_media_cache = λ id w. (ok (w.entries id), w);
  upsert_startup_media_cache =
      λ e w. (ok tt, record w { entries = λ j. if e.episode_id == j then some e else w.entries j });
}

-- the bounds of a range header
bounds_of : Option (Text × Text) → Option (ℕ × ℕ)
bounds_of none = none
bounds_of (some (a, b)) = elim (parse_int a) [
  | some (pos m) ↦ elim (parse_int b) [ some (pos n) ↦ some (m, n) | _ ↦ none ]
  | _ ↦ none
]

pub bounds : Text → Option (ℕ × ℕ)
bounds range = bounds_of (split_2 45 (trim_prefix range (text "bytes=")))

abbrev pub part : Bytes → ℕ → ℕ → Response
part file a b = record {
  status_code = 206;
  header = (text "Content-Range", content_range (pos a) (pos b) (pos (length file)) ∷ []) ∷ [];
  content_length = pos (length (slice a (suc b) file));
  body = some (ok (slice a (suc b) file));
}

abbrev pub answer : Bytes → Option (ℕ × ℕ) → Result (Option Response)
answer file none = err (text "bad range")
answer file (some (a, b)) = ok (some (part file a b))

abbrev pub file_fetcher : Bytes → Fetcher World
file_fetcher file = record { fetch = λ url range w. (answer file (bounds range), w) }

abbrev pub no_hash : KeyFunctions
no_hash = record { sha1_hex = λ t. t; url_path = some }

bounds-range_header :
    (a b : ℕ) → a ≤ max_int64 → b ≤ max_int64 → bounds (range_header (pos a) (pos b)) ≡ some (a, b)
unfolding bounds bounds_of range_header format_int trim_prefix
bounds-range_header a b h k =
    rw
      (split_2-append 45 (format_nat a) (format_nat b)
        (AllDigits-Lacks (format_nat a) (format_nat-AllDigits a)))
      (rw (parse_int-format_nat a h, parse_int-format_nat b k, bounds_of) refl)

pub memory_blobs-IsBlobStore : IsBlobStore look_bodies memory_blobs
memory_blobs-IsBlobStore = record {
  get_present = λ k b w e. ap or_missing e;
  get_absent = λ k w e. (text "missing", ap or_missing e);
  get_keeps = λ k w j. refl;
  put_returns = λ k b w. inl refl;
  put_stores = λ k b w j e. refl;
}

pub file_fetcher-Serves :
    (url : Text) (file : Bytes) → length file ≤ max_int64 → Serves (file_fetcher file) url file
unfolding header_get
file_fetcher-Serves url file fits = record {
  responds = λ a b w h k m. (
    part file a b,
    ap (answer file) (bounds-range_header a b (omega arith) m),
    record { body = refl; last = b; content_range_header = unfold ◌==◌ in refl },
  );
}

pub memory-IsWorking :
    (file : Bytes) → IsWorking look_bodies memory_store memory_blobs (file_fetcher file)
memory-IsWorking file = record {
  blob_store = memory_blobs-IsBlobStore;
  put_accepts = λ k b w. refl;
  fetch_leaves = λ url range w j. refl;
  upsert_accepts = λ e w. refl;
  upsert_leaves = λ e w j. refl;
  get_upsert =
      λ e w. ap (λ x. ok (if x then some e else w.entries e.episode_id)) (eq_refl e.episode_id);
  get_leaves = λ id w j. refl;
}
