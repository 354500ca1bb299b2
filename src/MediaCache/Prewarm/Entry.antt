-- ===== src/MediaCache/Prewarm/Entry.antt =====
-- The entry that Prewarm of internal/mediacache/service.go makes of the responses that it fetches,
-- and its tests on an entry.
use zero_nime.Base.{
  Bool, ◌&&◌, not, Option, none, some, [], ◌∷◌, List, ℤ, pos, ◌-ℤ◌, ltb_ℤ, leb_ℤ, wrap64, Result,
  err, if◌then◌else◌, length,
}
use zero_nime.Domain.{StartupMediaCache, StreamCandidate}
use zero_nime.Http.{Bytes, Response, header_get}
use zero_nime.MediaCache.{KeyFunctions, source_key, blob_key}
use zero_nime.Text.{Text, text, ◌==◌, trim_space, split}
use zero_nime.Text.Decimal.{parse_int}

-- max
abbrev pub max_ℤ : ℤ → ℤ → ℤ
max_ℤ left right = if ltb_ℤ right left then left else right

-- the last number of a Content-Range header, if the header has one '/' (47)
abbrev total_of_parts : List Text → Option ℤ
total_of_parts (unit ∷ total ∷ []) = parse_int (trim_space total)
total_of_parts _ = none

unfoldable pub total_of_range : Text → Option ℤ
total_of_range content_range =
    if content_range == [] then none else total_of_parts (split 47 content_range)

abbrev pub or_content_length : Option ℤ → ℤ → ℤ
or_content_length (some total) content_length = total
or_content_length none content_length =
    if ltb_ℤ (pos 0) content_length then content_length else pos 0

-- totalLengthFromResponse; a nil response is `none`
unfoldable pub total_length_from_response : Option Response → ℤ
unfolding total_of_range
total_length_from_response none = pos 0
total_length_from_response (some r) =
    or_content_length (total_of_range (trim_space (header_get r.header (text "Content-Range"))))
      r.content_length

abbrev body_of : Option (Result Bytes) → Result Bytes
body_of none = err (text "empty response body")
body_of (some read) = read

-- readAllAndClose
unfoldable pub read_all_and_close : Option Response → Result Bytes
read_all_and_close none = err (text "empty response body")
read_all_and_close (some r) = body_of r.body

-- the Content-Type of a response that is not nil, or the default
abbrev header_of : Option Response → Text
header_of none = []
header_of (some r) = header_get r.header (text "Content-Type")

unfoldable pub content_type_of : Option Response → Text
content_type_of r =
    let found = trim_space (header_of r) in if found == [] then text "video/mp4" else found

abbrev pub positive_or : ℤ → ℤ → ℤ
positive_or n m = if leb_ℤ n (pos 0) then m else n

-- the entry was made from the source of the candidate
unfoldable pub is_current : KeyFunctions → StartupMediaCache → Text → Bool
is_current keys entry url =
    if not (entry.source_key == [])
    then entry.source_key == source_key keys url
    else source_key keys entry.source_url == source_key keys url

-- the entry with the tail that was stored, where there is one
unfoldable pub with_tail : StartupMediaCache → Text → Bytes → StartupMediaCache
with_tail entry key body = record entry { tail_key = key; tail_bytes = pos (length body) }

unfoldable pub tail_start : ℤ → ℤ → ℤ
tail_start content_length tail_bytes = max_ℤ (pos 0) (wrap64 (content_length -ℤ tail_bytes))

-- the file has a tail that the head does not cover
unfoldable pub wants_tail : ℤ → StartupMediaCache → Bool
wants_tail tail_bytes entry =
    ltb_ℤ (pos 0) tail_bytes
    && ltb_ℤ (pos 0) entry.content_length
    && ltb_ℤ (pos 0) (tail_start entry.content_length tail_bytes)
    && leb_ℤ entry.head_bytes (tail_start entry.content_length tail_bytes)

unfoldable pub head_entry :
    KeyFunctions → Text → StreamCandidate → Option Response → Bytes → StartupMediaCache
head_entry keys episode_id candidate resp body = record {
  episode_id = episode_id;
  source_url = candidate.url;
  source_key = source_key keys candidate.url;
  container = candidate.container;
  quality = candidate.quality;
  content_type = content_type_of resp;
  content_length = positive_or (total_length_from_response resp) (pos (length body));
  head_key = blob_key keys episode_id candidate.url (text "head");
  head_bytes = pos (length body);
  tail_key = [];
  tail_bytes = pos 0;
}
