-- ===== src/Tests/Streams.antt =====
-- The theorems on internal/service/stream/service.go, applied to a small provider and cache.
use zero_nime.Base.{
  ◌≡◌, refl, ◌⊎◌, true, false, Option, none, some, List, [], ◌∷◌, ℤ, pos, ◌+ℤ◌, ◌-ℤ◌, ◌≤ℤ◌, ◌<ℤ◌,
  ok, err, wrap64, find_first, In, if◌then◌else◌, Returns,
}
use zero_nime.Domain.{StreamCandidate, StreamResult}
use zero_nime.Memory.{as_stream, Cache, Value, stream}
use zero_nime.Stream.Expiry.{
  Calendar, result_is_expired, consider_all, signed_url_expires_at, five_minutes, expiry_of,
  considered, result_expires_at, stream_memory_ttl,
}
use zero_nime.Stream.Expiry.Earliest.{
  Attained, result_expires_at_earliest, stream_memory_ttl_bounds,
}
use zero_nime.Stream.Normalize.{is_mp4}
use zero_nime.Stream.Resolve.{look_in_memory, Service, StreamStore, resolve, resolve_stream}
use zero_nime.Stream.Resolve.Outcomes.{Good, resolve-Good}
use zero_nime.Stream.Resolve.Total.{resolve_stream-Returns}
use zero_nime.Stream.Select.Preferred.{Chosen, select_stream-Chosen}
use zero_nime.Stream.Select.{select_stream, choose, pick_preferred_stream, is_720p}
use zero_nime.Text.{
  Text, text, ◌==◌, trim_space, trim_by, drop_while, is_space, equal_fold, to_lower, lower,
}
use zero_nime.Text.Decimal.{parse_int}

-- the URL itself is the number of seconds that it is good for, from the time 1000 on
abbrev sample_calendar : Calendar
sample_calendar = record {
  query = λ url. some (λ name. if name == text "X-Amz-Expires" then url else name);
  parse_time = λ date. some (pos 1000);
  in_ten_years = λ now. now +ℤ pos 315360000000000000;
}

abbrev candidate_of : Text → Text → ℤ → StreamCandidate
candidate_of url quality priority = record {
  url = url;
  container = text "mp4";
  quality = quality;
  codec = [];
  is_direct = true;
  playable = true;
  estimated_priority = priority;
  label = [];
}

abbrev high : StreamCandidate
high = candidate_of (text "3600") (text "1080p") (pos 90)

abbrev middle : StreamCandidate
middle = candidate_of (text "7200") (text "720p") (pos 80)

abbrev offered : List StreamCandidate
offered = high ∷ middle ∷ []

abbrev kept_result : StreamResult
kept_result = select_stream (text "k:1") (text "k") offered

abbrev sample_expiry : ℤ
sample_expiry = pos 3300000001000

record Store : Type 0 where
  pub memory : Option Value
  pub row : Option StreamResult

abbrev sample_cache : Cache Store
sample_cache = record {
  get = λ key w. (w.memory, w);
  set = λ key v ttl w. record w { memory = some v };
  delete = λ key w. record w { memory = none };
}

-- a database that refuses every write
abbrev sample_store : StreamStore Store
sample_store = record {
  get_stream_cache = λ id at w. (ok w.row, w);
  upsert_stream_cache = λ id r at w. (err (text "read only"), w);
  delete_stream_cache = λ id w. (err (text "read only"), w);
}

abbrev sample_service : Service Store
sample_service = record {
  name = text "k";
  stream_candidates = λ id w. (ok offered, w);
  cache = sample_cache;
  store = some sample_store;
  ttl = pos 60000000000;
  now = λ w. (ok (pos 5000), w);
  calendar = sample_calendar;
  sort_slice = λ cs. cs;
}

abbrev filled : Store
filled = record { memory = some (stream kept_result); row = none }

kept_unexpired : result_is_expired sample_calendar (pos 5000) kept_result ≡ false
unfolding result_is_expired result_expires_at consider_all expiry_of signed_url_expires_at
    select_stream choose pick_preferred_stream find_first is_mp4 is_720p equal_fold to_lower lower
    ◌==◌ trim_space trim_by drop_while is_space parse_int wrap64
kept_unexpired = refl

kept_resolved : (resolve sample_service (text "k:1") filled).0 ≡ ok kept_result
unfolding resolve_stream look_in_memory as_stream
kept_resolved = rw kept_unexpired refl

result_expires_at_earliest_example :
    ((c : StreamCandidate) (e : ℤ)
      → In c (considered kept_result)
      → expiry_of sample_calendar c.url ≡ some e
      → result_expires_at sample_calendar (pos 5000) kept_result ≤ℤ e -ℤ five_minutes)
    × ((result_expires_at sample_calendar (pos 5000) kept_result
          ≡ sample_calendar.in_ten_years (pos 5000))
        ⊎ Attained sample_calendar
            (result_expires_at sample_calendar (pos 5000) kept_result)
            (considered kept_result))
result_expires_at_earliest_example =
    result_expires_at_earliest sample_calendar (pos 5000) kept_result

stream_memory_ttl_bounds_example :
    (pos 0 <ℤ stream_memory_ttl sample_calendar (pos 6000) (pos 5000) kept_result (pos 60000000000))
    × (stream_memory_ttl sample_calendar (pos 6000) (pos 5000) kept_result (pos 60000000000)
        ≤ℤ result_expires_at sample_calendar (pos 5000) kept_result -ℤ pos 5000)
stream_memory_ttl_bounds_example =
    stream_memory_ttl_bounds sample_calendar (pos 6000) (pos 5000) (pos 60000000000) kept_result
      kept_unexpired

select_stream-Chosen_example :
    Chosen offered (select_stream (text "k:1") (text "k") offered).preferred_stream
select_stream-Chosen_example = select_stream-Chosen (text "k:1") (text "k") offered

resolve-Good_example : Good sample_service (text "k:1") (pos 5000) kept_result
resolve-Good_example =
    resolve-Good sample_service (text "k:1") (pos 5000) filled kept_result refl kept_resolved

resolve_stream-Returns_example : Returns (resolve_stream sample_service (text "k:1") true)
resolve_stream-Returns_example =
    resolve_stream-Returns sample_service (λ w. (pos 5000, refl))
      (record { get = λ id at w h. cc; upsert = λ id r at w h. cc; delete = λ id w h. cc })
      (text "k:1") true (λ w. (offered, refl))
