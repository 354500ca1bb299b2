-- ===== src/Tests/Media.antt =====
-- The theorems of the media cache at concrete values.
use zero_nime.Base.{
  ◌≡◌, refl, true, false, none, some, [], ◌∷◌, pos, arith, inr, if◌then◌else◌, take,
}
use zero_nime.Domain.{StartupMediaCache, StreamCandidate}
use zero_nime.Http.{Bytes}
use zero_nime.MediaCache.Prewarm.Correct.{Prewarmed}
use zero_nime.MediaCache.Prewarm.Session.{
  Setting, Uncached, prewarm-Prewarmed, try_serve_range-prewarm, try_serve_range-prewarm-hit,
}
use zero_nime.MediaCache.Prewarm.{prewarm, is_sufficiently_cached}
use zero_nime.MediaCache.Range.{range_header, parse_range, IsWithin, parse_range-IsWithin}
use zero_nime.MediaCache.Range.RoundTrip.{parse_range-range_header}
use zero_nime.MediaCache.Serve.Exact.{Cut, HoldsTail}
use zero_nime.MediaCache.Serve.Request.{Answers, Finds, try_serve_range-Answers}
use zero_nime.MediaCache.Serve.Hit.{try_serve_range-tail_hit}
use zero_nime.MediaCache.Serve.{try_serve_range, same_source, content_range}
use zero_nime.MediaCache.Range.ContentRange.{total_of_range-content_range}
use zero_nime.MediaCache.Prewarm.Entry.{total_of_range}
use zero_nime.MediaCache.{Service, blob_key, source_key, path_key, path_base}
use zero_nime.Tests.World.{
  World, memory_blobs, memory_store, file_fetcher, no_hash, look_bodies, file_fetcher-Serves,
  memory-IsWorking,
}
use zero_nime.Text.{
  Text, text, ◌==◌, trim_space, trim_right, to_lower, split, has_prefix, trim_prefix, split_2,
}
use zero_nime.Text.Decimal.{parse_int}

abbrev movie : Bytes
movie = 10 ∷ 11 ∷ 12 ∷ 13 ∷ 14 ∷ 15 ∷ 16 ∷ 17 ∷ 18 ∷ 19 ∷ []

abbrev episode : Text
episode = text "kuramanime:1"

abbrev candidate : StreamCandidate
candidate = record {
  url = text "/a/One.mp4";
  container = text "mp4";
  quality = text "720p";
  codec = [];
  is_direct = true;
  playable = true;
  estimated_priority = pos 170;
  label = [];
}

abbrev service : Service World
service = record {
  store = some memory_store;
  blobs = some memory_blobs;
  fetcher = some (file_fetcher movie);
  head_bytes = pos 4;
  tail_bytes = pos 3;
}

abbrev empty_world : World
empty_world = record { bodies = λ k. none; entries = λ k. none }

setting : Setting no_hash service episode candidate movie
unfolding blob_key ◌==◌ trim_space
setting = record {
  look = look_bodies;
  store = memory_store;
  blobs = memory_blobs;
  fetcher = file_fetcher movie;
  has_store = refl;
  has_blobs = refl;
  has_fetcher = refl;
  works = memory-IsWorking movie;
  serves = file_fetcher-Serves candidate.url movie (omega arith);
  fits = omega arith;
  has_bytes = omega arith;
  named = refl;
  has_url = refl;
  apart = refl;
  head_fits = omega arith;
  tail_fits = omega arith;
}

uncached : Uncached no_hash service episode candidate movie setting empty_world empty_world
unfolding is_sufficiently_cached setting
uncached = refl

has_source_key : (source_key no_hash candidate.url == []) ≡ false
unfolding source_key ◌==◌ trim_space path_base trim_right to_lower split
has_source_key = refl

prewarm-Prewarmed_example :
    Prewarmed no_hash look_bodies memory_store movie episode candidate.url
      (pos 4)
      (prewarm no_hash (some service) episode candidate empty_world)
unfolding setting
prewarm-Prewarmed_example =
    prewarm-Prewarmed no_hash service episode candidate movie setting empty_world empty_world
      uncached

try_serve_range-prewarm_example :
    Answers movie
      (text "bytes=-2")
      (try_serve_range no_hash
        (some service)
        episode
        candidate.url
        (text "bytes=-2")
        (prewarm no_hash (some service) episode candidate empty_world).1).0
try_serve_range-prewarm_example =
    try_serve_range-prewarm no_hash service episode candidate movie setting empty_world empty_world
      candidate.url (text "bytes=-2") uncached

try_serve_range-prewarm-hit_example :
    Cut movie 1 3
      (try_serve_range no_hash
        (some service)
        episode
        candidate.url
        (range_header (pos 1) (pos 3))
        (prewarm no_hash (some service) episode candidate empty_world).1).0
try_serve_range-prewarm-hit_example =
    try_serve_range-prewarm-hit no_hash service episode candidate movie setting empty_world
      empty_world 1 3 uncached has_source_key (omega arith) (omega arith) (omega arith)

suffix_parsed :
    parse_range (text "bytes=-3") (pos 10)
    ≡ some (record { start = pos 7; end = pos 9; open_ended = false })
unfolding parse_range has_prefix trim_prefix trim_space split_2 parse_int ◌==◌
suffix_parsed = refl

parse_range-IsWithin_example :
    IsWithin (pos 10) (record { start = pos 7; end = pos 9; open_ended = false })
parse_range-IsWithin_example = parse_range-IsWithin (text "bytes=-3") (pos 10) _ suffix_parsed

parse_range-range_header_example :
    parse_range (range_header (pos 2) (pos 5)) (pos 10)
    ≡ some (record { start = pos 2; end = pos 5; open_ended = false })
parse_range-range_header_example =
    parse_range-range_header 2 5 10 (omega arith) (omega arith) (omega arith)

total_of_range-content_range_example :
    total_of_range (trim_space (content_range (pos 2) (pos 5) (pos 10))) ≡ some (pos 10)
total_of_range-content_range_example = total_of_range-content_range 2 5 10 (omega arith)

-- an entry with the head and the tail of the movie, and a world that holds them
abbrev entry : StartupMediaCache
entry = record {
  episode_id = episode;
  source_url = candidate.url;
  source_key = text "one.mp4";
  container = text "mp4";
  quality = text "720p";
  content_type = text "video/mp4";
  content_length = pos 10;
  head_key = text "h";
  head_bytes = pos 4;
  tail_key = text "t";
  tail_bytes = pos 3;
}

abbrev warm_world : World
warm_world = record {
  bodies = λ k. if k == text "h" then some (take 4 movie) else some (17 ∷ 18 ∷ 19 ∷ []);
  entries = λ k. some entry;
}

stored_tail : HoldsTail movie entry memory_blobs warm_world
unfolding ◌==◌
stored_tail = record { tail_length = 3; fits = omega arith; tail_bytes = refl; blob = refl }

found : Finds service episode warm_world movie
unfolding ◌==◌ stored_tail
found = record {
  store = memory_store;
  blobs = memory_blobs;
  has_store = refl;
  has_blobs = refl;
  entry = entry;
  after = warm_world;
  found = refl;
  holds = record {
    content_length = refl;
    head_length = 4;
    fits = omega arith;
    head_bytes = refl;
    head_blob = refl;
    tail = inr stored_tail;
  };
}

same : same_source no_hash entry candidate.url ≡ true
unfolding same_source source_key path_key ◌==◌ trim_space path_base trim_right to_lower split
same = refl

try_serve_range-Answers_example :
    Answers movie
      (text "bytes=2-")
      (try_serve_range no_hash (some service) episode candidate.url (text "bytes=2-") warm_world).0
try_serve_range-Answers_example =
    try_serve_range-Answers no_hash service episode candidate.url (text "bytes=2-") movie warm_world
      found

try_serve_range-tail_hit_example :
    Cut movie 8 9
      (try_serve_range no_hash
        (some service)
        episode
        candidate.url
        (range_header (pos 8) (pos 9))
        warm_world).0
unfolding found ◌==◌ trim_space
try_serve_range-tail_hit_example =
    try_serve_range-tail_hit no_hash movie 8 9 service episode candidate.url warm_world found
      stored_tail (omega arith) (omega arith) (omega arith) (omega arith) refl (omega arith) refl
      same
