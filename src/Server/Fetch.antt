-- ===== src/Server/Fetch.antt =====
-- internal/httpserver/media_fetch.go: small byte ranges of a media file are read once for the
-- requests that ask for them together, and kept for a moment. A call of singleflight's Do is one
-- run of its function; a request that waits for another one's run gets what that run gives.
pub mod Coalesce
pub mod Faithful
pub mod Upkeep
use zero_nime.Base.{
  ℕ, Bool, true, false, not, ◌&&◌, ◌||◌, Option, none, some, List, [], ◌∷◌, ◌++◌, take, length, ℤ,
  pos, ◌+ℤ◌, ◌-ℤ◌, ltb_ℤ, leb_ℤ, wrap64, pos_part, nat_eq, Result, ok, err, panic, M, pure, fail,
  lift, attempt, ◌>>=◌, ◌>>◌, if◌then◌else◌,
}
use zero_nime.Http.{Bytes, Response}
use zero_nime.Memory.{BufferedResponse, Cache, buffered, as_buffered, cache_get, cache_set}
use zero_nime.Text.Decimal.{parse_int}
use zero_nime.Text.{
  Text, text, ◌==◌, trim_space, to_lower, has_prefix, trim_prefix, split_2, first_part,
}

-- the text after its first six characters
abbrev pub after_6 : Text → Text
after_6 (a ∷ b ∷ c ∷ d ∷ e ∷ f ∷ s) = s
after_6 _ = []

abbrev pub two_bounds : Option ℤ → Option ℤ → Option (ℤ × ℤ)
two_bounds none end = none
two_bounds (some start) none = none
two_bounds (some start) (some end) = some (start, end)

-- 45 is '-' and 44 is ','
abbrev pub bounds_of_parts : Option (Text × Text) → Option (ℤ × ℤ)
bounds_of_parts none = none
bounds_of_parts (some (a, b)) =
    if trim_space a == [] || trim_space b == []
    then none
    else two_bounds (parse_int (trim_space a)) (parse_int (trim_space b))

-- explicitRange
unfoldable pub explicit_range : Text → Option (ℤ × ℤ)
explicit_range range =
    let header = trim_space range in
    if not (has_prefix (to_lower header) (text "bytes="))
    then none
    else bounds_of_parts (split_2 45 (trim_space (first_part 44 (trim_space (after_6 header)))))

abbrev pub media_key : Text → Text → Text
media_key raw_url range = text "media-buffer:" ++ raw_url ++ 124 ∷ trim_space range

-- the tests of coalescingRangeKey; `end-start+1` wraps around at 64 bits
abbrev pub key_of_bounds : Text → Text → ℤ → Option (ℤ × ℤ) → Option Text
key_of_bounds raw_url range max_bytes none = none
key_of_bounds raw_url range max_bytes (some (start, end)) =
    if ltb_ℤ start (pos 0) || ltb_ℤ end start
    then none
    else if ltb_ℤ max_bytes (wrap64 (wrap64 (end -ℤ start) +ℤ pos 1))
    then none
    else some (media_key raw_url range)

-- coalescingRangeKey
unfoldable pub coalescing_range_key : Text → Text → ℤ → Option Text
coalescing_range_key raw_url range max_bytes =
    key_of_bounds raw_url range max_bytes (explicit_range range)

abbrev pub starts_at_0 : Option (Text × Text) → Bool
starts_at_0 none = false
starts_at_0 (some (a, b)) = trim_space a == text "0"

-- isStartupRange
unfoldable pub is_startup_range : Text → Bool
is_startup_range range =
    let header = trim_space (to_lower range) in
    if header == []
    then true
    else if not (has_prefix header (text "bytes="))
    then false
    else starts_at_0 (split_2 45 (trim_space (first_part 44 (trim_space (after_6 header)))))

-- the bytes that io.LimitReader lets through, `none` where they are more than the maximum
abbrev pub within : ℤ → Bytes → Option Bytes
within max_bytes body =
    let read = take (pos_part (max_bytes +ℤ pos 1)) body in
    if ltb_ℤ max_bytes (pos (length read)) then none else some read

abbrev pub buffer_of : Response → Option Bytes → Option BufferedResponse
buffer_of resp none = none
buffer_of resp (some body) =
    some (record { status_code = resp.status_code; headers = resp.header; body = body })

abbrev pub is_bufferable : Response → ℤ → Bool
is_bufferable resp max_bytes =
    (nat_eq resp.status_code 206 || nat_eq resp.status_code 200)
    && not (leb_ℤ resp.content_length (pos 0) || ltb_ℤ max_bytes resp.content_length)

abbrev pub read_limited : Response → ℤ → Result Bytes → Result (Option BufferedResponse)
read_limited resp max_bytes (ok body) = ok (buffer_of resp (within max_bytes body))
read_limited resp max_bytes (err e) = err e
read_limited resp max_bytes panic = panic

-- a nil body panics when it is closed
abbrev pub read_opened : Response → ℤ → Option (Result Bytes) → Result (Option BufferedResponse)
read_opened resp max_bytes none = panic
read_opened resp max_bytes (some body) =
    if is_bufferable resp max_bytes then read_limited resp max_bytes body else ok none

-- readBufferedResponse; `ok none` is errResponseNotBufferable. An error of the body counts as one
-- in the part that is read.
unfoldable pub read_buffered_response : Option Response → ℤ → Result (Option BufferedResponse)
read_buffered_response none max_bytes = ok none
read_buffered_response (some resp) max_bytes = read_opened resp max_bytes resp.body

-- what Fetch returns without an error: a buffer or a response, and how long it took
pub data Fetched : Type 0 where
  from_buffer : BufferedResponse → ℤ → Fetched
  from_upstream : Option Response → ℤ → Fetched

pub record MediaFetcher (W : Type 0) : Type 0 where
  pub cache : Cache W
  pub fetch : Text → Text → M W (Option Response)
  -- time.Now
  pub now : M W ℤ
  pub buffer_ttl : ℤ
  pub max_buffered_bytes : ℤ
  pub slow_threshold : ℤ

module _ {W : Type 0} (f : MediaFetcher W) where
  -- cachedBuffered
  unfoldable pub cached_buffered : Text → M W (Option BufferedResponse)
  cached_buffered key = cache_get f.cache key >>= λ raw. pure (as_buffered raw)

  abbrev pub keep_buffer : Text → Option BufferedResponse → M W (Option BufferedResponse)
  keep_buffer key none = pure none
  keep_buffer key (some b) = cache_set f.cache key (buffered b) f.buffer_ttl >> pure (some b)

  abbrev pub buffer_or :
      M W (Option BufferedResponse) → Option BufferedResponse → M W (Option BufferedResponse)
  buffer_or next none = next
  buffer_or next (some b) = pure (some b)

  -- the upstream's answer, read and kept
  unfoldable pub fetch_buffered : Text → Text → Text → M W (Option BufferedResponse)
  fetch_buffered key raw_url range = f.fetch raw_url range >>= λ resp.
      lift (read_buffered_response resp f.max_buffered_bytes) >>= keep_buffer key

  -- the function that is given to Do; `none` is errResponseNotBufferable
  unfoldable pub flight : Text → Text → Text → M W (Option BufferedResponse)
  flight key raw_url range = cached_buffered key >>= buffer_or (fetch_buffered key raw_url range)

  -- time.Since
  abbrev pub since : ℤ → M W ℤ
  since started_at = f.now >>= λ later. pure (wrap64 (later -ℤ started_at))

  unfoldable pub fetch_direct : ℤ → Text → Text → M W Fetched
  fetch_direct started_at raw_url range =
      f.fetch raw_url range >>= λ resp. since started_at >>= λ took. pure (from_upstream resp took)

  abbrev pub buffer_or_direct : ℤ → Text → Text → Option BufferedResponse → M W Fetched
  buffer_or_direct started_at raw_url range none = fetch_direct started_at raw_url range
  buffer_or_direct started_at raw_url range (some b) =
      since started_at >>= λ took. pure (from_buffer b took)

  abbrev pub cached_or_flight : ℤ → Text → Text → Text → Option BufferedResponse → M W Fetched
  cached_or_flight started_at key raw_url range (some b) =
      since started_at >>= λ took. pure (from_buffer b took)
  cached_or_flight started_at key raw_url range none =
      flight key raw_url range >>= buffer_or_direct started_at raw_url range

  abbrev pub fetch_with_key : ℤ → Text → Text → Option Text → M W Fetched
  fetch_with_key started_at raw_url range none = fetch_direct started_at raw_url range
  fetch_with_key started_at raw_url range (some key) =
      cached_buffered key >>= cached_or_flight started_at key raw_url range

  -- Fetch; what it returns with an error is the error
  unfoldable pub fetch : Text → Text → M W Fetched
  fetch raw_url range = f.now >>= λ started_at.
      fetch_with_key started_at raw_url range
        (coalescing_range_key raw_url range f.max_buffered_bytes)

  -- ShouldRefreshAfterFetch
  unfoldable pub should_refresh_after_fetch : Text → ℤ → Bool
  should_refresh_after_fetch range duration =
      is_startup_range range && leb_ℤ f.slow_threshold duration
