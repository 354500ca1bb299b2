-- ===== src/Server/Fetch/Upkeep.antt =====
-- What Fetch of internal/httpserver/media_fetch.go leaves of the world.
use zero_nime.Base.{
  Option, none, some, ℤ, M, pure, lift, ◌>>=◌, Preserves, pure-Preserves, lift-Preserves,
  bind-Preserves,
}
use zero_nime.Memory.{BufferedResponse, buffered}
use zero_nime.Server.Fetch.{
  MediaFetcher, from_buffer, from_upstream, read_buffered_response, cached_buffered, keep_buffer,
  buffer_or, fetch_buffered, flight, since, fetch_direct, buffer_or_direct, cached_or_flight,
  fetch_with_key, fetch, coalescing_range_key,
}
use zero_nime.Stream.Resolve.Upkeep.{CacheKeeps}
use zero_nime.Text.{Text}

module _ {W : Type 0} (P : W → Type 0) (f : MediaFetcher W)
    (asks : (url range : Text) → Preserves P (f.fetch url range)) (times : Preserves P f.now)
    (memory : CacheKeeps P f.cache) where
  since-Preserves : (t : ℤ) → Preserves P (since f t)
  since-Preserves t = bind-Preserves P f.now _ times (λ later w h. h)

  fetch_direct-Preserves : (t : ℤ) (url range : Text) → Preserves P (fetch_direct f t url range)
  unfolding fetch_direct
  fetch_direct-Preserves t url range =
      bind-Preserves P (f.fetch url range) _ (asks url range) (λ resp.
        bind-Preserves P (since f t) _ (since-Preserves t)
          (λ took. pure-Preserves P (from_upstream resp took)))

  buffer-Preserves :
      (t : ℤ) (b : BufferedResponse) → Preserves P (since f t >>= λ took. pure (from_buffer b took))
  buffer-Preserves t b =
      bind-Preserves P (since f t) _ (since-Preserves t)
        (λ took. pure-Preserves P (from_buffer b took))

  cached_buffered-Preserves : (key : Text) → Preserves P (cached_buffered f key)
  unfolding cached_buffered
  cached_buffered-Preserves key w h = memory.gets key w h

  keep_buffer-Preserves :
      (key : Text) (o : Option BufferedResponse) → Preserves P (keep_buffer f key o)
  keep_buffer-Preserves key none = λ w h. h
  keep_buffer-Preserves key (some b) = λ w h. memory.sets key (buffered b) f.buffer_ttl w h

  fetch_buffered-Preserves : (key url range : Text) → Preserves P (fetch_buffered f key url range)
  unfolding fetch_buffered
  fetch_buffered-Preserves key url range =
      bind-Preserves P (f.fetch url range) _ (asks url range) (λ resp.
        bind-Preserves P (lift (read_buffered_response resp f.max_buffered_bytes))
          (keep_buffer f key) (lift-Preserves P (read_buffered_response resp f.max_buffered_bytes))
          (keep_buffer-Preserves key))

  buffer_or-Preserves :
      (next : M W (Option BufferedResponse))
      → Preserves P next
      → (o : Option BufferedResponse) → Preserves P (buffer_or f next o)
  buffer_or-Preserves next h none = h
  buffer_or-Preserves next h (some b) = pure-Preserves P (some b)

  flight-Preserves : (key url range : Text) → Preserves P (flight f key url range)
  unfolding flight
  flight-Preserves key url range =
      bind-Preserves P (cached_buffered f key) (buffer_or f (fetch_buffered f key url range))
        (cached_buffered-Preserves key)
        (buffer_or-Preserves (fetch_buffered f key url range)
          (fetch_buffered-Preserves key url range))

  buffer_or_direct-Preserves :
      (t : ℤ) (url range : Text) (o : Option BufferedResponse)
      → Preserves P (buffer_or_direct f t url range o)
  buffer_or_direct-Preserves t url range none = fetch_direct-Preserves t url range
  buffer_or_direct-Preserves t url range (some b) = buffer-Preserves t b

  cached_or_flight-Preserves :
      (t : ℤ) (key url range : Text) (o : Option BufferedResponse)
      → Preserves P (cached_or_flight f t key url range o)
  cached_or_flight-Preserves t key url range (some b) = buffer-Preserves t b
  cached_or_flight-Preserves t key url range none =
      bind-Preserves P (flight f key url range) (buffer_or_direct f t url range)
        (flight-Preserves key url range) (buffer_or_direct-Preserves t url range)

  fetch_with_key-Preserves :
      (t : ℤ) (url range : Text) (o : Option Text) → Preserves P (fetch_with_key f t url range o)
  fetch_with_key-Preserves t url range none = fetch_direct-Preserves t url range
  fetch_with_key-Preserves t url range (some key) =
      bind-Preserves P (cached_buffered f key) (cached_or_flight f t key url range)
        (cached_buffered-Preserves key) (cached_or_flight-Preserves t key url range)

  -- Fetch keeps what the upstream, the clock and the memory keep.
  pub fetch-Preserves : (url range : Text) → Preserves P (fetch f url range)
  unfolding fetch
  fetch-Preserves url range = bind-Preserves P f.now _ times (λ t.
      fetch_with_key-Preserves t url range (coalescing_range_key url range f.max_buffered_bytes))
