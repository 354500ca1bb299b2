-- ===== src/Server/Media/Hosts.antt =====
-- The hosts that mediaRoute and imageRoute of internal/httpserver/public_handlers.go ask.
use zero_nime.Base.{
  ◌≡◌, sym, subst, not, ◌&&◌, Option, none, some, [], ◌++◌, pos, Result, ok, err, panic, Message, M,
  lift, attempt, ◌>>=◌, ◌>>◌, Preserves, lift-Preserves, pure-Preserves, attempt-Preserves,
  bind-Preserves, then-Preserves, if_cases,
}
use zero_nime.Domain.{StreamCandidate}
use zero_nime.Http.{Header}
use zero_nime.Identifiers.{resolve_episode_id, kind_episode}
use zero_nime.Identifiers.Upkeep.{resolve_id-Preserves}
use zero_nime.MediaCache.Serve.Upkeep.{StartupKeeps, try_serve_range-Preserves}
use zero_nime.MediaCache.Serve.{try_serve_range}
use zero_nime.MediaCache.{CachedResponse}
use zero_nime.MediaCache
use zero_nime.Memory.{Value, flag, cache_get, cache_set}
use zero_nime.Server.Fetch.Upkeep.{fetch-Preserves}
use zero_nime.Server.Fetch.{Fetched, from_upstream, fetch, should_refresh_after_fetch}
use zero_nime.Server.Media.{
  Task, refresh_stream, MediaServer, fetched_reply, duration_of, fetch_candidate, retry_media_fetch,
  throttle, refresh_stream_async, refresh_slow, after_fetch, media_failed, retry_fetch,
  fetched_or_retry, serve_fetched, cached_reply, cached_or, serve_cached, id_or, serve_media,
  media_route, upstream_of,
}
use zero_nime.Server.Proxy.Trusted.{Trusted, media_domains, media_fetch-Preserves}
use zero_nime.Server.Proxy.{media_allowed, media_fetch}
use zero_nime.Server.Reply.{Request, Reply, go_on, on_success}
use zero_nime.Stream.Resolve.Upkeep.{
  CacheKeeps, StreamsKeep, refresh-Preserves, invalidate-Preserves,
}
use zero_nime.Stream.Resolve.{invalidate, refresh}
use zero_nime.Text.{Text, text, ◌==◌, trim_space}

-- The property is kept by everything that mediaRoute calls, except for the requests that the
-- proxy's client sends: it is kept by those to trusted hosts. The fetcher asks the proxy.
pub record Guarded {W : Type 0} (P : W → Type 0) (s : MediaServer W) : Type 0 where
  pub sends :
      (url : Text) (h : Header)
      → Trusted s.media media_domains url
      → Preserves P (s.media.send url h)
  pub wired : (url range : Text) → s.fetcher.fetch url range ≡ upstream_of s.media url range
  pub lookups : (kind id : Text) → Preserves P (s.aliases.find_public kind id)
  pub streams : StreamsKeep P s.streams
  pub startup : StartupKeeps P s.startup
  pub predictive : StartupKeeps P s.predictive
  pub times : Preserves P s.fetcher.now
  pub buffers : CacheKeeps P s.fetcher.cache
  pub memory : CacheKeeps P s.cache
  pub starts : (task : Task) → Preserves P (s.start task)

module _ {W A : Type 0} (P : W → Type 0) where
  go_on-Preserves :
      (failed : Message → Reply) (next : A → M W Reply)
      → ((a : A) → Preserves P (next a))
      → (r : Result A) → Preserves P (go_on failed next r)
  go_on-Preserves failed next h (ok v) = h v
  go_on-Preserves failed next h (err e) = λ w h. h
  go_on-Preserves failed next h panic = λ w h. h

  pub on_success-Preserves :
      (call : M W A) (failed : Message → Reply) (next : A → M W Reply)
      → Preserves P call
      → ((a : A) → Preserves P (next a))
      → Preserves P (on_success call failed next)
  unfolding on_success
  on_success-Preserves call failed next h k =
      bind-Preserves P (attempt call) (go_on failed next) (attempt-Preserves P call h)
        (go_on-Preserves failed next k)

module _ {W : Type 0} (P : W → Type 0) (s : MediaServer W) (g : Guarded P s) where
  upstream-Preserves : (url range : Text) → Preserves P (s.fetcher.fetch url range)
  upstream-Preserves url range = subst (Preserves P) (sym (g.wired url range)) (
      bind-Preserves P (media_fetch s.media url range) _
        (media_fetch-Preserves s.media P g.sends url range) (λ resp. pure-Preserves P (some resp)))

  fetch_candidate-Preserves :
      (req : Request) (o : Option StreamCandidate) → Preserves P (fetch_candidate s req o)
  fetch_candidate-Preserves req none = λ w h. h
  fetch_candidate-Preserves req (some c) = media_fetch-Preserves s.media P g.sends c.url _

  retry_media_fetch-Preserves :
      (req : Request) (container : Text) → Preserves P (retry_media_fetch s req container)
  unfolding retry_media_fetch
  retry_media_fetch-Preserves req container =
      if_cases (Preserves P) (trim_space (req.query (text "episodeId")) == []) _ _ (λ _ w h. h)
        (λ _.
          bind-Preserves P
            (resolve_episode_id s.aliases (trim_space (req.query (text "episodeId")))) _
            (resolve_id-Preserves P s.aliases g.lookups kind_episode
              (trim_space (req.query (text "episodeId"))))
            (λ id.
              bind-Preserves P (invalidate s.streams id >> refresh s.streams id) _
                (then-Preserves P (invalidate s.streams id) (refresh s.streams id)
                  (invalidate-Preserves P s.streams g.streams id)
                  (refresh-Preserves P s.streams g.streams id))
                (λ r. fetch_candidate-Preserves req _)))

  throttle-Preserves : (id : Text) (o : Option Value) → Preserves P (throttle s id o)
  throttle-Preserves id (some v) = pure-Preserves P tt
  throttle-Preserves id none =
      then-Preserves P (cache_set s.cache (text "stream-refresh:" ++ id) flag _)
        (s.start (refresh_stream id))
        (λ w h. g.memory.sets (text "stream-refresh:" ++ id) flag _ w h)
        (g.starts (refresh_stream id))

  refresh_stream_async-Preserves : (id : Text) → Preserves P (refresh_stream_async s id)
  unfolding refresh_stream_async
  refresh_stream_async-Preserves id =
      if_cases (Preserves P) (trim_space id == []) _ _ (λ _ w h. h)
        (λ _.
          bind-Preserves P (cache_get s.cache (text "stream-refresh:" ++ id)) (throttle s id)
            (λ w h. g.memory.gets (text "stream-refresh:" ++ id) w h) (throttle-Preserves id))

  after_fetch-Preserves :
      (req : Request) (id : Text) (x : Fetched) → Preserves P (after_fetch s req id x)
  after_fetch-Preserves req id x =
      then-Preserves P (refresh_slow s req id x) (lift (fetched_reply req x))
        (if_cases (Preserves P)
          (not (id == [])
            && should_refresh_after_fetch s.fetcher (req.header (text "Range")) (duration_of x))
          _ _ (λ _. refresh_stream_async-Preserves id) (λ _ w h. h))
        (lift-Preserves P (fetched_reply req x))

  fetched_or_retry-Preserves :
      (req : Request) (id : Text) (r : Result Fetched) → Preserves P (fetched_or_retry s req id r)
  unfolding retry_fetch
  fetched_or_retry-Preserves req id (ok x) = after_fetch-Preserves req id x
  fetched_or_retry-Preserves req id (err e) =
      on_success-Preserves P (retry_media_fetch s req (req.header (text "container")))
        (media_failed s e) _ (retry_media_fetch-Preserves req (req.header (text "container")))
        (λ resp. after_fetch-Preserves req id (from_upstream (some resp) (pos 0)))
  fetched_or_retry-Preserves req id panic = λ w h. h

  serve_fetched-Preserves :
      (req : Request) (url id : Text) → Preserves P (serve_fetched s req url id)
  unfolding serve_fetched
  serve_fetched-Preserves req url id =
      bind-Preserves P (attempt (fetch s.fetcher url (req.header (text "Range"))))
        (fetched_or_retry s req id)
        (attempt-Preserves P (fetch s.fetcher url (req.header (text "Range"))) (
          fetch-Preserves P s.fetcher upstream-Preserves g.times g.buffers url
            (req.header (text "Range"))))
        (fetched_or_retry-Preserves req id)

  cached_or-Preserves :
      (next : M W Reply)
      → Preserves P next
      → (r : Result (Option CachedResponse)) → Preserves P (cached_or s next r)
  cached_or-Preserves next h (ok none) = h
  cached_or-Preserves next h (ok (some c)) = pure-Preserves P (cached_reply c)
  cached_or-Preserves next h (err e) = h
  cached_or-Preserves next h panic = λ w h. h

  serve_cached-Preserves :
      (req : Request) (url id : Text) (service : Option (MediaCache.Service W)) (next : M W Reply)
      → StartupKeeps P service
      → Preserves P next
      → Preserves P (serve_cached s req url id service next)
  unfolding serve_cached
  serve_cached-Preserves req url id service next k h =
      bind-Preserves P (attempt (try_serve_range s.keys service id url (req.header (text "Range"))))
        (cached_or s next)
        (attempt-Preserves P (try_serve_range s.keys service id url (req.header (text "Range")))
          (try_serve_range-Preserves P s.keys service id url (req.header (text "Range")) k))
        (cached_or-Preserves next h)

  id_or-Preserves : (given : Text) (r : Result Text) → Preserves P (id_or s given r)
  id_or-Preserves given (ok id) = pure-Preserves P id
  id_or-Preserves given (err e) = pure-Preserves P given
  id_or-Preserves given panic = λ w h. h

  serve_media-Preserves : (req : Request) (url : Text) → Preserves P (serve_media s req url)
  unfolding serve_media
  serve_media-Preserves req url =
      if_cases (Preserves {A = Reply} P) (trim_space (req.query (text "episodeId")) == []) _ _
        (λ _. serve_fetched-Preserves req url [])
        (λ _.
          bind-Preserves P
            (attempt (resolve_episode_id s.aliases (trim_space (req.query (text "episodeId"))))
              >>= id_or s (trim_space (req.query (text "episodeId"))))
            _
            (bind-Preserves P
              (attempt (resolve_episode_id s.aliases (trim_space (req.query (text "episodeId")))))
              (id_or s (trim_space (req.query (text "episodeId"))))
              (resolve_id-Preserves P s.aliases g.lookups kind_episode
                (trim_space (req.query (text "episodeId"))))
              (id_or-Preserves (trim_space (req.query (text "episodeId")))))
            (λ id.
              serve_cached-Preserves req url id s.startup
                (serve_cached s req url id s.predictive (serve_fetched s req url id)) g.startup
                (serve_cached-Preserves req url id s.predictive (serve_fetched s req url id)
                  g.predictive (serve_fetched-Preserves req url id))))

  -- Each property of the world that the provider, the database, the caches, the clock and the
  -- scheduler keep, and that the requests of the media proxy to trusted hosts keep, is kept by
  -- mediaRoute: the proxy asks its HTTP client for no URL of another host, whatever URL the client
  -- or the provider names. The redirects that the HTTP client follows are not seen.
  pub media_route-Preserves : (req : Request) → Preserves P (media_route s req)
  unfolding media_route
  media_route-Preserves req =
      if_cases (Preserves {A = Reply} P) (trim_space (req.query (text "url")) == []) _ _
        (λ _ w h. h)
        (λ _.
          if_cases (Preserves {A = Reply} P)
            (not (media_allowed s.media (trim_space (req.query (text "url"))))) _ _ (λ _ w h. h)
            (λ _. serve_media-Preserves req (trim_space (req.query (text "url")))))
