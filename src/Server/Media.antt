-- ===== src/Server/Media.antt =====
-- mediaRoute and imageRoute of internal/httpserver/public_handlers.go, with the refreshes of a
-- stream that they cause. A goroutine is a task that is handed to the scheduler; what the task
-- does when it runs is `run_task`.
pub mod Hosts
use zero_nime.Base.{
  ℕ, Bool, true, false, not, ◌&&◌, ◌||◌, Option, none, some, List, [], ◌∷◌, ◌++◌, find_first, ℤ,
  pos, Result, ok, err, panic, Message, M, pure, fail, lift, attempt, ◌>>=◌, ◌>>◌, if◌then◌else◌,
}
use zero_nime.Domain.{StreamCandidate, StreamResult}
use zero_nime.Http.{Bytes, Header, Response, header_get, header_set}
use zero_nime.Identifiers.{resolve_episode_id}
use zero_nime.MediaCache.Serve.{try_serve_range}
use zero_nime.MediaCache.{KeyFunctions, CachedResponse}
use zero_nime.MediaCache
use zero_nime.Memory.{BufferedResponse, Cache, flag, cache_get, cache_set, Value}
use zero_nime.Server.Fetch.{
  MediaFetcher, Fetched, from_buffer, from_upstream, fetch, should_refresh_after_fetch,
}
use zero_nime.Server.Proxy.{Client, media_allowed, image_allowed, media_fetch, image_fetch}
use zero_nime.Server.Reply.{Request, Reply, Content, json, whole, copied, refuse, on_success}
use zero_nime.Store.Aliases.{AliasTable}
use zero_nime.Stream.Resolve.{invalidate, refresh}
use zero_nime.Stream.Resolve
use zero_nime.Text.Decimal.{format_int}
use zero_nime.Text.{Text, text, ◌==◌, trim_space, to_lower, equal_fold}

-- the goroutines that the handlers start
pub data Task : Type 0 where
  refresh_stream : Text → Task
  prepare_window : ℕ → List Text → Task

-- what the media handlers use of the server
pub record MediaServer (W : Type 0) : Type 0 where
  pub aliases : AliasTable W
  pub streams : Resolve.Service W
  pub keys : KeyFunctions
  pub startup : Option (MediaCache.Service W)
  pub predictive : Option (MediaCache.Service W)
  pub image : Client W
  pub media : Client W
  pub fetcher : MediaFetcher W
  pub cache : Cache W
  pub start : Task → M W (Unit {0})
  pub image_max_age : ℤ

-- `if len(values) > 0 { c.Set(header, values[0]) }` for each header
unfoldable pub first_values : Header → Header
first_values [] = []
first_values ((k, []) ∷ h) = first_values h
first_values ((k, v ∷ vs) ∷ h) = header_set (first_values h) k v

-- what is answered from a startup cache
abbrev pub cached_reply : CachedResponse → Reply
cached_reply c = record {
  status = c.status_code;
  headers = first_values c.headers;
  content = whole c.body;
}

-- the content type, where the upstream names none that a player can use
unfoldable pub playable_type : Text → Text → Text
playable_type content_type container =
    if content_type == [] || content_type == text "application/octet-stream"
    then if to_lower (trim_space container) == text "mkv"
      then text "video/x-matroska"
      else text "video/mp4"
    else content_type

abbrev pub passed_headers : List Text
passed_headers =
    text "Accept-Ranges"
    ∷ text "Cache-Control"
    ∷ text "Content-Length"
    ∷ text "Content-Range"
    ∷ text "Etag"
    ∷ text "Last-Modified"
    ∷ []

-- the loop over the headers that are passed on
unfoldable pub passed : Header → List Text → Header
passed from [] = []
passed from (name ∷ names) =
    let value = header_get from name in
    let rest = passed from names in if not (value == []) then (name, value ∷ []) ∷ rest else rest

abbrev pub content_type : Text
content_type = text "Content-Type"

-- the end of mediaRoute; a nil response panics
unfoldable pub fetched_reply : Request → Fetched → Result Reply
fetched_reply req (from_buffer b took) = ok (record {
  status = b.status_code;
  headers =
      header_set (first_values b.headers) content_type
        (playable_type (header_get b.headers content_type) (req.query (text "container")));
  content = whole b.body;
})
fetched_reply req (from_upstream none took) = panic
fetched_reply req (from_upstream (some resp) took) = ok (record {
  status = resp.status_code;
  headers =
      header_set (passed resp.header passed_headers) content_type
        (playable_type (header_get resp.header content_type) (req.query (text "container")));
  content = copied resp.body;
})

abbrev pub duration_of : Fetched → ℤ
duration_of (from_buffer b took) = took
duration_of (from_upstream resp took) = took

abbrev pub first_of : List StreamCandidate → Option StreamCandidate
first_of [] = none
first_of (c ∷ cs) = some c

abbrev pub candidate_or : Option StreamCandidate → Option StreamCandidate → Option StreamCandidate
candidate_or none other = other
candidate_or (some c) other = some c

-- selectCandidateByContainer
unfoldable pub select_candidate_by_container : List StreamCandidate → Text → Option StreamCandidate
select_candidate_by_container candidates container =
    candidate_or (find_first (λ c. equal_fold c.container container) candidates)
      (first_of candidates)

-- the fetch function that newMediaFetcher takes from the proxy
abbrev pub upstream_of : {W : Type 0} → Client W → Text → Text → M W (Option Response)
upstream_of client url range = media_fetch client url range >>= λ resp. pure (some resp)

module _ {W : Type 0} (s : MediaServer W) where
  abbrev pub fetch_candidate : Request → Option StreamCandidate → M W Response
  fetch_candidate req none = fail (text "no refreshed candidate available")
  fetch_candidate req (some c) = media_fetch s.media c.url (req.header (text "Range"))

  -- retryMediaFetch
  unfoldable pub retry_media_fetch : Request → Text → M W Response
  retry_media_fetch req container =
      let episode_id = trim_space (req.query (text "episodeId")) in
      if episode_id == []
      then fail (text "episode id missing")
      else resolve_episode_id s.aliases episode_id >>= λ internal_id.
          invalidate s.streams internal_id >> refresh s.streams internal_id >>= λ r.
          fetch_candidate req
            (candidate_or r.preferred_stream (select_candidate_by_container r.candidates container))

  abbrev pub throttle : Text → Option Value → M W (Unit {0})
  throttle episode_id (some v) = pure tt
  throttle episode_id none =
      cache_set s.cache (text "stream-refresh:" ++ episode_id) flag (pos 5000000000)
      >> s.start (refresh_stream episode_id)

  -- refreshStreamAsync
  unfoldable pub refresh_stream_async : Text → M W (Unit {0})
  refresh_stream_async episode_id =
      if trim_space episode_id == []
      then pure tt
      else cache_get s.cache (text "stream-refresh:" ++ episode_id) >>= throttle episode_id

  -- the goroutine of refreshStreamAsync
  unfoldable pub run_refresh : Text → M W (Unit {0})
  run_refresh episode_id =
      invalidate s.streams episode_id >> attempt (refresh s.streams episode_id) >> pure tt

  abbrev pub refresh_slow : Request → Text → Fetched → M W (Unit {0})
  refresh_slow req episode_id x =
      if not (episode_id == [])
        && should_refresh_after_fetch s.fetcher (req.header (text "Range")) (duration_of x)
      then refresh_stream_async episode_id
      else pure tt

  abbrev pub after_fetch : Request → Text → Fetched → M W Reply
  after_fetch req episode_id x = refresh_slow req episode_id x >> lift (fetched_reply req x)

  abbrev pub media_failed : Message → Message → Reply
  media_failed e retried = refuse 502 (text "media_fetch_failed") e

  -- the fetch failed; the container is read from the headers
  unfoldable pub retry_fetch : Request → Text → Message → M W Reply
  retry_fetch req episode_id e =
      on_success (retry_media_fetch req (req.header (text "container"))) (media_failed e)
        (λ resp. after_fetch req episode_id (from_upstream (some resp) (pos 0)))

  abbrev pub fetched_or_retry : Request → Text → Result Fetched → M W Reply
  fetched_or_retry req episode_id (ok x) = after_fetch req episode_id x
  fetched_or_retry req episode_id (err e) = retry_fetch req episode_id e
  fetched_or_retry req episode_id panic = lift panic

  -- from the fetch on
  unfoldable pub serve_fetched : Request → Text → Text → M W Reply
  serve_fetched req raw_url episode_id =
      attempt (fetch s.fetcher raw_url (req.header (text "Range")))
      >>= fetched_or_retry req episode_id

  abbrev pub cached_or : M W Reply → Result (Option CachedResponse) → M W Reply
  cached_or next (ok (some c)) = pure (cached_reply c)
  cached_or next (ok none) = next
  cached_or next (err e) = next
  cached_or next panic = lift panic

  -- a startup cache is asked first
  unfoldable pub serve_cached :
      Request → Text → Text → Option (MediaCache.Service W) → M W Reply → M W Reply
  serve_cached req raw_url episode_id service next =
      attempt (try_serve_range s.keys service episode_id raw_url (req.header (text "Range")))
      >>= cached_or next

  abbrev pub id_or : Text → Result Text → M W Text
  id_or given (ok id) = pure id
  id_or given (err e) = pure given
  id_or given panic = lift panic

  -- the body of mediaRoute for a URL that is allowed
  unfoldable pub serve_media : Request → Text → M W Reply
  serve_media req raw_url =
      let episode_id = trim_space (req.query (text "episodeId")) in
      if episode_id == []
      then serve_fetched req raw_url []
      else attempt (resolve_episode_id s.aliases episode_id) >>= id_or episode_id >>= λ internal_id.
          serve_cached req raw_url internal_id s.startup (
            serve_cached req raw_url internal_id s.predictive
              (serve_fetched req raw_url internal_id))

  -- mediaRoute
  unfoldable pub media_route : Request → M W Reply
  media_route req =
      let raw_url = trim_space (req.query (text "url")) in
      if raw_url == []
      then pure (refuse 400 (text "invalid_media_url") (text "Media URL is required."))
      else if not (media_allowed s.media raw_url)
      then pure (refuse 403 (text "media_host_not_allowed") (text "Media host is not allowed."))
      else serve_media req raw_url

  abbrev pub image_reply : Bytes × Text → Reply
  image_reply (body, type) = record {
    status = 200;
    headers =
        header_set (header_set [] content_type type) (text "Cache-Control")
          (text "public, max-age=" ++ format_int s.image_max_age);
    content = whole body;
  }

  -- imageRoute
  unfoldable pub image_route : Request → M W Reply
  image_route req =
      let raw_url = req.query (text "url") in
      if trim_space raw_url == []
      then pure (refuse 400 (text "invalid_image_url") (text "Image URL is required."))
      else if not (image_allowed s.image raw_url)
      then pure (refuse 403 (text "image_host_not_allowed") (text "Image host is not allowed."))
      else on_success (image_fetch s.image raw_url) (λ e. refuse 502 (text "image_fetch_failed") e)
          (λ r. pure (image_reply r))
