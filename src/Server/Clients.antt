-- ===== src/Server/Clients.antt =====
-- The handlers for the clients' own data: internal/httpserver/library_handlers.go, ensureSession of
-- public_handlers.go, requireClient and rateLimit of middleware.go with rate_counter.go, and
-- primeStartupWindow of predictive_handlers.go.
pub mod Session
use zero_nime.Base.{
  ℕ, zero, suc, Bool, true, false, not, ◌||◌, ltb, leb, length, Option, none, some, List, [], ◌∷◌,
  ◌++◌, ℤ, pos, Result, ok, err, panic, Message, M, pure, lift, attempt, ◌>>=◌, ◌>>◌, if◌then◌else◌,
}
use zero_nime.Domain.{AnimeDetail}
use zero_nime.Http.{Header, header_set}
use zero_nime.Identifiers.{
  resolve_catalog_id, resolve_episode_id, public_watchlist, public_history,
  public_continue_watching,
}
use zero_nime.Identity.{ensure, random_token_of}
use zero_nime.Library.{
  list_watchlist, save_watchlist, delete_watchlist, list_history, save_history, delete_history,
  continue_watching,
}
use zero_nime.Predictive.{normalize_ids, should_queue}
use zero_nime.Server.Media.{MediaServer, prepare_window}
use zero_nime.Server.Public.{Server, decode_path_param}
use zero_nime.Server.Reply.{
  Request, Reply, Payload, session, watchlist, history, watching, saved, saved_episode, deleted,
  window, json, ok_envelope, answer_ok, refuse, storage_unavailable, on_success,
}
use zero_nime.Store.Clients.{AnonymousClient, ClientTables, find_client}
use zero_nime.Text.{Text, text, ◌==◌, trim_space}

-- the JSON of the requests' bodies; c.BodyParser gives `none` for an error
pub record HistoryInput : Type 0 where
  pub catalog_id : Text
  pub episode_id : Text
  pub position_seconds : ℤ
  pub title : Text
  pub cover_image : Text
  pub provider : Text

pub record WindowInput : Type 0 where
  pub current_episode_id : Text
  pub next_episode_ids : List Text

-- the counts of rateCounter
unfoldable pub count_of : Text → List (Text × ℕ) → ℕ
count_of key [] = 0
count_of key ((k, n) ∷ counts) = if k == key then n else count_of key counts

-- rateCounter.Increment: the counts, and the count of the key
unfoldable pub increment : Text → List (Text × ℕ) → List (Text × ℕ) × ℕ
increment key counts = let n = suc (count_of key counts) in ((key, n) ∷ counts, n)

-- what the handlers for clients use besides
pub record ClientServer (W : Type 0) : Type 0 where
  pub server : Server W
  pub tables : ClientTables W
  -- rand.Read of 24 bytes
  pub random_bytes : M W (List ℕ)
  -- publicRPM.Increment of the IP address and the minute
  pub count_request : M W ℕ
  pub public_limit : ℕ

abbrev pub with_header : Text → Text → Reply → Reply
with_header key value r = record r { headers = header_set r.headers key value }

abbrev pub client_required : Reply
client_required = refuse 401 (text "client_token_required") (text "Anonymous session required.")

abbrev pub invalid_payload : Text → Message → Reply
invalid_payload message e = refuse 400 (text "invalid_payload") message

abbrev pub token_header : Text
token_header = text "X-Client-Token"

module _ {W : Type 0} (s : ClientServer W) where
  abbrev pub session_reply : AnonymousClient → Reply
  session_reply client =
      with_header token_header client.token (answer_ok (session client.token client.id) [])

  -- ensureSession
  unfoldable pub ensure_session : Request → M W Reply
  ensure_session req =
      on_success (ensure s.tables (random_token_of s.random_bytes) (req.header token_header))
        storage_unavailable (λ r. pure (session_reply r.0))

  abbrev pub as_client : Request → AnonymousClient → Request
  as_client req client = record req { client_id = client.id }

  -- requireClient
  unfoldable pub require_client : (Request → M W Reply) → Request → M W Reply
  require_client next req =
      let token = trim_space (req.header token_header) in
      if token == []
      then pure client_required
      else on_success (find_client s.tables token) (λ e. client_required)
          (λ client. next (as_client req client))

  -- rateLimit
  unfoldable pub rate_limit : (Request → M W Reply) → Request → M W Reply
  rate_limit next req = s.count_request >>= λ n.
      if ltb s.public_limit n
      then pure (refuse 429 (text "rate_limited") (text "Too many requests."))
      else next req

  abbrev pub catalog_of : Text → M W Text
  catalog_of id = resolve_catalog_id s.server.media.aliases id

  abbrev pub episode_of : Text → M W Text
  episode_of id = resolve_episode_id s.server.media.aliases id

  abbrev pub path_catalog : Request → M W Text
  path_catalog req = catalog_of (decode_path_param s.server.urls (req.param (text "catalogId")))

  abbrev pub detail_of : Text → M W AnimeDetail
  detail_of id = s.server.catalogs.provider.catalog_detail id

  -- an internal list, with public identifiers
  abbrev pub listing : {A B : Type 0} → M W A → (A → M W B) → (B → Payload) → M W Reply
  listing call public payload =
      on_success call storage_unavailable (λ v. public v >>= λ p. pure (answer_ok (payload p) []))

  unfoldable pub watchlist_route : Request → M W Reply
  watchlist_route req =
      listing (list_watchlist s.tables detail_of req.client_id)
        (public_watchlist s.server.media.aliases) watchlist

  abbrev pub bad_catalog : Message → Reply
  bad_catalog e = invalid_payload (text "catalogId is invalid.") e

  abbrev pub created : Reply → Reply
  created r = record r { status = 201 }

  abbrev pub save_watchlist_input : Request → Option Text → M W Reply
  save_watchlist_input req none = pure (invalid_payload (text "catalogId is required.") [])
  save_watchlist_input req (some id) =
      if id == []
      then pure (invalid_payload (text "catalogId is required.") [])
      else on_success (catalog_of id) bad_catalog (λ internal_id.
        on_success (save_watchlist s.tables detail_of req.client_id internal_id)
          (λ e. refuse 502 (text "watchlist_failed") e)
          (λ _. pure (created (answer_ok (saved id) []))))

  -- saveWatchlist, with the catalogId of the body
  unfoldable pub save_watchlist_route : Option Text → Request → M W Reply
  save_watchlist_route body req = save_watchlist_input req body

  unfoldable pub delete_watchlist_route : Request → M W Reply
  delete_watchlist_route req = on_success (path_catalog req) bad_catalog (λ internal_id.
      on_success (delete_watchlist s.tables detail_of req.client_id internal_id) storage_unavailable
        (λ _. pure (answer_ok deleted [])))

  unfoldable pub history_route : Request → M W Reply
  history_route req =
      listing (list_history s.tables detail_of req.client_id)
        (public_history s.server.media.aliases) history

  abbrev pub save_history_input : Request → Option HistoryInput → M W Reply
  save_history_input req none =
      pure (invalid_payload (text "catalogId and episodeId are required.") [])
  save_history_input req (some input) =
      if input.catalog_id == [] || input.episode_id == []
      then pure (invalid_payload (text "catalogId and episodeId are required.") [])
      else on_success (catalog_of input.catalog_id) bad_catalog (λ catalog_id.
        on_success (episode_of input.episode_id) (invalid_payload (text "episodeId is invalid."))
          (λ episode_id.
            on_success
              (save_history s.tables detail_of req.client_id catalog_id episode_id
                input.position_seconds input.title input.cover_image input.provider)
              storage_unavailable
              (λ _. pure (answer_ok (saved_episode input.catalog_id input.episode_id) []))))

  -- saveHistory
  unfoldable pub save_history_route : Option HistoryInput → Request → M W Reply
  save_history_route body req = save_history_input req body

  unfoldable pub delete_history_route : Request → M W Reply
  delete_history_route req = on_success (path_catalog req) bad_catalog (λ internal_id.
      on_success (delete_history s.tables detail_of req.client_id internal_id) storage_unavailable
        (λ _. pure (answer_ok deleted [])))

  unfoldable pub continue_watching_route : Request → M W Reply
  continue_watching_route req =
      listing (continue_watching s.tables detail_of req.client_id)
        (public_continue_watching s.server.media.aliases) watching

  abbrev pub window_reply : ℕ → Text → Bool → Bool → Reply
  window_reply queued current deduped enabled =
      record (answer_ok (window queued current deduped enabled) []) { status = 202 }

  -- the goroutine is started if the window is not throttled
  abbrev pub queue_window : Request → Text → List Text → Bool → M W Reply
  queue_window req current ids true =
      s.server.media.start (prepare_window req.client_id ids)
      >> pure (window_reply (length ids) current false true)
  queue_window req current ids false = pure (window_reply 0 current true true)

  abbrev pub prime_ids : Request → Text → List Text → M W Reply
  prime_ids req current [] = pure (window_reply 0 current false true)
  prime_ids req current (id ∷ ids) =
      should_queue (some s.server.media.cache) req.client_id (id ∷ ids) (pos 30000000000)
      >>= queue_window req current (id ∷ ids)

  -- `s.predictive == nil` or not
  abbrev pub prime_enabled : {A : Type 0} → Request → WindowInput → Option A → M W Reply
  prime_enabled req input none = pure (window_reply 0 input.current_episode_id false false)
  prime_enabled req input (some predictive) =
      prime_ids req input.current_episode_id (normalize_ids [] 2 input.next_episode_ids)

  abbrev pub prime_input : Request → Option WindowInput → M W Reply
  prime_input req none = pure (invalid_payload (text "Payload warmup episode tidak valid.") [])
  prime_input req (some input) = prime_enabled req input s.server.media.predictive

  -- primeStartupWindow
  unfoldable pub prime_startup_window : Option WindowInput → Request → M W Reply
  prime_startup_window body req = prime_input req body
