-- ===== src/Server/Public.antt =====
-- The public handlers of internal/httpserver/public_handlers.go but for those of Media, and
-- decodePathParam of params.go.
use zero_nime.Base.{
  Bool, true, false, ◌&&◌, ◌||◌, Option, none, some, List, [], ◌∷◌, ◌++◌, map, ltb, pos, Result, ok,
  err, panic, Message, M, pure, lift, attempt, ◌>>=◌, if◌then◌else◌,
}
use zero_nime.Catalog.Detail.{catalog, episodes_of}
use zero_nime.Catalog.Listing.{
  home_call, search_call, schedule_call, index_call, schedule_page, property_list, property_catalog,
  quick_catalog, seasonal_popular,
}
use zero_nime.Catalog.Listing
use zero_nime.Domain.{StreamCandidate, StreamResult, CollectionPage, Episode}
use zero_nime.Identifiers.{
  resolve_catalog_id, resolve_episode_id, public_catalog_id, public_home, public_anime_cards,
  public_schedule, public_index, public_property_list, public_collection_page, public_detail,
  public_episodes, public_stream,
}
use zero_nime.Server.Media.{MediaServer}
use zero_nime.Server.Proxy.{Url}
use zero_nime.Server.Reply.{
  Request, Reply, Payload, healthy, feed, found, schedule, indexed, properties, page, shown,
  episodes, streams, answer_ok, refuse, provider_failed, on_success,
}
use zero_nime.Stream.Resolve.{resolve}
use zero_nime.Text.{Text, text, ◌==◌, trim_space, byte_count}

-- url.PathUnescape, with `none` for an error; url.QueryEscape; url.Parse; and whether net.ParseIP
-- reads an address
pub record UrlFunctions : Type 0 where
  pub path_unescape : Text → Option Text
  pub query_escape : Text → Text
  pub parse : Text → Option Url
  pub is_ip : Text → Bool

pub record Server (W : Type 0) : Type 0 where
  pub provider : Text
  pub catalogs : Listing.Service W
  pub media : MediaServer W
  pub urls : UrlFunctions
  pub ping : M W (Unit {0})

abbrev decoded : Text → Option Text → Text
decoded value none = value
decoded value (some d) = d

abbrev local_host : Text → Bool → Bool
local_host host ip = host == [] || host == text "localhost" || host == text "127.0.0.1" || ip

module _ (u : UrlFunctions) where
  -- decodePathParam
  unfoldable pub decode_path_param : Text → Text
  decode_path_param value = decoded value (u.path_unescape value)

  abbrev pub is_local_parsed : Option Url → Bool
  is_local_parsed none = false
  is_local_parsed (some url) =
      url.path == text "/api/v2/media" && local_host url.hostname (u.is_ip url.hostname)

  -- isLocalMediaURL
  unfoldable pub is_local_media_url : Text → Bool
  is_local_media_url raw_url = is_local_parsed (u.parse (trim_space raw_url))

  -- proxyMediaURL
  unfoldable pub proxy_media_url : Text → Text → Text → Text → Text
  proxy_media_url base_url episode_id raw_url container =
      if is_local_media_url raw_url
      then raw_url
      else base_url
        ++ (text "/api/v2/media?url="
            ++ (u.query_escape raw_url
                ++ (text "&container="
                    ++ (u.query_escape container
                        ++ (text "&episodeId=" ++ u.query_escape episode_id)))))

  -- a direct candidate is played through the proxy
  abbrev pub proxied : Text → Text → StreamCandidate → StreamCandidate
  proxied base_url episode_id c =
      if c.is_direct
      then record c { url = proxy_media_url base_url episode_id c.url c.container }
      else c

  abbrev pub proxied_preferred : Text → Text → Option StreamCandidate → Option StreamCandidate
  proxied_preferred base_url episode_id none = none
  proxied_preferred base_url episode_id (some c) = some (proxied base_url episode_id c)

  -- what streamResolve makes of a clone of the result
  unfoldable pub proxied_result : Text → StreamResult → StreamResult
  proxied_result base_url r = record r {
    candidates = map (proxied base_url r.episode_id) r.candidates;
    preferred_stream = proxied_preferred base_url r.episode_id r.preferred_stream;
  }

module _ {W : Type 0} (s : Server W) where
  abbrev pub ping_reply : Result (Unit {0}) → M W Reply
  ping_reply (ok _) = pure (answer_ok (healthy true) [])
  ping_reply (err e) = pure (answer_ok (healthy false) [])
  ping_reply panic = lift panic

  unfoldable pub health : Request → M W Reply
  health req = attempt s.ping >>= ping_reply

  -- the provider's data, with public identifiers
  unfoldable pub publish :
      {A B : Type 0} → M W A → (A → M W B) → (B → Payload) → List (Text × Text) → M W Reply
  publish call public payload meta =
      on_success call provider_failed (λ v. public v >>= λ p. pure (answer_ok (payload p) meta))

  unfoldable pub home : Request → M W Reply
  home req =
      publish (home_call s.catalogs) (public_home s.media.aliases) feed
        ((text "provider", s.provider) ∷ [])

  unfoldable pub search : Request → M W Reply
  search req =
      let q = trim_space (req.query (text "q")) in
      if ltb (byte_count q) 2
      then pure
          (refuse 400 (text "invalid_query") (text "Search query must be at least 2 characters."))
      else publish (search_call s.catalogs q) (public_anime_cards s.media.aliases) found
          ((text "query", q) ∷ [])

  unfoldable pub schedule_route : Request → M W Reply
  schedule_route req =
      publish (schedule_call s.catalogs) (public_schedule s.media.aliases) schedule []

  unfoldable pub index_route : Request → M W Reply
  index_route req = publish (index_call s.catalogs) (public_index s.media.aliases) indexed []

  unfoldable pub property_list_route : Request → M W Reply
  property_list_route req =
      publish (property_list s.catalogs (trim_space (req.param (text "kind"))))
        (λ v. pure (public_property_list s.media.aliases v)) properties []

  abbrev pub publish_page : M W CollectionPage → M W Reply
  publish_page call = publish call (public_collection_page s.media.aliases) page []

  unfoldable pub property_catalog_route : Request → M W Reply
  property_catalog_route req = publish_page (
      property_catalog s.catalogs (trim_space (req.param (text "kind")))
        (decode_path_param s.urls (req.param (text "propertyId")))
        (trim_space (req.query (text "order"))) (req.query_int (text "page") (pos 1)))

  unfoldable pub quick_catalog_route : Request → M W Reply
  quick_catalog_route req = publish_page (
      quick_catalog s.catalogs (trim_space (req.param (text "kind")))
        (trim_space (req.query (text "order"))) (req.query_int (text "page") (pos 1)))

  unfoldable pub schedule_page_route : Request → M W Reply
  schedule_page_route req = publish_page (
      schedule_page s.catalogs (trim_space (req.query (text "day")))
        (req.query_int (text "page") (pos 1)))

  unfoldable pub seasonal_popular_route : Request → M W Reply
  seasonal_popular_route req = publish_page (seasonal_popular s.catalogs)

  abbrev pub invalid_identifier : Text → Message → Reply
  invalid_identifier message e = refuse 400 (text "invalid_identifier") message

  unfoldable pub catalog_detail : Request → M W Reply
  catalog_detail req =
      on_success
        (resolve_catalog_id s.media.aliases
          (decode_path_param s.urls (req.param (text "catalogId"))))
        (invalid_identifier (text "Catalog identifier is invalid."))
        (λ id. publish (catalog s.catalogs id) (public_detail s.media.aliases) shown [])

  unfoldable pub catalog_episodes : Request → M W Reply
  catalog_episodes req =
      on_success
        (resolve_catalog_id s.media.aliases
          (decode_path_param s.urls (req.param (text "catalogId"))))
        (invalid_identifier (text "Catalog identifier is invalid."))
        (λ id.
          publish {B = Text × List Episode} (episodes_of s.catalogs id)
            (λ items. public_catalog_id s.media.aliases id >>= λ catalog_id.
              public_episodes s.media.aliases items >>= λ shown_items.
              pure (catalog_id, shown_items))
            (λ r. episodes r.0 r.1) [])

  unfoldable pub stream_resolve : Request → M W Reply
  stream_resolve req =
      on_success
        (resolve_episode_id s.media.aliases
          (decode_path_param s.urls (req.param (text "episodeId"))))
        (invalid_identifier (text "Episode identifier is invalid."))
        (λ id.
          publish (resolve s.media.streams id) (public_stream s.media.aliases)
            (λ r. streams (proxied_result s.urls req.base_url r))
            ((text "provider", s.provider) ∷ []))
