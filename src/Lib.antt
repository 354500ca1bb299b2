-- ===== src/Lib.antt =====
-- A model of ZeroNime, an HTTP backend that offers anime episodes from scraped providers, with
-- theorems on its core logic.
--
-- The parts of the program. HTTP handlers (internal/httpserver) ask services (internal/service)
-- for catalog data, streams and library items. The services work with a provider
-- (internal/provider), an in-memory cache (internal/cache) and a database (internal/store).
-- A stream is played through a proxy, which serves the head and the tail of a media file from the
-- startup cache (internal/mediacache) and leaves the rest to the upstream.
--
-- The files and the code that they model:
--   * Domain: internal/domain/models.go. Identifiers has the round trip of qualified identifiers.
--   * MediaCache: internal/mediacache/service.go. The service, its interfaces MetadataStore,
--     BlobStore and Fetcher, blobKey and sourceKey. Range is parseRange; Serve is TryServeRange
--     with buildCachedPartialResponse; Prewarm is Prewarm with isSufficientlyCached,
--     totalLengthFromResponse and readAllAndClose; Tiered is internal/mediacache/tiered.go;
--     Filesystem is internal/mediacache/filesystem.go; Blobs says what a working BlobStore is.
--   * Memory: internal/cache/cache.go, with the values that the services put into the cache.
--   * Stream: internal/service/stream/service.go. Normalize is normalizeCandidates; Select is
--     pickPreferredStream and the fallbacks of resolve; Expiry is signedURLExpiresAt,
--     resultExpiresAt, resultIsExpired and streamMemoryTTL; Resolve is Resolve, Refresh,
--     Invalidate and persist.
--   * Store: internal/store/postgres/store.go. Aliases is EnsureAlias and ResolveAlias, Uuid is
--     newUUID, Payloads has the stream, catalog, discovery and startup entries, Clients has the
--     clients, watchlists and histories.
--   * Identifiers: internal/service/identifiers/service.go.
--   * Catalog: internal/service/catalog/service.go. Clean has its pure functions, Listing the lists
--     and discovery pages, Detail is Catalog with the covers and dates that are asked for again.
--   * Library: internal/service/library/service.go.
--   * Predictive: internal/httpserver/predictive_startup_cache.go and predictive_handlers.go. Prune
--     is pruneInactive, Ids is normalizePredictiveEpisodeIDs, Candidate is
--     selectPredictiveCandidate.
--   * Registry: internal/provider/registry.go.
--   * Kuramanime: internal/provider/kuramanime. Episodes is episodes.go with collectEpisodes of
--     catalog.go, and Stream is stream.go. Otakudesu: internal/provider/otakudesu/stream.go.
--   * Identity: internal/service/identity/service.go.
--   * Server: internal/httpserver. Proxy is internal/mediaproxy/proxy.go and
--     internal/imageproxy/proxy.go; Fetch is media_fetch.go; Reply is envelope.go; Media is
--     mediaRoute and imageRoute, Public the other handlers of public_handlers.go, and Clients
--     library_handlers.go, middleware.go and the session and window handlers. The goroutines that
--     the handlers start are tasks that are given to a scheduler.
--   * Base, Text, Http: the parts of Go and its standard library that the code uses (int64 values,
--     slices, errors and panics, strings, headers). Tests: runs, and theorems at concrete values.
--
-- How state corresponds. A method is a function from a state W of the world to a result (a value,
-- an error or a panic) and a new state. W is arbitrary: stores, caches, clocks and providers are
-- records of operations on it, and a theorem names what it needs of them. A nil receiver or
-- interface is `none`. An int64 is an integer, with the wrap-around of a subtraction written out
-- where it can happen; a string is the list of its code points; a time is its number of
-- nanoseconds. All loops are recursion on a list or a number: the 24 pages that the loop of
-- collectEpisodes asks for at most are the code's own bound, so no fuel is needed. What other
-- goroutines do between the locked sections of pruneInactive is a parameter.
--
-- What is not modelled. Contexts and timeouts are part of what the parameters do. What url.Parse,
-- SHA-1, fiber, ttlcache, the database driver, the file system and the network do is a parameter, and
-- so is what goquery finds in a page. What an HTTP client does with a redirect, what a jsonb column
-- makes of a text, and the indexes of the tables are parts of these parameters. The scraping of
-- catalog and discovery pages, the release dates of episodes, the routing, the configuration and the
-- commands are not modelled.
mod Base
pub mod Text
pub mod Domain
pub mod Http
pub mod MediaCache
pub mod Memory
pub mod Stream
pub mod Store
pub mod Identifiers
pub mod Library
pub mod Predictive
pub mod Registry
pub mod Catalog
pub mod Server
pub mod Identity
pub mod Kuramanime
pub mod Otakudesu
pub mod Tests
