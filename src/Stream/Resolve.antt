-- ===== src/Stream/Resolve.antt =====
-- Service of internal/service/stream/service.go: how a stream result is found, kept and dropped.
-- The provider, the cache, the database and the clock are parameters, and so is sort.Slice, which
-- orders elements of one priority as it likes.
pub mod Outcomes
pub mod Total
pub mod Upkeep
use zero_nime.Base.{
  Bool, true, false, not, ◌&&◌, Option, none, some, List, ◌++◌, ℤ, Result, ok, err, panic, M, pure,
  attempt, ◌>>=◌, ◌>>◌, if◌then◌else◌,
}
use zero_nime.Domain.{StreamCandidate, StreamResult}
use zero_nime.Memory.{Cache, stream, as_stream, cache_get, cache_set, cache_delete}
use zero_nime.Stream.Expiry.{Calendar, result_is_expired, result_expires_at, stream_memory_ttl}
use zero_nime.Stream.Normalize.{normalize_candidates}
use zero_nime.Stream.Select.{select_stream}
use zero_nime.Text.{Text, text}

-- the stream cache of postgres.Store
pub record StreamStore (W : Type 0) : Type 0 where
  pub get_stream_cache : Text → ℤ → M W (Option StreamResult)
  pub upsert_stream_cache : Text → StreamResult → ℤ → M W (Unit {0})
  pub delete_stream_cache : Text → M W (Unit {0})

pub record Service (W : Type 0) : Type 0 where
  pub name : Text
  pub stream_candidates : Text → M W (List StreamCandidate)
  pub cache : Cache W
  pub store : Option (StreamStore W)
  pub ttl : ℤ
  -- time.Now
  pub now : M W ℤ
  pub calendar : Calendar
  -- sort.Slice by descending priority
  pub sort_slice : List StreamCandidate → List StreamCandidate

abbrev pub stream_key : Text → Text
stream_key episode_id = text "stream:" ++ episode_id

module _ {W : Type 0} (s : Service W) where
  -- `s.cache.Set` with streamMemoryTTL
  unfoldable pub remember : Text → ℤ → StreamResult → M W (Unit {0})
  remember key now r = s.now >>= λ later.
      cache_set s.cache key (stream r) (stream_memory_ttl s.calendar later now r s.ttl)

  abbrev pub save_result : Option (StreamStore W) → Text → ℤ → StreamResult → M W (Unit {0})
  save_result none episode_id now r = pure tt
  save_result (some store) episode_id now r =
      attempt (store.upsert_stream_cache episode_id r (result_expires_at s.calendar now r))
      >> pure tt

  -- persist
  unfoldable pub persist : Text → Text → StreamResult → M W (Unit {0})
  persist key episode_id r =
      s.now >>= λ now. remember key now r >> save_result s.store episode_id now r

  -- the value in memory
  abbrev pub from_memory : Text → ℤ → Option StreamResult → M W (Option StreamResult)
  from_memory key now (some r) =
      if not (result_is_expired s.calendar now r)
      then pure (some r)
      else cache_delete s.cache key >> pure none
  from_memory key now none = pure none

  unfoldable pub look_in_memory : Text → ℤ → M W (Option StreamResult)
  look_in_memory key now = cache_get s.cache key >>= λ raw. from_memory key now (as_stream raw)

  -- the value in the database
  abbrev pub from_store :
      StreamStore W → Text → Text → ℤ → Result (Option StreamResult) → M W (Option StreamResult)
  from_store store key episode_id now (ok (some r)) =
      if result_is_expired s.calendar now r
      then attempt (store.delete_stream_cache episode_id) >> pure none
      else remember key now r >> pure (some r)
  from_store store key episode_id now (ok none) = pure none
  from_store store key episode_id now (err _) = pure none
  from_store store key episode_id now panic = pure none

  abbrev pub look_in_store : Option (StreamStore W) → Text → Text → ℤ → M W (Option StreamResult)
  look_in_store none key episode_id now = pure none
  look_in_store (some store) key episode_id now = s.now >>= λ at.
      attempt (store.get_stream_cache episode_id at) >>= from_store store key episode_id now

  -- the result made of the provider's candidates
  unfoldable pub result_of : Text → List StreamCandidate → StreamResult
  result_of episode_id candidates =
      select_stream episode_id s.name (s.sort_slice (normalize_candidates candidates))

  unfoldable pub ask_provider : Text → M W StreamResult
  ask_provider episode_id = s.stream_candidates episode_id >>= λ candidates.
      persist (stream_key episode_id) episode_id (result_of episode_id candidates)
      >> pure (result_of episode_id candidates)

  -- the value found, or else the next place
  abbrev pub or_next : M W StreamResult → Option StreamResult → M W StreamResult
  or_next next none = next
  or_next next (some r) = pure r

  -- resolve
  unfoldable pub resolve_stream : Text → Bool → M W StreamResult
  resolve_stream episode_id force_refresh = s.now >>= λ now.
      if force_refresh
      then ask_provider episode_id
      else look_in_memory (stream_key episode_id) now
        >>= or_next (
            look_in_store s.store (stream_key episode_id) episode_id now
            >>= or_next (ask_provider episode_id))

  -- Resolve
  abbrev pub resolve : Text → M W StreamResult
  resolve episode_id = resolve_stream episode_id false

  -- Refresh
  abbrev pub refresh : Text → M W StreamResult
  refresh episode_id = resolve_stream episode_id true

  abbrev pub drop_result : Option (StreamStore W) → Text → M W (Unit {0})
  drop_result none episode_id = pure tt
  drop_result (some store) episode_id = attempt (store.delete_stream_cache episode_id) >> pure tt

  -- Invalidate
  unfoldable pub invalidate : Text → M W (Unit {0})
  invalidate episode_id =
      cache_delete s.cache (stream_key episode_id) >> drop_result s.store episode_id
