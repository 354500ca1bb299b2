-- ===== src/Stream/Resolve/Total.antt =====
-- Resolve and Refresh answer whatever the database does.
use zero_nime.Base.{
  refl, Bool, not, Option, none, some, ℤ, Result, ok, err, panic, M, attempt, if_cases, Returns,
  Survives, pure-Returns, attempt-Returns, bind-Returns,
}
use zero_nime.Domain.{StreamResult}
use zero_nime.Memory.{as_stream, cache_get}
use zero_nime.Stream.Expiry.{result_is_expired, result_expires_at}
use zero_nime.Stream.Resolve.{
  Service, StreamStore, stream_key, remember, persist, from_memory, look_in_memory, from_store,
  look_in_store, result_of, ask_provider, or_next, resolve_stream, save_result,
}
use zero_nime.Text.{Text}

-- The operations of the database do not panic, whatever errors they return.
pub record NoPanic {W : Type 0} (store : StreamStore W) : Type 0 where
  pub get : (id : Text) (at : ℤ) → Survives (store.get_stream_cache id at)
  pub upsert :
      (id : Text) (r : StreamResult) (at : ℤ) → Survives (store.upsert_stream_cache id r at)
  pub delete : (id : Text) → Survives (store.delete_stream_cache id)

abbrev pub StoreNoPanic : {W : Type 0} → Option (StreamStore W) → Type 0
StoreNoPanic none = Unit
StoreNoPanic (some store) = NoPanic store

module _ {W : Type 0} (s : Service W) (clock : Returns s.now)
    (database : StoreNoPanic s.store) where
  remember-Returns : (key : Text) (now : ℤ) (r : StreamResult) → Returns (remember s key now r)
  unfolding remember
  remember-Returns key now r = bind-Returns s.now _ clock (λ later w. (tt, refl))

  save_result-Returns :
      (o : Option (StreamStore W))
      → StoreNoPanic o
      → (id : Text) (now : ℤ) (r : StreamResult) → Returns (save_result s o id now r)
  save_result-Returns none safe id now r = pure-Returns tt
  save_result-Returns (some store) safe id now r =
      bind-Returns (attempt (store.upsert_stream_cache id r (result_expires_at s.calendar now r))) _
        (attempt-Returns (store.upsert_stream_cache id r _) (safe.upsert id r _))
        (λ _. pure-Returns tt)

  persist-Returns : (key id : Text) (r : StreamResult) → Returns (persist s key id r)
  unfolding persist
  persist-Returns key id r = bind-Returns s.now _ clock (λ now.
      bind-Returns (remember s key now r) _ (remember-Returns key now r)
        (λ _. save_result-Returns s.store database id now r))

  from_memory-Returns :
      (key : Text) (now : ℤ) (o : Option StreamResult) → Returns (from_memory s key now o)
  from_memory-Returns key now none = pure-Returns none
  from_memory-Returns key now (some v) =
      if_cases Returns (not (result_is_expired s.calendar now v)) _ _ (λ _. pure-Returns (some v))
        (λ _ w. (none, refl))

  from_store-Returns :
      (store : StreamStore W)
      → NoPanic store
      → (key id : Text) (now : ℤ) (o : Result (Option StreamResult))
      → Returns (from_store s store key id now o)
  from_store-Returns store safe key id now (ok none) = pure-Returns none
  from_store-Returns store safe key id now (err e) = pure-Returns none
  from_store-Returns store safe key id now panic = pure-Returns none
  from_store-Returns store safe key id now (ok (some v)) =
      if_cases Returns (result_is_expired s.calendar now v) _ _
        (λ _.
          bind-Returns (attempt (store.delete_stream_cache id)) _
            (attempt-Returns (store.delete_stream_cache id) (safe.delete id))
            (λ _. pure-Returns none))
        (λ _.
          bind-Returns (remember s key now v) _ (remember-Returns key now v)
            (λ _. pure-Returns (some v)))

  look_in_store-Returns :
      (o : Option (StreamStore W))
      → StoreNoPanic o
      → (key id : Text) (now : ℤ) → Returns (look_in_store s o key id now)
  look_in_store-Returns none safe key id now = pure-Returns none
  look_in_store-Returns (some store) safe key id now = bind-Returns s.now _ clock (λ at.
      bind-Returns (attempt (store.get_stream_cache id at)) (from_store s store key id now)
        (attempt-Returns (store.get_stream_cache id at) (safe.get id at))
        (from_store-Returns store safe key id now))

  look_in_memory-Returns : (key : Text) (now : ℤ) → Returns (look_in_memory s key now)
  unfolding look_in_memory
  look_in_memory-Returns key now =
      bind-Returns (cache_get s.cache key) (λ raw. from_memory s key now (as_stream raw))
        (λ w. ((s.cache.get key w).0, refl)) (λ raw. from_memory-Returns key now (as_stream raw))

  ask_provider-Returns :
      (id : Text) → Returns (s.stream_candidates id) → Returns (ask_provider s id)
  unfolding ask_provider
  ask_provider-Returns id found = bind-Returns (s.stream_candidates id) _ found (λ cs.
      bind-Returns (persist s (stream_key id) id (result_of s id cs)) _
        (persist-Returns (stream_key id) id (result_of s id cs))
        (λ _. pure-Returns (result_of s id cs)))

  or_next-Returns :
      (next : M W StreamResult)
      → Returns next
      → (o : Option StreamResult) → Returns (or_next s next o)
  or_next-Returns next h none = h
  or_next-Returns next h (some r) = pure-Returns r

  -- When the provider returns candidates, Resolve and Refresh return a result, whatever is cached
  -- and whatever errors the database returns, if the clock returns and the database does not panic.
  pub resolve_stream-Returns :
      (id : Text) (force_refresh : Bool)
      → Returns (s.stream_candidates id)
      → Returns (resolve_stream s id force_refresh)
  unfolding resolve_stream
  resolve_stream-Returns id force_refresh found = bind-Returns s.now _ clock (λ now.
      if_cases Returns force_refresh _ _ (λ _. ask_provider-Returns id found)
        (λ _.
          bind-Returns (look_in_memory s (stream_key id) now) _
            (look_in_memory-Returns (stream_key id) now)
            (or_next-Returns _ (
              bind-Returns (look_in_store s s.store (stream_key id) id now) _
                (look_in_store-Returns s.store database (stream_key id) id now)
                (or_next-Returns _ (ask_provider-Returns id found))))))
