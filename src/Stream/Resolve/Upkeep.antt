-- ===== src/Stream/Resolve/Upkeep.antt =====
-- What Refresh and Invalidate of internal/service/stream/service.go leave of the world.
use zero_nime.Base.{
  Option, none, some, ℤ, pure, attempt, Preserves, pure-Preserves, bind-Preserves, then-Preserves,
}
use zero_nime.Domain.{StreamResult}
use zero_nime.Memory.{Cache, Value, cache_delete}
use zero_nime.Stream.Resolve.{
  StreamStore, Service, stream_key, remember, save_result, persist, result_of, ask_provider,
  resolve_stream, refresh, drop_result, invalidate,
}
use zero_nime.Text.{Text}

-- The calls of a cache keep the property.
pub record CacheKeeps {W : Type 0} (P : W → Type 0) (c : Cache W) : Type 0 where
  pub gets : (k : Text) (w : W) → P w → P (c.get k w).1
  pub sets : (k : Text) (v : Value) (ttl : ℤ) (w : W) → P w → P (c.set k v ttl w)
  pub deletes : (k : Text) (w : W) → P w → P (c.delete k w)

abbrev pub StoreKeeps : {W : Type 0} → (W → Type 0) → Option (StreamStore W) → Type 0
StoreKeeps P none = Unit
StoreKeeps P (some t) =
    ((id : Text) (r : StreamResult) (at : ℤ) → Preserves P (t.upsert_stream_cache id r at))
    × ((id : Text) → Preserves P (t.delete_stream_cache id))

-- The calls that Refresh and Invalidate make keep the property.
pub record StreamsKeep {W : Type 0} (P : W → Type 0) (s : Service W) : Type 0 where
  pub candidates : (id : Text) → Preserves P (s.stream_candidates id)
  pub times : Preserves P s.now
  pub memory : CacheKeeps P s.cache
  pub table : StoreKeeps P s.store

module _ {W : Type 0} (P : W → Type 0) (s : Service W) (keeps : StreamsKeep P s) where
  save_result-Preserves :
      (o : Option (StreamStore W))
      → StoreKeeps P o
      → (id : Text) (now : ℤ) (r : StreamResult) → Preserves P (save_result s o id now r)
  save_result-Preserves none k id now r = pure-Preserves P tt
  save_result-Preserves (some t) (upserts, _) id now r =
      then-Preserves P (attempt (t.upsert_stream_cache id r _)) (pure tt) (upserts id r _)
        (pure-Preserves P tt)

  remember-Preserves :
      (key : Text) (now : ℤ) (r : StreamResult) → Preserves P (remember s key now r)
  unfolding remember
  remember-Preserves key now r =
      bind-Preserves P s.now _ keeps.times (λ later w h. keeps.memory.sets key _ _ w h)

  persist-Preserves : (key id : Text) (r : StreamResult) → Preserves P (persist s key id r)
  unfolding persist
  persist-Preserves key id r = bind-Preserves P s.now _ keeps.times (λ now.
      then-Preserves P (remember s key now r) (save_result s s.store id now r)
        (remember-Preserves key now r) (save_result-Preserves s.store keeps.table id now r))

  ask_provider-Preserves : (id : Text) → Preserves P (ask_provider s id)
  unfolding ask_provider
  ask_provider-Preserves id =
      bind-Preserves P (s.stream_candidates id) _ (keeps.candidates id) (λ cs.
        then-Preserves P (persist s (stream_key id) id (result_of s id cs))
          (pure (result_of s id cs)) (persist-Preserves (stream_key id) id (result_of s id cs))
          (pure-Preserves P (result_of s id cs)))

  -- Refresh keeps what its calls keep.
  pub refresh-Preserves : (id : Text) → Preserves P (refresh s id)
  unfolding resolve_stream
  refresh-Preserves id = bind-Preserves P s.now _ keeps.times (λ now. ask_provider-Preserves id)

  drop_result-Preserves :
      (o : Option (StreamStore W)) → StoreKeeps P o → (id : Text) → Preserves P (drop_result s o id)
  drop_result-Preserves none k id = pure-Preserves P tt
  drop_result-Preserves (some t) (_, deletes) id =
      then-Preserves P (attempt (t.delete_stream_cache id)) (pure tt) (deletes id)
        (pure-Preserves P tt)

  -- Invalidate keeps what its calls keep.
  pub invalidate-Preserves : (id : Text) → Preserves P (invalidate s id)
  unfolding invalidate
  invalidate-Preserves id =
      then-Preserves P (cache_delete s.cache (stream_key id)) (drop_result s s.store id)
        (λ w h. keeps.memory.deletes (stream_key id) w h)
        (drop_result-Preserves s.store keeps.table id)
