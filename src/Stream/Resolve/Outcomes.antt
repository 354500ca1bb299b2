-- ===== src/Stream/Resolve/Outcomes.antt =====
-- What Resolve and Refresh return: a result that has not expired, or a new one; always something.
use zero_nime.Base.{
  ◌≡◌, subst, sym, ap, ◌∙◌, ◌⊎◌, inl, inr, false, not, Option, none, some, List, ℤ, Result, ok, err,
  panic, M, pure, attempt, ◌>>=◌, if_cases, bind-inv, arith,
}
use zero_nime.Domain.{StreamCandidate, StreamResult}
use zero_nime.Memory.{as_stream, cache_get, cache_delete}
use zero_nime.Stream.Expiry.Earliest.{IsFresh, IsFresh-of_not_expired}
use zero_nime.Stream.Expiry.{result_is_expired}
use zero_nime.Stream.Resolve.{
  Service, StreamStore, stream_key, remember, persist, from_memory, look_in_memory, from_store,
  look_in_store, result_of, ask_provider, or_next, resolve_stream, resolve, refresh,
}
use zero_nime.Text.{Text}

ok-inj : {A : Type 0} (a b : A) → ok a ≡ ok b → a ≡ b
ok-inj a b h = cc

module _ {W : Type 0} (s : Service W) where
  -- a result made of candidates that the provider returned
  abbrev pub FromProvider : Text → StreamResult → Type 0
  FromProvider id r =
      (w : W) × (cs : List StreamCandidate) × ((s.stream_candidates id w).0 ≡ ok cs)
      × (r ≡ result_of s id cs)

  ask_provider-FromProvider :
      (id : Text) (w : W) (r : StreamResult) → (ask_provider s id w).0 ≡ ok r → FromProvider id r
  unfolding ask_provider
  ask_provider-FromProvider id w r h =
      let (cs, e, h') = bind-inv (s.stream_candidates id) _ w r h in
      let (_, _, same) = bind-inv (persist s (stream_key id) id (result_of s id cs)) _ _ r h' in
      (w, cs, e, cc)

  abbrev Unexpired : ℤ → StreamResult → Type 0
  Unexpired now r = result_is_expired s.calendar now r ≡ false

  -- what a place that was looked in gives is not expired
  abbrev Gives : ℤ → M W (Option StreamResult) → Type 0
  Gives now m = (w : W) (r : StreamResult) → (m w).0 ≡ ok (some r) → Unexpired now r

  none-Gives : (now : ℤ) → Gives now (pure none)
  none-Gives now w r h = cc

  some-Gives : (now : ℤ) (v : StreamResult) → Unexpired now v → Gives now (pure (some v))
  some-Gives now v fresh w r h = let same : v ≡ r = ground arith in subst (Unexpired now) same fresh

  then-Gives :
      {A : Type 0} (now : ℤ) (m : M W A) (n : A → M W (Option StreamResult))
      → ((a : A) → Gives now (n a))
      → Gives now (m >>= n)
  then-Gives now m n h w r e = let (a, _, e') = bind-inv m n w (some r) e in h a (m w).1 r e'

  from_memory-Gives :
      (key : Text) (now : ℤ) (o : Option StreamResult) → Gives now (from_memory s key now o)
  from_memory-Gives key now none = none-Gives now
  from_memory-Gives key now (some v) =
      if_cases (Gives now) (not (result_is_expired s.calendar now v)) _ _
        (λ t. some-Gives now v (ground arith))
        (λ _. then-Gives now (cache_delete s.cache key) (λ _. pure none) (λ _. none-Gives now))

  from_store-Gives :
      (store : StreamStore W) (key id : Text) (now : ℤ) (o : Result (Option StreamResult))
      → Gives now (from_store s store key id now o)
  from_store-Gives store key id now (ok none) = none-Gives now
  from_store-Gives store key id now (err e) = none-Gives now
  from_store-Gives store key id now panic = none-Gives now
  from_store-Gives store key id now (ok (some v)) =
      if_cases (Gives now) (result_is_expired s.calendar now v) _ _
        (λ _.
          then-Gives now (attempt (store.delete_stream_cache id)) (λ _. pure none)
            (λ _. none-Gives now))
        (λ f. then-Gives now (remember s key now v) (λ _. pure (some v)) (λ _. some-Gives now v f))

  look_in_store-Gives :
      (o : Option (StreamStore W)) (key id : Text) (now : ℤ)
      → Gives now (look_in_store s o key id now)
  look_in_store-Gives none key id now = none-Gives now
  look_in_store-Gives (some store) key id now = then-Gives now s.now _ (λ at.
      then-Gives now (attempt (store.get_stream_cache id at)) (from_store s store key id now)
        (from_store-Gives store key id now))

  look_in_memory-Gives : (key : Text) (now : ℤ) → Gives now (look_in_memory s key now)
  unfolding look_in_memory
  look_in_memory-Gives key now =
      then-Gives now (cache_get s.cache key) (λ raw. from_memory s key now (as_stream raw))
        (λ raw. from_memory-Gives key now (as_stream raw))

  -- A good answer: it has not expired, or it was made of the provider's candidates.
  abbrev pub Good : Text → ℤ → StreamResult → Type 0
  Good id now r = IsFresh s.calendar now r ⊎ FromProvider id r

  abbrev GoodRun : Text → ℤ → M W StreamResult → Type 0
  GoodRun id now m = (w : W) (r : StreamResult) → (m w).0 ≡ ok r → Good id now r

  or_next-GoodRun :
      (id : Text) (now : ℤ) (m : M W (Option StreamResult)) (next : M W StreamResult)
      → Gives now m
      → GoodRun id now next
      → GoodRun id now (m >>= or_next s next)
  or_next-GoodRun id now m next gives good w r h =
      let (o, e, h') = bind-inv m (or_next s next) w r h in found o e h'
    where
      found :
          (o : Option StreamResult)
          → (m w).0 ≡ ok o
          → (or_next s next o (m w).1).0 ≡ ok r
          → Good id now r
      found none e h = good (m w).1 r h
      found (some v) e h =
          let same : v ≡ r = ground arith in
          inl (IsFresh-of_not_expired s.calendar now r (gives w r (e ∙ ap (λ x. ok (some x)) same)))

  -- Resolve returns a result of which every signed URL is good for more than five minutes after
  -- the time that Resolve read first, or one made of candidates that the provider returned.
  pub resolve-Good :
      (id : Text) (now : ℤ) (w : W) (r : StreamResult)
      → (s.now w).0 ≡ ok now
      → (resolve s id w).0 ≡ ok r
      → Good id now r
  unfolding resolve_stream
  resolve-Good id now w r e h =
      let (now', e', h') = bind-inv s.now _ w r h in
      let same : now' ≡ now = (ok-inj now' now (sym e' ∙ e)) in
      subst (λ t. Good id t r) same
        (or_next-GoodRun id now' (look_in_memory s (stream_key id) now') _
          (look_in_memory-Gives (stream_key id) now')
          (or_next-GoodRun id now' (look_in_store s s.store (stream_key id) id now')
            (ask_provider s id) (look_in_store-Gives s.store (stream_key id) id now')
            (λ w r h. inr (ask_provider-FromProvider id w r h)))
          (s.now w).1 r h')

  -- A forced refresh returns only a result made of candidates that the provider returned.
  pub refresh-FromProvider :
      (id : Text) (w : W) (r : StreamResult) → (refresh s id w).0 ≡ ok r → FromProvider id r
  unfolding resolve_stream
  refresh-FromProvider id w r h =
      let (_, _, h') = bind-inv s.now _ w r h in ask_provider-FromProvider id (s.now w).1 r h'
