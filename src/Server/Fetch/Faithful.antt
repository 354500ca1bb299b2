-- ===== src/Server/Fetch/Faithful.antt =====
-- Fetch of internal/httpserver/media_fetch.go gives what the upstream gives.
use zero_nime.Base.{
  ℕ, zero, suc, ◌≤◌, ◌≡◌, refl, sym, ap, ◌∙◌, subst, ◌⊎◌, inl, inr, false, Option, none, some, List,
  [], ◌∷◌, take, length, arith, ℤ, pos, negsuc, ◌+ℤ◌, ltb_ℤ, pos_part, ok, M, pure, lift, ◌>>=◌,
  Returns, Delivers, pure-Delivers, bind-Delivers, if_cases,
}
use zero_nime.Http.{Bytes, Response}
use zero_nime.Memory.{Value, BufferedResponse, buffered, as_buffered}
use zero_nime.Server.Fetch.{
  within, buffer_of, is_bufferable, read_opened, read_buffered_response, Fetched, from_buffer,
  from_upstream, MediaFetcher, cached_buffered, keep_buffer, buffer_or, fetch_buffered, flight,
  since, fetch_direct, buffer_or_direct, cached_or_flight, fetch_with_key, fetch,
  coalescing_range_key,
}
use zero_nime.Text.{Text}

abbrev pub copy_of : Response → Bytes → BufferedResponse
copy_of r body = record { status_code = r.status_code; headers = r.header; body = body }

-- nothing, or a copy of the response
abbrev pub Copied : Response → Bytes → Option BufferedResponse → Type 0
Copied r body o = (o ≡ none) ⊎ (o ≡ some (copy_of r body))

-- The client is shown the response: a copy of it, or the response itself.
abbrev pub Shows : Response → Bytes → Fetched → Type 0
Shows r body (from_buffer b took) = b ≡ copy_of r body
Shows r body (from_upstream resp took) = resp ≡ some r

take_short :
    {A : Type 0} (n : ℕ) (xs : List A) → length (take (suc n) xs) ≤ n → take (suc n) xs ≡ xs
take_short n [] h = refl
take_short zero (x ∷ xs) h = absurd (omega arith)
take_short (suc n) (x ∷ xs) h = ap (λ ys. x ∷ ys) (take_short n xs (omega arith))

take_fits :
    (max_bytes : ℤ) (body : Bytes)
    → ltb_ℤ max_bytes (pos (length (take (pos_part (max_bytes +ℤ pos 1)) body))) ≡ false
    → take (pos_part (max_bytes +ℤ pos 1)) body ≡ body
take_fits (negsuc n) body f = absurd (ground arith)
take_fits (pos n) body f = fits (pos_part (pos n +ℤ pos 1)) (ground arith) f
  where
    fits :
        (m : ℕ)
        → m ≡ suc n
        → ltb_ℤ (pos n) (pos (length (take m body))) ≡ false
        → take m body ≡ body
    fits zero e f = absurd (omega arith)
    fits (suc m) e f = take_short m body (ground arith)

take_within :
    (max_bytes : ℤ) (body : Bytes)
    → (within max_bytes body ≡ none) ⊎ (within max_bytes body ≡ some body)
take_within max_bytes body =
    if_cases (λ x. (x ≡ none) ⊎ (x ≡ some body))
      (ltb_ℤ max_bytes (pos (length (take (pos_part (max_bytes +ℤ pos 1)) body)))) _ _
      (λ _. inl refl) (λ f. inr (ap some (take_fits max_bytes body f)))

read_buffered_response-Copied :
    (r : Response) (body : Bytes) (max_bytes : ℤ)
    → r.body ≡ some (ok body)
    → (o : Option BufferedResponse) × (read_buffered_response (some r) max_bytes ≡ ok o)
      × Copied r body o
unfolding read_buffered_response
read_buffered_response-Copied r body max_bytes e =
    subst
      (λ b. (o : Option BufferedResponse) × (read_opened r max_bytes b ≡ ok o) × Copied r body o)
      (sym e)
      (if_cases (λ x. (o : Option BufferedResponse) × (x ≡ ok o) × Copied r body o)
        (is_bufferable r max_bytes) _ _
        (λ _. (buffer_of r (within max_bytes body), refl, copied (take_within max_bytes body)))
        (λ _. (none, refl, inl refl)))
  where
    copied :
        (within max_bytes body ≡ none) ⊎ (within max_bytes body ≡ some body)
        → Copied r body (buffer_of r (within max_bytes body))
    copied (inl h) = inl (ap (buffer_of r) h)
    copied (inr h) = inr (ap (buffer_of r) h)

-- The upstream answers a request with one response, whose body can be read; the memory keeps what
-- is put into it, and only that changes it; and the clock runs.
pub record Steady {W : Type 0} (holds : W → Text → Option Value) (f : MediaFetcher W)
    (url range : Text) (r : Response) (body : Bytes) : Type 0 where
  pub answers : (w : W) → (f.fetch url range w).0 ≡ ok (some r)
  pub reads : r.body ≡ some (ok body)
  pub times : Returns f.now
  pub got : (k : Text) (w : W) → (f.cache.get k w).0 ≡ holds w k
  pub get_leaves : (k : Text) (w : W) → holds (f.cache.get k w).1 k ≡ holds w k
  pub set_holds :
      (k : Text) (v : Value) (ttl : ℤ) (w : W) → holds (f.cache.set k v ttl w) k ≡ some v
  pub fetch_leaves : (k : Text) (w : W) → holds (f.fetch url range w).1 k ≡ holds w k
  pub now_leaves : (k : Text) (w : W) → holds (f.now w).1 k ≡ holds w k

module _ {W : Type 0} (holds : W → Text → Option Value) (f : MediaFetcher W) (url range : Text)
    (r : Response) (body : Bytes) (s : Steady holds f url range r body) where
  -- What the memory holds under the key, if there is one, is a copy of the response.
  abbrev pub Honest : Option Text → W → Type 0
  Honest none w = Unit
  Honest (some k) w = Copied r body (as_buffered (holds w k))

  abbrev pub Here : Option Text → {A : Type 0} → (A → Type 0) → M W A → Type 0
  Here o Q m = Delivers (Honest o) Q m

  abbrev Any : {A : Type 0} → A → Type 0
  Any a = Unit

  leaves :
      (o : Option Text) (w w' : W)
      → ((k : Text) → holds w' k ≡ holds w k)
      → Honest o w
      → Honest o w'
  leaves none w w' e h = tt
  leaves (some k) w w' e h = subst (λ v. Copied r body (as_buffered v)) (sym (e k)) h

  now-Here : (o : Option Text) → Here o Any f.now
  now-Here o w h =
      let (t, e) = s.times w in (t, e, tt, leaves o w (f.now w).1 (λ k. s.now_leaves k w) h)

  fetch-Here : (o : Option Text) → Here o (λ x. x ≡ some r) (f.fetch url range)
  fetch-Here o w h =
      (some r, s.answers w, refl, leaves o w (f.fetch url range w).1 (λ k. s.fetch_leaves k w) h)

  since-Here : (o : Option Text) (t : ℤ) → Here o Any (since f t)
  since-Here o t =
      bind-Delivers (Honest o) Any Any f.now _ (now-Here o) (λ later _ w h. (_, refl, tt, h))

  fetch_direct-Here : (o : Option Text) (t : ℤ) → Here o (Shows r body) (fetch_direct f t url range)
  unfolding fetch_direct
  fetch_direct-Here o t =
      bind-Delivers (Honest o) (Shows r body) (λ x. x ≡ some r) (f.fetch url range) _ (fetch-Here o)
        (λ x e.
          bind-Delivers (Honest o) (Shows r body) Any (since f t) _ (since-Here o t)
            (λ took _ w h. (from_upstream x took, refl, e, h)))

  buffer-Here :
      (o : Option Text) (t : ℤ) (b : BufferedResponse)
      → Copied r body (some b)
      → Here o (Shows r body) (since f t >>= λ took. pure (from_buffer b took))
  buffer-Here o t b c =
      bind-Delivers (Honest o) (Shows r body) Any (since f t) _ (since-Here o t)
        (λ took _ w h. (from_buffer b took, refl, same b c, h))
    where
      same : (b : BufferedResponse) → Copied r body (some b) → b ≡ copy_of r body
      same b (inl e) = cc
      same b (inr e) = cc

  module _ (k : Text) where
    cached_buffered-Here : Here (some k) (Copied r body) (cached_buffered f k)
    unfolding cached_buffered
    cached_buffered-Here w h = (
      as_buffered (f.cache.get k w).0,
      refl,
      subst (λ v. Copied r body (as_buffered v)) (sym (s.got k w)) h,
      subst (λ v. Copied r body (as_buffered v)) (sym (s.get_leaves k w)) h,
    )

    keep_buffer-Here :
        (o : Option BufferedResponse)
        → Copied r body o
        → Here (some k) (Copied r body) (keep_buffer f k o)
    unfolding as_buffered
    keep_buffer-Here none c w h = (none, refl, c, h)
    keep_buffer-Here (some b) c w h = (
      some b,
      refl,
      c,
      subst (λ v. Copied r body (as_buffered v)) (sym (s.set_holds k (buffered b) f.buffer_ttl w))
          c,
    )

    read-Here :
        (x : Option Response)
        → x ≡ some r
        → Here (some k) (Copied r body) (lift (read_buffered_response x f.max_buffered_bytes))
    read-Here x e w h =
        let (o, e', c) = read_buffered_response-Copied r body f.max_buffered_bytes s.reads in
        (o, ap (λ y. read_buffered_response y f.max_buffered_bytes) e ∙ e', c, h)

    fetch_buffered-Here : Here (some k) (Copied r body) (fetch_buffered f k url range)
    unfolding fetch_buffered
    fetch_buffered-Here =
        bind-Delivers (Honest (some k)) (Copied r body) (λ x. x ≡ some r) (f.fetch url range) _
          (fetch-Here (some k))
          (λ x e.
            bind-Delivers (Honest (some k)) (Copied r body) (Copied r body)
              (lift (read_buffered_response x f.max_buffered_bytes)) (keep_buffer f k)
              (read-Here x e) keep_buffer-Here)

    flight-Here : Here (some k) (Copied r body) (flight f k url range)
    unfolding flight
    flight-Here =
        bind-Delivers (Honest (some k)) (Copied r body) (Copied r body) (cached_buffered f k) _
          cached_buffered-Here found
      where
        found :
            (o : Option BufferedResponse)
            → Copied r body o
            → Here (some k) (Copied r body) (buffer_or f (fetch_buffered f k url range) o)
        found none c = fetch_buffered-Here
        found (some b) c = pure-Delivers (Honest (some k)) (Copied r body) (some b) c

    cached_or_flight-Here :
        (t : ℤ) (o : Option BufferedResponse)
        → Copied r body o
        → Here (some k) (Shows r body) (cached_or_flight f t k url range o)
    cached_or_flight-Here t (some b) c = buffer-Here (some k) t b c
    cached_or_flight-Here t none c =
        bind-Delivers (Honest (some k)) (Shows r body) (Copied r body) (flight f k url range) _
          flight-Here landed
      where
        landed :
            (o : Option BufferedResponse)
            → Copied r body o
            → Here (some k) (Shows r body) (buffer_or_direct f t url range o)
        landed none c = fetch_direct-Here (some k) t
        landed (some b) c = buffer-Here (some k) t b c

  fetch_with_key-Here :
      (t : ℤ) (o : Option Text) → Here o (Shows r body) (fetch_with_key f t url range o)
  fetch_with_key-Here t none = fetch_direct-Here none t
  fetch_with_key-Here t (some k) =
      bind-Delivers (Honest (some k)) (Shows r body) (Copied r body) (cached_buffered f k) _
        (cached_buffered-Here k) (cached_or_flight-Here k t)

  -- When the upstream answers a request with one response and the memory holds at most a copy of it
  -- under the key of the request, Fetch gives this response or a copy of it with its status, headers
  -- and body, and the memory goes on to hold at most a copy, if the upstream, the memory and the clock
  -- behave as `Steady` says.
  pub fetch-Shows :
      (w : W)
      → Honest (coalescing_range_key url range f.max_buffered_bytes) w
      → (x : Fetched) × ((fetch f url range w).0 ≡ ok x)
        × Shows r body x
        × Honest (coalescing_range_key url range f.max_buffered_bytes) (fetch f url range w).1
  unfolding fetch
  fetch-Shows =
      let o = coalescing_range_key url range f.max_buffered_bytes in
      bind-Delivers (Honest o) (Shows r body) Any f.now _ (now-Here o)
        (λ t _. fetch_with_key-Here t o)
