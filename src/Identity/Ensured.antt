-- ===== src/Identity/Ensured.antt =====
-- What Ensure of internal/service/identity/service.go promises, over a working table of clients.
use zero_nime.Base.{
  ℕ, ◌≡◌, refl, sym, ap, ◌∙◌, subst, Bool, true, false, ◌||◌, ltb, Option, none, some, List, [],
  ◌∷◌, arith, length, ◌≤◌, ◌*◌, Result, ok, M, pure, attempt, ◌>>=◌, bind-ok, continue, recover,
  if_cases,
}
use zero_nime.Identity.{ensure, new_client, found_or_new, random_token_of}
use zero_nime.Store.Clients.{
  AnonymousClient, ClientTables, ensure_client, find_client, client_or_new, found_client,
}
use zero_nime.Store.Uuid.{hex, AllBytes, hex-trimmed}
use zero_nime.Text.Laws.{trim_space_idem}
use zero_nime.Text.{Text, ◌==◌, trim_space, byte_count}

-- The table finds clients by their tokens, of which an index allows each only once, and creates
-- clients for tokens that it lacks and that the column has room for. 24 random bytes are read.
pub record Working {W : Type 0} (t : ClientTables W) (random : M W (List ℕ)) : Type 0 where
  pub look : W → Text → Option AnonymousClient
  pub first : (k : Text) (w : W) → (t.clients.first k w).0 ≡ ok (look w k)
  pub first_leaves : (k : Text) (w : W) → look (t.clients.first k w).1 k ≡ look w k
  pub named : (k : Text) (w : W) (c : AnonymousClient) → look w k ≡ some c → c.token ≡ k
  pub creates :
      (k : Text) (w : W)
      → look w k ≡ none
      → length k ≤ 128
      → (c : AnonymousClient) × ((t.create_client k w).0 ≡ ok c)
        × (c.token ≡ k)
        × (look (t.create_client k w).1 k ≡ some c)
  pub bytes :
      (w : W)
      → (b : ℕ) × (bs : List ℕ) × ((random w).0 ≡ ok (b ∷ bs))
        × AllBytes (b ∷ bs)
        × (length (b ∷ bs) ≡ 24)

module _ {W : Type 0} (t : ClientTables W) (random : M W (List ℕ)) (works : Working t random) where
  -- a text that requireClient takes for a token
  abbrev pub IsToken : Text → Type 0
  IsToken k = (trim_space k ≡ k) × ((k == []) ≡ false)

  -- The client is in the table, and its token is one.
  abbrev pub Registered : W → AnonymousClient → Type 0
  Registered w c = IsToken c.token × (works.look w c.token ≡ some c)

  abbrev pub Ensures : M W (AnonymousClient × Bool) → W → Type 0
  Ensures m w = (r : AnonymousClient × Bool) × ((m w).0 ≡ ok r) × Registered (m w).1 r.0

  registered :
      (w : W) (k : Text) (c : AnonymousClient)
      → IsToken k
      → c.token ≡ k
      → works.look w k ≡ some c
      → Registered w c
  registered w k c h e l = subst (λ j. IsToken j × (works.look w j ≡ some c)) (sym e) (h, l)

  client_or_new-Ensures :
      (k : Text) (w : W) (o : Option AnonymousClient)
      → IsToken k
      → length k ≤ 128
      → works.look w k ≡ o
      → Ensures (client_or_new t k o) w
  client_or_new-Ensures k w (some c) h room e =
      ((c, false), refl, registered w k c h (works.named k w c e) e)
  client_or_new-Ensures k w none h room e =
      let (c, e', n, l) = works.creates k w e room in
      let run = bind-ok (t.create_client k) (λ client. pure (client, true)) w c e' in
      (
        (c, true),
        ap (λ x. x.0) run,
        subst (λ x. Registered x.1 c) (sym run) (registered (t.create_client k w).1 k c h n l),
      )

  moved : (m n : M W (AnonymousClient × Bool)) (w w' : W) → m w ≡ n w' → Ensures n w' → Ensures m w
  moved m n w w' run (r, e, h) =
      (r, ap (λ x. x.0) run ∙ e, subst (λ x. Registered x.1 r.0) (sym run) h)

  after :
      {A : Type 0} (m : M W A) (f : A → M W (AnonymousClient × Bool)) (w : W) (a : A)
      → (m w).0 ≡ ok a
      → Ensures (f a) (m w).1
      → Ensures (m >>= f) w
  after m f w a e h = moved (m >>= f) (f a) w (m w).1 (bind-ok m f w a e) h

  ensure_client-Ensures :
      (k : Text) (w : W) → IsToken k → length k ≤ 128 → Ensures (ensure_client t k) w
  unfolding ensure_client
  ensure_client-Ensures k w h room =
      after (t.clients.first k) (client_or_new t k) w (works.look w k) (works.first k w) (
        client_or_new-Ensures k (t.clients.first k w).1 (works.look w k) h room
          (works.first_leaves k w))

  length-hex : (bs : List ℕ) → length (hex bs) ≡ 2 * length bs
  unfolding hex
  length-hex [] = refl
  length-hex (b ∷ bs) = let rest = length-hex bs in omega arith

  hex_ne_nil : (b : ℕ) (bs : List ℕ) → (hex (b ∷ bs) == []) ≡ false
  unfolding hex ◌==◌
  hex_ne_nil b bs = refl

  new_client-Ensures : (w : W) → Ensures (new_client t (random_token_of random)) w
  new_client-Ensures w =
      let (b, bs, e, all, count) = works.bytes w in
      let twice = length-hex (b ∷ bs) in
      let run = bind-ok random (λ bytes. pure (hex bytes)) w (b ∷ bs) e in
      after (random_token_of random) (ensure_client t) w (hex (b ∷ bs)) (ap (λ x. x.0) run) (
        ensure_client-Ensures (hex (b ∷ bs)) _ (hex-trimmed (b ∷ bs) all, hex_ne_nil b bs)
          (omega arith))

  found-Ensures :
      (k : Text) (w : W) (o : Option AnonymousClient)
      → IsToken k
      → works.look w k ≡ o
      → Ensures (attempt (found_client t o) >>= found_or_new t (random_token_of random)) w
  found-Ensures k w (some c) h e = ((c, false), refl, registered w k c h (works.named k w c e) e)
  found-Ensures k w none h e = new_client-Ensures w

  find-Ensures :
      (k : Text) (w : W)
      → IsToken k
      → Ensures (attempt (find_client t k) >>= found_or_new t (random_token_of random)) w
  unfolding find_client
  find-Ensures k w h =
      let run = bind-ok (t.clients.first k) (found_client t) w (works.look w k) (works.first k w) in
      let next : Result AnonymousClient → M W (AnonymousClient × Bool) =
        found_or_new t (random_token_of random) in
      moved (attempt (find_client t k) >>= next)
        (attempt (found_client t (works.look w k)) >>= next) w (t.clients.first k w).1
        (ap (λ x. continue (recover x.0) next x.1) run)
        (found-Ensures k (t.clients.first k w).1 (works.look w k) h (works.first_leaves k w))

  -- Ensure returns a client of the table, whatever token the request has.
  pub ensure-Ensures :
      (existing : Text) (w : W) → Ensures (ensure t (random_token_of random) existing) w
  unfolding ensure
  ensure-Ensures existing w =
      let token = trim_space existing in
      let next : Result AnonymousClient → M W (AnonymousClient × Bool) =
        found_or_new t (random_token_of random) in
      if_cases (λ m. Ensures m w) (token == [] || ltb (byte_count token) 16)
        (new_client t (random_token_of random)) (attempt (find_client t token) >>= next)
        (λ _. new_client-Ensures w)
        (λ f. find-Ensures token w (trim_space_idem existing, ground arith))
