-- ===== src/Server/Clients/Session.antt =====
-- A session of internal/httpserver: the token that ensureSession gives out lets a request through
-- requireClient.
use zero_nime.Base.{
  ◌≡◌, sym, ap, ◌∙◌, subst, Bool, some, [], ok, M, pure, bind-ok, attempt-ok, if_false,
  if◌then◌else◌, Message,
}
use zero_nime.Identity.Ensured.{Working, Registered, ensure-Ensures}
use zero_nime.Identity.{ensure, random_token_of}
use zero_nime.Server.Clients.{
  ClientServer, session_reply, ensure_session, require_client, as_client, client_required,
  token_header,
}
use zero_nime.Server.Reply.{Request, Reply, on_success, go_on, storage_unavailable}
use zero_nime.Store.Clients.{AnonymousClient, find_client, found_client}
use zero_nime.Text.{◌==◌, trim_space}

module _ {W A : Type 0} where
  -- a call that returns a value goes on with it
  on_success-ok :
      (call : M W A) (failed : Message → Reply) (next : A → M W Reply) (w : W) (a : A)
      → (call w).0 ≡ ok a
      → on_success call failed next w ≡ next a (call w).1
  unfolding on_success
  on_success-ok call failed next w a e = attempt-ok call (go_on failed next) w a e

module _ {W : Type 0} (s : ClientServer W) (works : Working s.tables s.random_bytes) where
  find_client-Registered :
      (w : W) (c : AnonymousClient)
      → works.look w c.token ≡ some c
      → find_client s.tables c.token w ≡ (ok c, (s.tables.clients.first c.token w).1)
  unfolding find_client
  find_client-Registered w c l =
      bind-ok (s.tables.clients.first c.token) (found_client s.tables) w (some c)
        (works.first c.token w ∙ ap ok l)

  require_client-Registered :
      (w : W) (c : AnonymousClient) (next : Request → M W Reply) (req : Request)
      → Registered s.tables s.random_bytes works w c
      → req.header token_header ≡ c.token
      → require_client s next req w ≡ next (as_client s req c) (s.tables.clients.first c.token w).1
  unfolding require_client
  require_client-Registered w c next req ((same, non_empty), l) e =
      let found = find_client-Registered w c l in
      let let_in : AnonymousClient → M W Reply = λ client. next (as_client s req client) in
      let after : W = (s.tables.clients.first c.token w).1 in
      subst
        (λ k.
          (if k == []
              then pure (client_required)
              else on_success (find_client s.tables k) (λ e. client_required) let_in)
            w
          ≡ let_in c after)
        (sym (ap trim_space e ∙ same))
        (if_false (λ (m : M W Reply). m w ≡ let_in c after) (c.token == []) _ _ non_empty
          (on_success-ok (find_client s.tables c.token) (λ e. client_required) let_in w c
              (ap (λ x. x.0) found)
            ∙ ap (λ x. let_in c x.1) found))

  -- ensureSession answers each request with the token of a client, and a later request with this
  -- token is let through requireClient as the client's, if the table of clients works as `Working`
  -- says and the tokens are drawn from random bytes.
  pub require_client-ensure_session :
      (req : Request) (w : W)
      → (c : AnonymousClient) × ((ensure_session s req w).0 ≡ ok (session_reply s c))
        × ((next : Request → M W Reply) (later : Request)
            → later.header token_header ≡ c.token
            → (w' : W) × (require_client s next later (ensure_session s req w).1
                ≡ next (as_client s later c) w'))
  unfolding ensure_session
  require_client-ensure_session req w =
      let call : M W (AnonymousClient × Bool) =
        ensure s.tables (random_token_of s.random_bytes) (req.header token_header) in
      let ((c, b), e, h) =
        ensure-Ensures s.tables s.random_bytes works (req.header token_header) w in
      let run : ensure_session s req w ≡ (ok (session_reply s c), (call w).1) =
        on_success-ok call storage_unavailable (λ r. pure (session_reply s r.0)) w (c, b) e in
      (
        c,
        ap (λ x. x.0) run,
        (λ next later k. (
          (s.tables.clients.first c.token (call w).1).1,
          subst
              (λ x.
                require_client s next later x.1
                ≡ next (as_client s later c) (s.tables.clients.first c.token (call w).1).1)
              (sym run) (require_client-Registered (call w).1 c next later h k),
        )),
      )
