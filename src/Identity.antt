-- ===== src/Identity.antt =====
-- internal/service/identity/service.go: the anonymous clients, and their tokens.
pub mod Ensured
use zero_nime.Base.{
  ℕ, Bool, true, false, ◌||◌, List, [], ltb, Result, ok, err, panic, M, pure, lift, attempt, ◌>>=◌,
  if◌then◌else◌,
}
use zero_nime.Store.Clients.{AnonymousClient, ClientTables, ensure_client, find_client}
use zero_nime.Store.Uuid.{hex}
use zero_nime.Text.{Text, ◌==◌, trim_space, byte_count}

-- randomToken, with rand.Read of 24 bytes
abbrev pub random_token_of : {W : Type 0} → M W (List ℕ) → M W Text
random_token_of random = random >>= λ bytes. pure (hex bytes)

module _ {W : Type 0} (t : ClientTables W) (random_token : M W Text) where
  abbrev pub new_client : M W (AnonymousClient × Bool)
  new_client = random_token >>= ensure_client t

  abbrev pub found_or_new : Result AnonymousClient → M W (AnonymousClient × Bool)
  found_or_new (ok client) = pure (client, false)
  found_or_new (err e) = new_client
  found_or_new panic = lift panic

  -- Ensure
  unfoldable pub ensure : Text → M W (AnonymousClient × Bool)
  ensure existing =
      let token = trim_space existing in
      if token == [] || ltb (byte_count token) 16
      then new_client
      else attempt (find_client t token) >>= found_or_new
