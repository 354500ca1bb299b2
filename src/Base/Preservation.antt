-- ===== src/Base/Preservation.antt =====
-- Calls that keep a property of the world, whatever they return.
use zero_nime.Base.Outcome.{Result, ok, err, panic, M, pure, lift, attempt, ◌>>=◌, ◌>>◌, continue}

-- The call keeps the property.
abbrev pub Preserves : {W A : Type 0} → (W → Type 0) → M W A → Type 0
Preserves {W} P m = (w : W) → P w → P (m w).1

module _ {W A : Type 0} (P : W → Type 0) where
  pub lift-Preserves : (r : Result A) → Preserves P (lift r)
  lift-Preserves r w h = h

  pub pure-Preserves : (a : A) → Preserves P (pure a)
  pure-Preserves a w h = h

  pub attempt-Preserves : (m : M W A) → Preserves P m → Preserves P (attempt m)
  attempt-Preserves m h = h

module _ {W A B : Type 0} (P : W → Type 0) where
  continue-Preserves :
      (r : Result A) (f : A → M W B) → ((a : A) → Preserves P (f a)) → Preserves P (continue r f)
  continue-Preserves (ok a) f h = h a
  continue-Preserves (err e) f h = λ w k. k
  continue-Preserves panic f h = λ w k. k

  pub bind-Preserves :
      (m : M W A) (f : A → M W B)
      → Preserves P m
      → ((a : A) → Preserves P (f a))
      → Preserves P (m >>= f)
  bind-Preserves m f h k w p = continue-Preserves (m w).0 f k (m w).1 (h w p)

  pub then-Preserves :
      (m : M W A) (n : M W B) → Preserves P m → Preserves P n → Preserves P (m >> n)
  then-Preserves m n h k = bind-Preserves m (λ _. n) h (λ _. k)
