-- ===== src/Base/Outcome.antt =====
-- Go's results. A call returns a value, returns an error, or panics; a method also changes the
-- state `W` of the world it runs in (stores, caches, the network), and keeps those changes when
-- it fails.
use mathlib.Core.List.{List}
use Prim.Native.Nat.{ℕ}
use mathlib.Core.Path.{◌≡◌, ap}

-- The message of an error.
abbrev pub Message : Type 0
Message = List ℕ

pub data Result {ℓ} (A : Type ℓ) : Type ℓ where
  ok : A → Result A
  err : Message → Result A
  panic : Result A

abbrev pub M {ℓ} : Type ℓ → Type ℓ → Type ℓ
M W A = W → Result A × W

abbrev pub recover {ℓ} : {A : Type ℓ} → Result A → Result (Result A)
recover (ok a) = ok (ok a)
recover (err e) = ok (err e)
recover panic = panic

module _ {ℓ} {W A : Type ℓ} where
  abbrev pub pure : A → M W A
  pure a w = (ok a, w)

  abbrev pub fail : Message → M W A
  fail e w = (err e, w)

  abbrev pub lift : Result A → M W A
  lift r w = (r, w)

  -- `_ = call()` and `if err := call(); err != nil`: the error as a value
  abbrev pub attempt : M W A → M W (Result A)
  attempt m w = let (r, w') = m w in (recover r, w')

module _ {ℓ} {W A B : Type ℓ} where
  abbrev pub continue : Result A → (A → M W B) → M W B
  continue (ok a) f w = f a w
  continue (err e) f w = (err e, w)
  continue panic f w = (panic, w)

  infixl 5 ◌>>=◌ ◌>>◌
  abbrev pub ◌>>=◌ : M W A → (A → M W B) → M W B
  ◌>>=◌ m f w = let (r, w') = m w in continue r f w'

  abbrev pub ◌>>◌ : M W A → M W B → M W B
  m >> n = m >>= λ _. n

-- How a chain goes on from a call whose result is known.
module _ {ℓ} {W A B : Type ℓ} where
  pub bind-ok :
      (m : M W A) (f : A → M W B) (w : W) (a : A) → (m w).0 ≡ ok a → (m >>= f) w ≡ f a (m w).1
  bind-ok m f w a e = ap (λ r. continue r f (m w).1) e

  pub bind-err :
      (m : M W A) (f : A → M W B) (w : W) (e : Message)
      → (m w).0 ≡ err e
      → (m >>= f) w ≡ (err e, (m w).1)
  bind-err m f w e h = ap (λ r. continue r f (m w).1) h

  pub attempt-ok :
      (m : M W A) (f : Result A → M W B) (w : W) (a : A)
      → (m w).0 ≡ ok a
      → (attempt m >>= f) w ≡ f (ok a) (m w).1
  attempt-ok m f w a e = ap (λ r. continue (recover r) f (m w).1) e

  pub attempt-err :
      (m : M W A) (f : Result A → M W B) (w : W) (e : Message)
      → (m w).0 ≡ err e
      → (attempt m >>= f) w ≡ f (err e) (m w).1
  attempt-err m f w e h = ap (λ r. continue (recover r) f (m w).1) h
