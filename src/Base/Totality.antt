-- ===== src/Base/Totality.antt =====
-- Calls that return a value in every state, and calls that do not panic.
use zero_nime.Base.Outcome.{
  Result, Message, ok, err, panic, M, recover, pure, attempt, lift, ◌>>=◌, continue,
}
use mathlib.Core.Path.{◌≡◌, refl, sym, ap, ◌∙◌, subst}
use mathlib.Core.Logic.{◌≢◌}

-- The call returns a value in every state.
abbrev pub Returns : {W A : Type 0} → M W A → Type 0
Returns {W} {A} m = (w : W) → (a : A) × ((m w).0 ≡ ok a)

-- The call does not panic in any state.
abbrev pub Survives : {W A : Type 0} → M W A → Type 0
Survives {W} m = (w : W) → (m w).0 ≢ panic

recovered : {A : Type 0} (r : Result A) → r ≢ panic → (r' : Result A) × (recover r ≡ ok r')
recovered (ok a) h = (ok a, refl)
recovered (err e) h = (err e, refl)
recovered panic h = elim (h refl) [ ]

module _ {W A : Type 0} where
  pub pure-Returns : (a : A) → Returns {W = W} (pure a)
  pure-Returns a w = (a, refl)

  pub attempt-Returns : (m : M W A) → Survives m → Returns (attempt m)
  attempt-Returns m h w = recovered (m w).0 (h w)

module _ {W A B : Type 0} where
  pub bind-Returns :
      (m : M W A) (f : A → M W B) → Returns m → ((a : A) → Returns (f a)) → Returns (m >>= f)
  bind-Returns m f h k w =
      let (a, e) = h w in
      let (b, e') = k a (m w).1 in (b, ap (λ r. (continue r f (m w).1).0) e ∙ e')

  came_from :
      (r : Result A) (f : A → M W B) (w : W) (b : B)
      → (continue r f w).0 ≡ ok b
      → (a : A) × (r ≡ ok a) × ((f a w).0 ≡ ok b)
  came_from (ok a) f w b h = (a, refl, h)
  came_from (err e) f w b h = cc
  came_from panic f w b h = cc

  -- a chain that returns a value got one from its first call
  pub bind-inv :
      (m : M W A) (f : A → M W B) (w : W) (b : B)
      → ((m >>= f) w).0 ≡ ok b
      → (a : A) × ((m w).0 ≡ ok a) × ((f a (m w).1).0 ≡ ok b)
  bind-inv m f w b h = came_from (m w).0 f (m w).1 b h

  outcome-Returns :
      (r : Result A) (f : Result A → M W B) (w : W)
      → r ≢ panic
      → ((a : A) → Returns (f (ok a)))
      → ((e : Message) → Returns (f (err e)))
      → (b : B) × ((continue (recover r) f w).0 ≡ ok b)
  outcome-Returns (ok a) f w h k k' = k a w
  outcome-Returns (err e) f w h k k' = k' e w
  outcome-Returns panic f w h k k' = elim (h refl) [ ]

  -- what goes on from a call that does not panic
  pub attempt-then-Returns :
      (m : M W A) (f : Result A → M W B)
      → Survives m
      → ((a : A) → Returns (f (ok a)))
      → ((e : Message) → Returns (f (err e)))
      → Returns (attempt m >>= f)
  attempt-then-Returns m f h k k' w = outcome-Returns (m w).0 f (m w).1 (h w) k k'

-- Each value that the call returns has the property.
abbrev pub Yields : {W A : Type 0} → (A → Type 0) → M W A → Type 0
Yields {W} {A} P m = (w : W) (a : A) → (m w).0 ≡ ok a → P a

module _ {W A : Type 0} (P : A → Type 0) where
  pub pure-Yields : (a : A) → P a → Yields {W = W} P (pure a)
  pure-Yields a h w b e = subst P (ok_injective a b e) h
    where
      ok_injective : (a b : A) → ok a ≡ ok b → a ≡ b
      ok_injective a b e = cc

  pub lift_panic-Yields : Yields {W = W} P (lift panic)
  lift_panic-Yields w a e = cc

  pub bind-Yields :
      {B : Type 0} (m : M W B) (f : B → M W A) → ((b : B) → Yields P (f b)) → Yields P (m >>= f)
  bind-Yields m f h w a e = let (b, _, e') = bind-inv m f w a e in h b (m w).1 a e'

  -- what the first call yields is known to the rest
  pub chain-Yields :
      {B : Type 0} (Q : B → Type 0) (m : M W B) (f : B → M W A)
      → Yields Q m
      → ((b : B) → Q b → Yields P (f b))
      → Yields P (m >>= f)
  chain-Yields Q m f g h w a e =
      let (b, e', e'') = bind-inv m f w a e in h b (g w b e') (m w).1 a e''

-- an attempt yields the outcome of the call
pub attempt-Yields : {W A : Type 0} (m : M W A) → Yields (λ r. (w : W) × ((m w).0 ≡ r)) (attempt m)
attempt-Yields {W} {A} m w r e = (w, outcome (m w).0 e)
  where
    outcome : (r' : Result A) → recover r' ≡ ok r → r' ≡ r
    outcome (ok a) e = cc
    outcome (err m) e = cc
    outcome panic e = cc

-- While the world has a property, the call returns a value with another, and leaves the world with
-- the first.
abbrev pub Delivers : {W A : Type 0} → (W → Type 0) → (A → Type 0) → M W A → Type 0
Delivers {W} {A} I Q m = (w : W) → I w → (a : A) × ((m w).0 ≡ ok a) × Q a × I (m w).1

module _ {W A : Type 0} (I : W → Type 0) (Q : A → Type 0) where
  pub pure-Delivers : (a : A) → Q a → Delivers I Q (pure a)
  pure-Delivers a q w h = (a, refl, q, h)

  pub bind-Delivers :
      {B : Type 0} (R : B → Type 0) (m : M W B) (f : B → M W A)
      → Delivers I R m
      → ((b : B) → R b → Delivers I Q (f b))
      → Delivers I Q (m >>= f)
  bind-Delivers R m f d d' w h =
      let (b, e, r, h') = d w h in
      let (a, e', q, h'') = d' b r (m w).1 h' in
      let run : (m >>= f) w ≡ f b (m w).1 = ap (λ x. continue x f (m w).1) e in
      (a, ap (λ x. x.0) run ∙ e', q, subst (λ x. I x.1) (sym run) h'')
