-- ===== src/Trade/Step.antt =====
-- The state that a trade works on: the world outside, and the free list of pkg/bufferutil.
use banco.Prelude.{ℕ, List, Option, some, ◌≡◌, refl, ap}
use banco.Result.{Error, Result, ok, err, panic, or_error, or_error_ok}

pub record Env (World : Type 0) : Type 0 where
  pub world : World
  pub free : List (List ℕ)

-- A function with effects: they stay when it fails.
abbrev pub Step : Type 0 → Type 0 → Type 0
Step World A = Env World → Result A × Env World

module _ {World : Type 0} where
  abbrev pub continue : {A B : Type 0} → Result A → (A → Step World B) → Step World B
  continue (ok a) f e = f a e
  continue (err x) f e = (err x, e)
  continue panic f e = (panic, e)

  continue_ok :
      {A B : Type 0} (r : Result A) (f : A → Step World B) (e : Env World) {b : B}
      → (continue r f e).0 ≡ ok b
      → (a : A) × (r ≡ ok a) × ((f a e).0 ≡ ok b)
  continue_ok (ok a) f e h = (a, refl, h)
  continue_ok (err x) f e h = cc
  continue_ok panic f e h = cc

  infixl 5 ◌>>=◌
  abbrev pub ◌>>=◌ : {A B : Type 0} → Step World A → (A → Step World B) → Step World B
  ◌>>=◌ m f e = let (r, e') = m e in continue r f e'

  -- A result without effects.
  abbrev pub lift : {A : Type 0} → Result A → Step World A
  lift r e = (r, e)

  -- A call of the wallet service, with the error that the caller wraps its error in.
  abbrev pub call : {A : Type 0} → (World → Option A × World) → Error → Step World A
  call f x e = let (r, w) = f e.world in (or_error r x, record e { world = w })

  -- Inversion of a bind that succeeds.
  pub bind_ok :
      {A B : Type 0} (m : Step World A) (f : A → Step World B) (e : Env World) {b : B}
      → ((m >>= f) e).0 ≡ ok b
      → (a : A) × ((m e).0 ≡ ok a) × ((f a (m e).1).0 ≡ ok b)
  bind_ok m f e h = continue_ok (m e).0 f (m e).1 h

  continue_run :
      {A B : Type 0} (r : Result A) (f : A → Step World B) (e : Env World) {b : B} {e' : Env World}
      → continue r f e ≡ (ok b, e')
      → (a : A) × (r ≡ ok a) × (f a e ≡ (ok b, e'))
  continue_run (ok a) f e h = (a, refl, h)
  continue_run (err x) f e h = cc (ap (λ p. p.0) h)
  continue_run panic f e h = cc (ap (λ p. p.0) h)

  -- The same with the state after it.
  pub bind_run :
      {A B : Type 0} (m : Step World A) (f : A → Step World B) (e : Env World) {b : B}
      {e' : Env World}
      → (m >>= f) e ≡ (ok b, e')
      → (a : A) × ((m e).0 ≡ ok a) × (f a (m e).1 ≡ (ok b, e'))
  bind_run m f e h = continue_run (m e).0 f (m e).1 h

  -- What a call that succeeds answered.
  pub call_answer :
      {A : Type 0} (f : World → Option A × World) (x : Error) (e : Env World) {a : A}
      → (call f x e).0 ≡ ok a
      → f e.world ≡ (some a, (call f x e).1.world)
  call_answer f x e h = ap (λ r. (r, (f e.world).1)) (or_error_ok (f e.world).0 x h)
