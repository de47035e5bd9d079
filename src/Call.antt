-- ===== src/Call.antt =====
-- A call that changes the state of the world: Go's early return on an error keeps what was done.
use banco.Prelude.{Option, ◌≡◌, refl, ap}
use banco.Result.{Error, Result, ok, err, panic, or_error}

abbrev pub Call : Type 0 → Type 0 → Type 0
Call World A = World → Result A × World

module _ {World : Type 0} where
  abbrev pub done : {A : Type 0} → Result A → Call World A
  done r w = (r, w)

  abbrev pub continue : {A B : Type 0} → Result A → (A → Call World B) → Call World B
  continue (ok a) f w = f a w
  continue (err e) f w = (err e, w)
  continue panic f w = (panic, w)

  infixl 5 ◌>>=◌
  abbrev pub ◌>>=◌ : {A B : Type 0} → Call World A → (A → Call World B) → Call World B
  ◌>>=◌ m f w = let (r, w') = m w in continue r f w'

  -- A call of a library, whose error the caller wraps.
  abbrev pub ask : {A : Type 0} → (World → Option A × World) → Error → Call World A
  ask m e w = let (r, w') = m w in (or_error r e, w')

  -- Inversion of a call that is followed by another.
  continue_ok :
      {A B : Type 0} (r : Result A) (f : A → Call World B) (w w' : World) (b : B)
      → continue r f w ≡ (ok b, w')
      → (a : A) × (r ≡ ok a) × (f a w ≡ (ok b, w'))
  continue_ok (ok a) f w w' b h = (a, refl, h)
  continue_ok (err e) f w w' b h = absurd (cc (ap (λ q. q.0) h))
  continue_ok panic f w w' b h = absurd (cc (ap (λ q. q.0) h))

  pub >>=_ok :
      {A B : Type 0} (m : Call World A) (f : A → Call World B) (w w' : World) (b : B)
      → (m >>= f) w ≡ (ok b, w')
      → (a : A) × ((m w).0 ≡ ok a) × (f a (m w).1 ≡ (ok b, w'))
  >>=_ok m f w w' b h = continue_ok (m w).0 f (m w).1 w' b h
