-- ===== src/Web/Replies.antt =====
-- Where the response of a handler comes from.
use banco.Prelude.{◌≡◌, refl, sym, ap}
use banco.Float.{Float64}
use banco.Result.{Error, Result, ok, err, panic}
use banco.Watch.Act.{Net, Act}
use banco.Web.Response.{Response}
use banco.Web.Handler.{Handler, replied, continue, ◌>>=◌, outcome_of, pure, or_reply}

module _ {World : Type 0} {float : Float64} where
  from_outcome :
      {A B : Type 0} (r : Result A) (g : Error → Response float) (f : A → Handler float World B)
      (n n' : Net World) (x : Response float)
      → ((e : Error) → ¬ (g e ≡ x))
      → continue (outcome_of r g) f n ≡ (replied x, n')
      → (a : A) × (r ≡ ok a) × (f a n ≡ (replied x, n'))
  from_outcome (ok a) g f n n' x other h = (a, refl, h)
  from_outcome (err e) g f n n' x other h = absurd (other e (cc (ap (λ q. q.0) h)))
  from_outcome panic g f n n' x other h = absurd (cc (ap (λ q. q.0) h))

  -- A check that does not give the response was passed.
  pub pure_passed :
      {A B : Type 0} (r : Result A) (g : Error → Response float) (f : A → Handler float World B)
      (n n' : Net World) (x : Response float)
      → ((e : Error) → ¬ (g e ≡ x))
      → (pure r g >>= f) n ≡ (replied x, n')
      → (a : A) × (r ≡ ok a) × (f a n ≡ (replied x, n'))
  pure_passed r g f n n' x other h = from_outcome r g f n n' x other h

  pub or_reply_passed :
      {A B : Type 0} (m : Act World A) (g : Error → Response float) (f : A → Handler float World B)
      (n n' : Net World) (x : Response float)
      → ((e : Error) → ¬ (g e ≡ x))
      → (or_reply m g >>= f) n ≡ (replied x, n')
      → (a : A) × ((m n).0 ≡ ok a) × (f a (m n).1 ≡ (replied x, n'))
  or_reply_passed m g f n n' x other h = from_outcome (m n).0 g f (m n).1 n' x other h

  -- Where a check gives the response, the state is as it was.
  pub pure_kept :
      {A B : Type 0} (r : Result A) (g : Error → Response float) (f : A → Handler float World B)
      (n n' : Net World) (x : Response float)
      → ((a : A) → r ≡ ok a → f a n ≡ (replied x, n') → n' ≡ n)
      → (pure r g >>= f) n ≡ (replied x, n')
      → n' ≡ n
  pure_kept (ok a) g f n n' x rest h = rest a refl h
  pure_kept (err e) g f n n' x rest h = ap (λ q. q.1) (sym h)
  pure_kept panic g f n n' x rest h = ap (λ q. q.1) (sym h)
