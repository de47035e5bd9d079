-- ===== src/Web/Handler.antt =====
-- A handler: it ends early with a response, and what it did stays. A panic is answered by the
-- middleware of the router.
use banco.Float.{Float64}
use banco.Result.{Error, Result, ok, err, panic}
use banco.Call.{Call}
use banco.Watch.Act.{Net, Act}
use banco.Web.Response.{Response}

module _ (float : Float64) where
  pub data Outcome (A : Type 0) : Type 0 where
    panicked : Outcome A
    replied : Response float → Outcome A
    going : A → Outcome A

  abbrev pub Handler : Type 0 → Type 0 → Type 0
  Handler World A = Net World → Outcome A × Net World

-- `if err != nil { c...; return }`
abbrev pub outcome_of :
    {float : Float64} {A : Type 0} → Result A → (Error → Response float) → Outcome float A
outcome_of (ok a) f = going a
outcome_of (err e) f = replied (f e)
outcome_of panic f = panicked

-- A call on the world outside.
abbrev pub on_world : {World A : Type 0} → Call World A → Act World A
on_world m n = let (r, w) = m n.env.world in (r, record n { env = record n.env { world = w } })

module _ {World : Type 0} {float : Float64} where
  abbrev pub continue :
      {A B : Type 0} → Outcome float A → (A → Handler float World B) → Handler float World B
  continue panicked f n = (panicked, n)
  continue (replied r) f n = (replied r, n)
  continue (going a) f n = f a n

  infixl 5 ◌>>=◌
  abbrev pub ◌>>=◌ :
      {A B : Type 0} → Handler float World A → (A → Handler float World B) → Handler float World B
  ◌>>=◌ m f n = let (r, n') = m n in continue r f n'

  abbrev pub reply : {A : Type 0} → Response float → Handler float World A
  reply r n = (replied r, n)

  abbrev pub pure : {A : Type 0} → Result A → (Error → Response float) → Handler float World A
  pure r f n = (outcome_of r f, n)

  abbrev pub or_reply :
      {A : Type 0} → Act World A → (Error → Response float) → Handler float World A
  or_reply m f n = let (r, n') = m n in (outcome_of r f, n')
