-- ===== src/Trade/Sends.antt =====
-- What a step gives to the network, for steps over the wallet service of a trade.
use banco.Prelude.{ℕ, Bool, String, List, [], ◌∷◌, ◌++◌, ◌≡◌, refl, ◌∙◌, ◌⊎◌, inl, inr, Option}
use banco.Buffer.Rules.{IsFree}
use banco.Trade.Libs.{Wallet}
use banco.Trade.Step.{Env, Step, continue, ◌>>=◌, lift, call}
use banco.Result.{Error, Result, ok, err, panic}

-- The log of what the wallet service was asked to broadcast.
pub record WalletLaws {Prevout : Type 0} (wallet : Wallet Prevout) : Type 1 where
  pub sent : wallet.World → List String
  pub sent-get_address :
      (change : Bool) (w : wallet.World) → sent (wallet.get_address change w).1 ≡ sent w
  pub sent-select_utxos :
      (asset : String) (amount : ℕ) (w : wallet.World)
      → sent (wallet.select_utxos asset amount w).1 ≡ sent w
  pub sent-sign_pset :
      (text : String) (extract_tx : Bool) (w : wallet.World)
      → sent (wallet.sign_pset text extract_tx w).1 ≡ sent w
  pub sent-broadcast_transaction :
      (hex : String) (w : wallet.World)
      → sent (wallet.broadcast_transaction hex w).1 ≡ sent w ++ (hex ∷ [])

module _ {World : Type 0} (sent : World → List String) where
  -- The step broadcasts nothing.
  pub record Quiet {A : Type 0} (m : Step World A) : Type 0 where
    pub same : (e : Env World) → sent (m e).1.world ≡ sent e.world
    pub free : (e : Env World) → IsFree e.free → IsFree (m e).1.free

  -- From `e` the step broadcasts nothing and fails, or it broadcasts one transaction, with `P` of it,
  -- of the world after the step and of its result.
  pub record Silent {A : Type 0} (m : Step World A) (e : Env World) : Type 0 where
    pub same : sent (m e).1.world ≡ sent e.world
    pub fails : (a : A) → ¬ ((m e).0 ≡ ok a)

  pub record Sent {A : Type 0} (P : String → World → Result A → Type 0) (m : Step World A)
      (e : Env World) : Type 0 where
    pub hex : String
    pub one : sent (m e).1.world ≡ sent e.world ++ (hex ∷ [])
    pub good : P hex (m e).1.world (m e).0

  abbrev pub Sends :
      {A : Type 0} → (String → World → Result A → Type 0) → Step World A → Env World → Type 0
  Sends P m e = Silent m e ⊎ Sent P m e

  continue-Sends :
      {A B : Type 0} (P : String → World → Result B → Type 0) (r : Result A) (f : A → Step World B)
      (e₀ e : Env World)
      → sent e.world ≡ sent e₀.world
      → ((a : A) → r ≡ ok a → Sends P (f a) e)
      → Sends P (λ x. continue r f e) e₀
  continue-Sends P (ok a) f e₀ e s h = elim (h a refl) [
    | inl silent ↦ inl (record { same = silent.same ∙ s; fails = silent.fails })
    | inr out ↦ inr (record { hex = out.hex; one = rw (← s) out.one; good = out.good })
  ]
  continue-Sends P (err x) f e₀ e s h = inl (record { same = s; fails = λ a i. cc i })
  continue-Sends P panic f e₀ e s h = inl (record { same = s; fails = λ a i. cc i })

  -- After a quiet step.
  pub then-Sends :
      {A B : Type 0} (P : String → World → Result B → Type 0) (m : Step World A)
      (f : A → Step World B) (e : Env World)
      → Quiet m
      → ((a : A) → (m e).0 ≡ ok a → Sends P (f a) (m e).1)
      → Sends P (m >>= f) e
  then-Sends P m f e q h = elim (continue-Sends P (m e).0 f e (m e).1 (q.same e) h) [
    | inl silent ↦ inl (record { same = silent.same; fails = silent.fails })
    | inr out ↦ inr (record { hex = out.hex; one = out.one; good = out.good })
  ]

  pub Quiet-lift : {A : Type 0} (r : Result A) → Quiet (lift r)
  Quiet-lift r = record { same = λ e. refl; free = λ e h. h }

  pub Quiet-call :
      {A : Type 0} (f : World → Option A × World) (x : Error)
      → ((w : World) → sent (f w).1 ≡ sent w)
      → Quiet (call f x)
  Quiet-call f x h = record { same = λ e. h e.world; free = λ e i. i }

  continue_same :
      {A B : Type 0} (r : Result A) (f : A → Step World B) (e : Env World)
      → ((a : A) → Quiet (f a))
      → sent (continue r f e).1.world ≡ sent e.world
  continue_same (ok a) f e h = (h a).same e
  continue_same (err x) f e h = refl
  continue_same panic f e h = refl

  continue_free :
      {A B : Type 0} (r : Result A) (f : A → Step World B) (e : Env World)
      → ((a : A) → Quiet (f a))
      → IsFree e.free
      → IsFree (continue r f e).1.free
  continue_free (ok a) f e h i = (h a).free e i
  continue_free (err x) f e h i = i
  continue_free panic f e h i = i

  pub Quiet-bind :
      {A B : Type 0} (m : Step World A) (f : A → Step World B)
      → Quiet m
      → ((a : A) → Quiet (f a))
      → Quiet (m >>= f)
  Quiet-bind m f q h = record {
    same = λ e. continue_same (m e).0 f (m e).1 h ∙ q.same e;
    free = λ e i. continue_free (m e).0 f (m e).1 h (q.free e i);
  }
