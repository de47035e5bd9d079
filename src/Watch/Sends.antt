-- ===== src/Watch/Sends.antt =====
-- What executeTrades broadcasts.
use banco.Prelude.{
  Option, String, List, [], ◌∷◌, ◌++◌, append-nil, append_assoc, ◌≡◌, refl, sym, ap, ◌∙◌, ◌⊎◌, inl,
  inr, some, length, arith,
}
use banco.Offer.Funding.{Taproot}
use banco.Order.{Order}
use banco.Buffer.Rules.{IsFree}
use banco.Trade.Types.{Utxo, Trade, from_funded_order}
use banco.Trade.Libs.{PsetLib, Wallet}
use banco.Trade.Step.{Env, continue, lift}
use banco.Trade.Execute.{execute_trade}
use banco.Trade.Sends.{WalletLaws}
use banco.Trade.Fulfils.{Fulfils}
use banco.Trade.Frees.{execute_trade-IsFree}
use banco.Trade.Outcome.{Outcome, execute_trade-Outcome}
use banco.Watch.Execute.{require_funded, after_run, run_trade, execute_one, execute_trades}
use banco.Result.{Result, ok, err, panic}

module _ (tap : Taproot) (lib : PsetLib tap) (wallet : Wallet (lib.Prevout))
    (laws : WalletLaws wallet) where
  open lib use {Prevout}
  open wallet use {World}

  -- The transaction fulfils the trade of the order with the coin as its funding, by calls that lead
  -- from one state of the world to another.
  abbrev pub FulfilsWith : Order → Utxo Prevout → World → String → World → Type 0
  FulfilsWith order unspent w hex w' =
      (t : Trade Prevout tap.Payment) × (from_funded_order tap order (some unspent) ≡ ok t)
      × (answer : Option String) × Fulfils tap lib wallet t w hex answer w'

  -- One transaction for each of the coins, or for the first of them, each by calls that start in the
  -- world that the one before it left.
  unfoldable pub IsFor : Order → List (Utxo Prevout) → World → List String → Type 0
  IsFor order unspents w [] = Unit
  IsFor order [] w (hex ∷ hexes) = ⊥
  IsFor order (unspent ∷ rest) w (hex ∷ hexes) =
      (w' : World) × FulfilsWith order unspent w hex w' × IsFor order rest w' hexes

  -- Nothing was broadcast and there is an error, or one transaction for the coin was.
  abbrev pub One : Order → Utxo Prevout → Env World → {A : Type 0} → Result A × Env World → Type 0
  One order unspent e {A} (r, e') =
      IsFree e'.free
      × (((laws.sent e'.world ≡ laws.sent e.world) × ((a : A) → ¬ (r ≡ ok a)))
          ⊎ ((hex : String) × (laws.sent e'.world ≡ laws.sent e.world ++ (hex ∷ []))
              × FulfilsWith order unspent e.world hex e'.world))

  ran :
      (order : Order) (unspent : Utxo Prevout) (t : Trade Prevout tap.Payment) (e : Env World)
      (run : (Result (Unit {0}) × Trade Prevout tap.Payment) × Env World)
      → from_funded_order tap order (some unspent) ≡ ok t
      → IsFree run.1.free
      → Outcome tap lib wallet laws t e run
      → One order unspent e (after_run tap lib wallet run)
  ran order unspent t e ((ok tt, t'), e') made i (inl (same, fails, kept)) = absurd (fails refl)
  ran order unspent t e ((err x, t'), e') made i (inl (same, fails, kept)) =
      (i, inl (same, λ a h. cc h))
  ran order unspent t e ((panic, t'), e') made i (inl (same, fails, kept)) =
      (i, inl (same, λ a h. cc h))
  ran order unspent t e ((ok tt, t'), e') made i (inr (hex, answer, one, good, f, told)) =
      (i, inr (hex, one, (t, made, answer, good)))
  ran order unspent t e ((err x, t'), e') made i (inr (hex, answer, one, good, f, told)) =
      (i, inr (hex, one, (t, made, answer, good)))
  ran order unspent t e ((panic, t'), e') made i (inr (hex, answer, one, good, f, told)) =
      (i, inr (hex, one, (t, made, answer, good)))

  required :
      (order : Order) (unspent : Utxo Prevout) (t : Trade Prevout tap.Payment) (e : Env World)
      (r : Result (Unit {0}))
      → from_funded_order tap order (some unspent) ≡ ok t
      → IsFree e.free
      → One order unspent e (continue r (λ u. run_trade tap lib wallet t) e)
  required order unspent t e (ok u) made i =
      ran order unspent t e (execute_trade tap lib wallet t e) made
        (execute_trade-IsFree tap lib wallet laws t e i)
        (execute_trade-Outcome tap lib wallet laws t e i)
  required order unspent t e (err x) made i = (i, inl (refl, λ a h. cc h))
  required order unspent t e panic made i = (i, inl (refl, λ a h. cc h))

  made-One :
      (order : Order) (unspent : Utxo Prevout) (e : Env World)
      (made : Result (Trade Prevout tap.Payment))
      → from_funded_order tap order (some unspent) ≡ made
      → IsFree e.free
      → One order unspent e (
          continue made
            (λ t e'.
              continue (require_funded tap lib wallet t) (λ u. run_trade tap lib wallet t) e')
            e)
  made-One order unspent e (ok t) h i =
      required order unspent t e (require_funded tap lib wallet t) h i
  made-One order unspent e (err x) h i = (i, inl (refl, λ a q. cc q))
  made-One order unspent e panic h i = (i, inl (refl, λ a q. cc q))

  pub execute_one-One :
      (order : Order) (unspent : Utxo Prevout) (e : Env World)
      → IsFree e.free
      → One order unspent e (execute_one tap lib wallet order unspent e)
  unfolding execute_one
  execute_one-One order unspent e i = made-One order unspent e _ refl i

  -- Of a run over coins: what is broadcast is one transaction for each of the first coins; if there
  -- is no error, for all of them.
  abbrev pub EachOnce :
      Order
      → List (Utxo Prevout)
      → Env World
      → Result (List (Trade Prevout tap.Payment)) × Env World
      → Type 0
  EachOnce order unspents e (r, e') =
      (hexes : List String) × (laws.sent e'.world ≡ laws.sent e.world ++ hexes)
      × IsFor order unspents e.world hexes
      × (((trades : List (Trade Prevout tap.Payment)) × (r ≡ ok trades)
            × (length hexes ≡ length unspents))
          ⊎ ((trades : List (Trade Prevout tap.Payment)) → ¬ (r ≡ ok trades)))

  -- The loop after a coin that gave a trade.
  abbrev consed :
      Trade Prevout tap.Payment
      → Result (List (Trade Prevout tap.Payment)) × Env World
      → Result (List (Trade Prevout tap.Payment)) × Env World
  consed t (r, e) = continue r (λ trades. lift (ok (t ∷ trades))) e

  more :
      (order : Order) (unspent : Utxo Prevout) (rest : List (Utxo Prevout)) (e e₁ : Env World)
      (hex : String) (t : Trade Prevout tap.Payment)
      (run : Result (List (Trade Prevout tap.Payment)) × Env World)
      → laws.sent e₁.world ≡ laws.sent e.world ++ (hex ∷ [])
      → FulfilsWith order unspent e.world hex e₁.world
      → EachOnce order rest e₁ run
      → EachOnce order (unspent ∷ rest) e (consed t run)
  unfolding IsFor
  more order unspent rest e e₁ hex t (ok ts, e₂) one good (hexes, all, each, inl (trades, h, n)) = (
    hex ∷ hexes,
    all ∙ ap (λ s. s ++ hexes) one ∙ append_assoc (laws.sent e.world) (hex ∷ []) hexes,
    (e₁.world, good, each),
    inl (t ∷ ts, refl, omega arith),
  )
  more order unspent rest e e₁ hex t (ok ts, e₂) one good (hexes, all, each, inr fails) =
      absurd (fails ts refl)
  more order unspent rest e e₁ hex t (err x, e₂) one good (hexes, all, each, done) = (
    hex ∷ hexes,
    all ∙ ap (λ s. s ++ hexes) one ∙ append_assoc (laws.sent e.world) (hex ∷ []) hexes,
    (e₁.world, good, each),
    inr (λ ts h. cc h),
  )
  more order unspent rest e e₁ hex t (panic, e₂) one good (hexes, all, each, done) = (
    hex ∷ hexes,
    all ∙ ap (λ s. s ++ hexes) one ∙ append_assoc (laws.sent e.world) (hex ∷ []) hexes,
    (e₁.world, good, each),
    inr (λ ts h. cc h),
  )

  -- The loop after a coin that ended it.
  ended :
      (order : Order) (unspent : Utxo Prevout) (rest : List (Utxo Prevout)) (e e₁ : Env World)
      {A : Type 0} (r : Result A) (r' : Result (List (Trade Prevout tap.Payment)))
      → One order unspent e (r, e₁)
      → ((trades : List (Trade Prevout tap.Payment)) → ¬ (r' ≡ ok trades))
      → EachOnce order (unspent ∷ rest) e (r', e₁)
  unfolding IsFor
  ended order unspent rest e e₁ r r' (i, inl (same, fails)) h =
      ([], same ∙ sym (append-nil (laws.sent e.world)), tt, inr h)
  ended order unspent rest e e₁ r r' (i, inr (hex, one, good)) h =
      (hex ∷ [], one, (e₁.world, good, tt), inr h)

  looped :
      (order : Order) (unspent : Utxo Prevout) (rest : List (Utxo Prevout)) (e e₁ : Env World)
      (r : Result (Trade Prevout tap.Payment))
      → One order unspent e (r, e₁)
      → (IsFree e₁.free → EachOnce order rest e₁ (execute_trades tap lib wallet order rest e₁))
      → EachOnce order
          (unspent ∷ rest)
          e
          (continue r (λ t e'. consed t (execute_trades tap lib wallet order rest e')) e₁)
  looped order unspent rest e e₁ (ok t) (i, inl (same, fails)) h = absurd (fails t refl)
  looped order unspent rest e e₁ (ok t) (i, inr (hex, one, good)) h =
      more order unspent rest e e₁ hex t (execute_trades tap lib wallet order rest e₁) one good
        (h i)
  looped order unspent rest e e₁ (err x) o h =
      ended order unspent rest e e₁ (err x) (err x) o (λ ts q. cc q)
  looped order unspent rest e e₁ panic o h =
      ended order unspent rest e e₁ panic panic o (λ ts q. cc q)

  -- With a well-formed free list, executeTrades broadcasts one transaction for each of the first coins,
  -- in their order, and no other; each fulfils the whole order with that one coin as its funding, by
  -- calls of the wallet service that start where those of the one before it ended, and the transaction
  -- prepared for the coin is the one whose text the service signs for it. If executeTrades returns
  -- without an error, that is one for every coin.
  pub execute_trades-EachOnce :
      (order : Order) (unspents : List (Utxo Prevout)) (e : Env World)
      → IsFree e.free
      → EachOnce order unspents e (execute_trades tap lib wallet order unspents e)
  unfolding execute_trades IsFor
  execute_trades-EachOnce order [] e i =
      ([], sym (append-nil (laws.sent e.world)), tt, inl ([], refl, refl))
  execute_trades-EachOnce order (unspent ∷ rest) e i =
      looped order unspent rest e (execute_one tap lib wallet order unspent e).1
        (execute_one tap lib wallet order unspent e).0 (execute_one-One order unspent e i)
        (λ j. execute_trades-EachOnce order rest (execute_one tap lib wallet order unspent e).1 j)
