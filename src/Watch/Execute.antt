-- ===== src/Watch/Execute.antt =====
-- executeTrades of app.go.
use banco.Prelude.{List, [], ◌∷◌, some}
use banco.Offer.Funding.{Taproot}
use banco.Order.{Order}
use banco.Trade.Types.{Utxo, pending, funded, executed, cancelled, Trade, from_funded_order}
use banco.Trade.Libs.{PsetLib, Wallet}
use banco.Trade.Step.{Env, Step, ◌>>=◌, lift}
use banco.Trade.Execute.{execute_trade}
use banco.Result.{Result, ok, err, panic, trade_not_funded}

module _ (tap : Taproot) (lib : PsetLib tap) (wallet : Wallet (lib.Prevout)) where
  open lib use {Prevout}
  open wallet use {World}

  -- `trade.Status != Funded`
  abbrev pub require_funded : Trade Prevout tap.Payment → Result (Unit {0})
  require_funded t = elim t.status [
    | pending ↦ err trade_not_funded
    | funded ↦ ok tt
    | executed ↦ err trade_not_funded
    | cancelled ↦ err trade_not_funded
  ]

  -- A run of ExecuteTrade, for the trade after it.
  abbrev pub after_run :
      (Result (Unit {0}) × Trade Prevout tap.Payment) × Env World
      → Result (Trade Prevout tap.Payment) × Env World
  after_run ((ok u, t), env) = (ok t, env)
  after_run ((err e, t), env) = (err e, env)
  after_run ((panic, t), env) = (panic, env)

  abbrev pub run_trade : Trade Prevout tap.Payment → Step World (Trade Prevout tap.Payment)
  run_trade t env = after_run (execute_trade tap lib wallet t env)

  -- The body of the loop, for one coin.
  unfoldable pub execute_one : Order → Utxo Prevout → Step World (Trade Prevout tap.Payment)
  execute_one order unspent = do
    trade ← lift (from_funded_order tap order (some unspent))
    u ← lift (require_funded trade)
    run_trade trade

  -- `executeTrades`
  unfoldable pub execute_trades :
      Order → List (Utxo Prevout) → Step World (List (Trade Prevout tap.Payment))
  unfolding execute_one
  execute_trades order [] = lift (ok [])
  execute_trades order (unspent ∷ rest) = do
    trade ← execute_one order unspent
    trades ← execute_trades order rest
    lift (ok (trade ∷ trades))
