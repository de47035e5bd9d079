-- ===== src/Watch/Order.antt =====
-- watchForTrades of app.go, over the order store and the wallet service.
use banco.Prelude.{ℕ, ◌-◌, ◌*◌, ◌^◌, String, List, ltb, if◌then◌else◌}
use banco.Offer.Funding.{Taproot}
use banco.Order.{Order}
use banco.Trade.Types.{Utxo}
use banco.Trade.Libs.{PsetLib, Wallet}
use banco.Store.Save.{update_order_status}
use banco.Watch.Act.{Act, ◌>>=◌, ◌>>◌, on_store, on_env, ignored}
use banco.Watch.Coins.{coins_are_more_than}
use banco.Watch.Execute.{execute_trades}
use banco.Result.{Result, ok}

-- The times that the clock shows at the calls of time.Since and time.Now.
pub record Clock : Type 0 where
  pub start : ℕ
  pub at_expiry : ℕ
  pub at_funding : ℕ
  pub at_fulfilment : ℕ

-- FetchUnspents of the block explorer, which may panic.
abbrev pub Explorer : Type 0 → Type 0 → Type 0
Explorer Prevout World = String → World → Result (List (Utxo Prevout)) × World

-- `10*time.Minute`, in nanoseconds.
abbrev ten_minutes : ℕ
ten_minutes = 600 * 10 ^ 9

module _ (tap : Taproot) (lib : PsetLib tap) (wallet : Wallet (lib.Prevout))
    (explorer : Explorer (lib.Prevout) (wallet.World)) (format_time : ℕ → String) where
  open lib use {Prevout}
  open wallet use {World}

  -- Time in the future gives no positive duration.
  unfoldable pub mark_expired : Order → Clock → Act World (Unit {0})
  mark_expired order clock =
      if ltb ten_minutes (clock.start - order.timestamp)
      then on_store (update_order_status format_time order.id "Expired" clock.at_expiry)
      else λ n. (ok tt, n)

  unfoldable pub fetch_unspents : String → Act World (List (Utxo Prevout))
  fetch_unspents address n =
      let (r, w) = explorer address n.env.world in
      (r, record n { env = record n.env { world = w } })

  -- The part under `if coinsAreMoreThan`.
  unfoldable pub fulfil_order : Order → Clock → List (Utxo Prevout) → Act World (Unit {0})
  fulfil_order order clock utxos =
      ignored (on_store (update_order_status format_time order.id "Funded" clock.at_funding))
      >> on_env (execute_trades tap lib wallet order utxos)
      >> ignored
          (on_store (update_order_status format_time order.id "Fulfilled" clock.at_fulfilment))

  unfoldable pub settle : Order → Clock → List (Utxo Prevout) → Act World (Unit {0})
  settle order clock utxos =
      if coins_are_more_than utxos order.input.amount then fulfil_order order clock utxos else λ n.
      (ok tt, n)

  -- `watchForTrades`
  unfoldable pub watch_for_trades : Order → Clock → Act World (Unit {0})
  watch_for_trades order clock =
      mark_expired order clock >> fetch_unspents order.address >>= settle order clock
