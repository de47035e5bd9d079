-- ===== src/Watch/Settles.antt =====
-- An order that is funded is fulfilled.
use banco.Prelude.{
  ℕ, String, Bool, true, false, List, [], Option, none, ◌≡◌, refl, sym, ap, ◌∙◌, if◌then◌else◌,
  str_eq, All,
}
use banco.Offer.Funding.{Taproot}
use banco.Order.{Order}
use banco.Trade.Types.{Utxo, Trade}
use banco.Trade.Libs.{PsetLib, Wallet}
use banco.Trade.Step.{Env}
use banco.Store.Rows.{Db, is_status}
use banco.Store.Atomic.{conn}
use banco.Store.Save.{update_order_status}
use banco.Store.Update.{after_status, updated}
use banco.Store.Query.{find_orders_to_fulfill}
use banco.Store.Settled.{set_status-unfetched}
use banco.Watch.Act.{Net, on_store}
use banco.Watch.Coins.{coins_are_more_than}
use banco.Watch.Execute.{execute_trades}
use banco.Watch.Order.{Clock, Explorer, mark_expired, fetch_unspents, fulfil_order, settle}
use banco.Watch.Order.{watch_for_trades}
use banco.Result.{ok}

module _ (tap : Taproot) (lib : PsetLib tap) (wallet : Wallet (lib.Prevout))
    (explorer : Explorer (lib.Prevout) (wallet.World)) (format_time : ℕ → String)
    (parse_time : String → Option ℕ) where
  open lib use {Prevout}
  open wallet use {World}

  -- A state without an open transaction in which no call of the driver fails.
  abbrev pub calm : Env World → Db → Net World
  calm env db = record { env = env; conn = conn db none [] }

  stored :
      (order : Order) (status : String) (now : ℕ) (env : Env World) (db : Db)
      → is_status status ≡ true
      → on_store (update_order_status format_time order.id status now) (calm env db)
        ≡ (ok tt, calm env (after_status order.id status (format_time now) db))
  stored order status now env db known =
      ap (λ r. (r.0, record { env = env; conn = r.1 }))
        (updated format_time order.id status now db known)

  marked_if :
      (b : Bool) (order : Order) (now : ℕ) (env : Env World) (db : Db)
      → (db' : Db) × ((if b
              then on_store (update_order_status format_time order.id "Expired" now)
              else λ n. (ok tt, n))
            (calm env db)
          ≡ (ok tt, calm env db'))
  marked_if true order now env db = (_, stored order "Expired" now env db refl)
  marked_if false order now env db = (db, refl)

  marked :
      (order : Order) (clock : Clock) (env : Env World) (db : Db)
      → (db' : Db) × (mark_expired tap lib wallet explorer format_time order clock (calm env db)
          ≡ (ok tt, calm env db'))
  unfolding mark_expired
  marked order clock env db = marked_if _ order clock.at_expiry env db

  fulfilled :
      (order : Order) (clock : Clock) (utxos : List (Utxo Prevout)) (env e' : Env World) (db : Db)
      (trades : List (Trade Prevout tap.Payment))
      → execute_trades tap lib wallet order utxos env ≡ (ok trades, e')
      → (db' : Db) × (fulfil_order tap lib wallet explorer format_time order clock utxos
            (calm env db)
          ≡ (
            ok tt,
            calm e' (after_status order.id "Fulfilled" (format_time clock.at_fulfilment) db'),
          ))
  unfolding fulfil_order
  fulfilled order clock utxos env e' db trades ran = (
    after_status order.id "Funded" (format_time clock.at_funding) db,
    rw
        (
          updated format_time order.id "Funded" clock.at_funding db refl,
          ran,
          updated format_time order.id "Fulfilled" clock.at_fulfilment
              (after_status order.id "Funded" (format_time clock.at_funding) db) refl,
        )
        refl,
  )

  settled_by :
      (order : Order) (clock : Clock) (utxos : List (Utxo Prevout)) (n n' : Net World)
      → coins_are_more_than utxos order.input.amount ≡ true
      → fulfil_order tap lib wallet explorer format_time order clock utxos n ≡ (ok tt, n')
      → settle tap lib wallet explorer format_time order clock utxos n ≡ (ok tt, n')
  unfolding settle
  settled_by order clock utxos n n' enough h = rw enough h

  run :
      (order : Order) (clock : Clock) (utxos : List (Utxo Prevout)) (env e' : Env World) (w : World)
      (db : Db) (trades : List (Trade Prevout tap.Payment))
      → explorer order.address env.world ≡ (ok utxos, w)
      → coins_are_more_than utxos order.input.amount ≡ true
      → execute_trades tap lib wallet order utxos (record env { world = w }) ≡ (ok trades, e')
      → (db' : Db) × (watch_for_trades tap lib wallet explorer format_time order clock (calm env db)
          ≡ (
            ok tt,
            calm e' (after_status order.id "Fulfilled" (format_time clock.at_fulfilment) db'),
          ))
  unfolding watch_for_trades fetch_unspents
  run order clock utxos env e' w db trades found enough ran =
      let (db₁, first) = marked order clock env db in
      let (db₂, last) = fulfilled order clock utxos (record env { world = w }) e' db₁ trades ran in
      (
        db₂,
        rw (first, found)
            (settled_by order clock utxos (calm (record env { world = w }) db₁) _ enough last),
      )

  -- When no call of the driver fails, the explorer answers with coins that are enough, and the trades
  -- of these coins succeed, watchForTrades returns without an error, and the orders that
  -- fetchOrdersToFulfill then finds do not have the order's identifier: it is not executed again. This
  -- holds for an order of any age.
  pub watch_for_trades_settles :
      (order : Order) (clock : Clock) (utxos : List (Utxo Prevout)) (env e' : Env World) (w : World)
      (db : Db) (trades : List (Trade Prevout tap.Payment)) (os : List Order)
      → explorer order.address env.world ≡ (ok utxos, w)
      → coins_are_more_than utxos order.input.amount ≡ true
      → execute_trades tap lib wallet order utxos (record env { world = w }) ≡ (ok trades, e')
      → find_orders_to_fulfill parse_time
          (watch_for_trades tap lib wallet explorer format_time order clock
            (calm env db)).1.conn.stored
        ≡ ok os
      → ((watch_for_trades tap lib wallet explorer format_time order clock (calm env db)).0 ≡ ok tt)
        × All (λ o. str_eq order.id o.id ≡ false) os
  watch_for_trades_settles order clock utxos env e' w db trades os found enough ran listed =
      let (db', done) = run order clock utxos env e' w db trades found enough ran in
      (
        ap (λ r. r.0) done,
        set_status-unfetched parse_time order.id "Fulfilled" (format_time clock.at_fulfilment) db'
            os refl
            (ap (λ r. find_orders_to_fulfill parse_time r.1.conn.stored) (sym done) ∙ listed),
      )
