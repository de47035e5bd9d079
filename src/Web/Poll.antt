-- ===== src/Web/Poll.antt =====
-- The function that main polls with, and startWatching.
use banco.Prelude.{ℕ, zero, suc, String, List, [], ◌∷◌, Option}
use banco.Offer.Funding.{Taproot}
use banco.Order.{Order}
use banco.Trade.Libs.{PsetLib, Wallet}
use banco.Store.Query.{fetch_orders_to_fulfill}
use banco.Watch.Act.{Net, Act, continue, on_store}
use banco.Watch.Order.{Clock, Explorer, watch_for_trades}
use banco.Result.{Error, Result, ok, err, panic}
pub mod Round

-- An error is logged, and the poll goes on; a panic ends the process.
abbrev pub logged : Result (Unit {0}) → Result (Unit {0})
logged (ok u) = ok tt
logged (err e) = ok tt
logged panic = panic

module _ (tap : Taproot) (lib : PsetLib tap) (wallet : Wallet (lib.Prevout))
    (explorer : Explorer (lib.Prevout) (wallet.World)) (format_time : ℕ → String)
    (parse_time : String → Option ℕ) (clock : Order → Clock) where
  open wallet use {World}

  abbrev pub watch_logged : Order → Act World (Unit {0})
  watch_logged order n =
      let (r, n') = watch_for_trades tap lib wallet explorer format_time order (clock order) n in
      (logged r, n')

  -- The loop over the orders.
  unfoldable pub watch_orders : List Order → Act World (Unit {0})
  watch_orders [] n = (ok tt, n)
  watch_orders (order ∷ rest) n =
      let (r, n') = watch_logged order n in continue r (λ u. watch_orders rest) n'

  abbrev pub watch_fetched : Result (List Order) → Act World (Unit {0})
  watch_fetched (ok orders) n = watch_orders orders n
  watch_fetched (err e) n = (ok tt, n)
  watch_fetched panic n = (panic, n)

  -- The function that main gives to startWatching.
  unfoldable pub poll : Act World (Unit {0})
  poll n = let (r, n') = on_store (fetch_orders_to_fulfill parse_time) n in watch_fetched r n'

-- The rounds of startWatching, so many of them; it never returns by itself.
unfoldable pub start_watching : {World : Type 0} → Act World (Unit {0}) → ℕ → Act World (Unit {0})
start_watching fn zero n = (ok tt, n)
start_watching fn (suc rounds) n =
    let (r, n') = fn n in continue r (λ u. start_watching fn rounds) n'
