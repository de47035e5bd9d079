-- ===== src/Web/Poll/Round.antt =====
-- What a round of the poll broadcasts.
use banco.Prelude.{ℕ, String, List, [], ◌∷◌, Option, ◌≡◌, refl}
use banco.Offer.Funding.{Taproot}
use banco.Order.{Order}
use banco.Buffer.Rules.{IsFree}
use banco.Trade.Libs.{PsetLib, Wallet}
use banco.Trade.Sends.{WalletLaws}
use banco.Store.Query.{fetch_orders_to_fulfill}
use banco.Watch.Act.{Net, continue}
use banco.Watch.Order.{Clock, Explorer, watch_for_trades}
use banco.Watch.Only.{OnlyFor, watch_for_trades-OnlyFor}
use banco.Watch.Frees.{watch_for_trades-IsFree}
use banco.Web.Poll.{logged, watch_orders, watch_fetched, poll}
use banco.Result.{Result, ok, err, panic}

module _ (tap : Taproot) (lib : PsetLib tap) (wallet : Wallet (lib.Prevout))
    (laws : WalletLaws wallet) (explorer : Explorer (lib.Prevout) (wallet.World))
    (format_time : ℕ → String) (parse_time : String → Option ℕ) (clock : Order → Clock) where
  open wallet use {World}

  -- The watcher's run for an order, with the times of its updates.
  abbrev pub watched : Order → Net World → Result (Unit {0}) × Net World
  watched order = watch_for_trades tap lib wallet explorer format_time order (clock order)

  -- What a round over orders ends with. Every order has the watcher's run, which broadcasts only for
  -- that order, in the state that the run before it left; an error of a run is dropped; a panic ends
  -- the process, with the orders after it untouched.
  pub data RoundFor : List Order → Net World → Result (Unit {0}) × Net World → Type 0 where
    finished : (n : Net World) → RoundFor [] n (ok tt, n)
    next_order :
        (order : Order) (rest : List Order) (n : Net World) (out : Result (Unit {0}) × Net World)
        → ¬ ((watched order n).0 ≡ panic)
        → OnlyFor tap lib wallet laws explorer format_time order n (watched order n).1
        → RoundFor rest (watched order n).1 out
        → RoundFor (order ∷ rest) n out
    process_ends :
        (order : Order) (rest : List Order) (n : Net World)
        → (watched order n).0 ≡ panic
        → OnlyFor tap lib wallet laws explorer format_time order n (watched order n).1
        → RoundFor (order ∷ rest) n (panic, (watched order n).1)

  -- What a round ends with, by the answer of the store.
  abbrev pub Polled : Result (List Order) → Net World → Result (Unit {0}) × Net World → Type 0
  Polled (ok orders) n out = RoundFor orders n out
  Polled (err e) n out = out ≡ (ok tt, n)
  Polled panic n out = out ≡ (panic, n)

  module _
      (quiet : (address : String) (w : World)
        → laws.sent (explorer address w).1 ≡ laws.sent w) where
    after_order :
        (order : Order) (rest : List Order) (n : Net World) (r : Result (Unit {0}))
        → (watched order n).0 ≡ r
        → OnlyFor tap lib wallet laws explorer format_time order n (watched order n).1
        → RoundFor rest (watched order n).1 (
            watch_orders tap lib wallet explorer format_time parse_time clock rest
              (watched order n).1)
        → RoundFor (order ∷ rest) n (
            continue
              (logged r)
              (λ u. watch_orders tap lib wallet explorer format_time parse_time clock rest)
              (watched order n).1)
    after_order order rest n (ok u) e only more =
        next_order order rest n _ (λ p. cc (e, p)) only more
    after_order order rest n (err x) e only more =
        next_order order rest n _ (λ p. cc (e, p)) only more
    after_order order rest n panic e only more = process_ends order rest n e only

    watch_orders-RoundFor :
        (orders : List Order) (n : Net World)
        → IsFree n.env.free
        → RoundFor orders n
            (watch_orders tap lib wallet explorer format_time parse_time clock orders n)
    unfolding watch_orders
    watch_orders-RoundFor [] n i = finished n
    watch_orders-RoundFor (order ∷ rest) n i =
        let only =
          watch_for_trades-OnlyFor tap lib wallet laws explorer format_time quiet order
            (clock order) n i in
        let i₁ =
          watch_for_trades-IsFree tap lib wallet laws explorer format_time order (clock order) n
            i in
        after_order order rest n (watched order n).0 refl only
          (watch_orders-RoundFor rest (watched order n).1 i₁)

    fetched :
        (r : Result (List Order)) (n : Net World)
        → IsFree n.env.free
        → Polled r n (watch_fetched tap lib wallet explorer format_time parse_time clock r n)
    fetched (ok orders) n i = watch_orders-RoundFor orders n i
    fetched (err e) n i = refl
    fetched panic n i = refl

    -- With a well-formed free list and a block explorer that broadcasts nothing: where
    -- fetchOrdersToFulfill returns orders, a round of the poll runs the watcher for every one of them,
    -- in their order, also after an error with an order before it, until the last or until a run
    -- panics. Each run broadcasts nothing or, for its order, one transaction for each of the first of
    -- the coins that the block explorer answers and that are enough for it. Where the orders cannot be
    -- fetched the round does nothing.
    pub poll-RoundFor :
        (n : Net World)
        → IsFree n.env.free
        → let (r, c) = fetch_orders_to_fulfill parse_time n.conn in
          Polled r
            (record n { conn = c })
            (poll tap lib wallet explorer format_time parse_time clock n)
    unfolding poll
    poll-RoundFor n i =
        let run = fetch_orders_to_fulfill parse_time n.conn in
        fetched run.0 (record n { conn = run.1 }) i
