-- ===== src/Watch/Only.antt =====
-- What watchForTrades broadcasts.
use banco.Prelude.{
  String, Bool, true, false, List, ◌++◌, ◌≡◌, refl, sym, ap, ◌∙◌, ◌⊎◌, inl, inr, subst,
  if◌then◌else◌,
}
use banco.Prelude.{ℕ, ◌≤◌, ◌%◌, ◌^◌}
use banco.Offer.Funding.{Taproot}
use banco.Order.{Order}
use banco.Buffer.Rules.{IsFree}
use banco.Trade.Types.{Utxo}
use banco.Trade.Libs.{PsetLib, Wallet}
use banco.Trade.Sends.{WalletLaws}
use banco.Store.Sql.{Sql}
use banco.Store.Save.{update_order_status}
use banco.Watch.Act.{Net, continue, ◌>>=◌, ◌>>◌, on_store, on_env, ignored, forget}
use banco.Watch.Coins.{coins_are_more_than, worth, coins_are_more_than-enough}
use banco.Watch.Execute.{execute_trades}
use banco.Watch.Sends.{IsFor, execute_trades-EachOnce}
use banco.Watch.Order.{Clock, Explorer, mark_expired, fetch_unspents, fulfil_order, settle}
use banco.Watch.Order.{watch_for_trades}
use banco.Result.{Result, ok, err, panic}

module _ (tap : Taproot) (lib : PsetLib tap) (wallet : Wallet (lib.Prevout))
    (laws : WalletLaws wallet) (explorer : Explorer (lib.Prevout) (wallet.World))
    (format_time : ℕ → String) where
  open lib use {Prevout}
  open wallet use {World}

  -- What is broadcast between two states: nothing, or one transaction for each of the first of the
  -- coins that the block explorer answers, if these are enough together.
  abbrev pub OnlyFor : Order → Net World → Net World → Type 0
  OnlyFor order n n' =
      (laws.sent n'.env.world ≡ laws.sent n.env.world)
      ⊎ ((utxos : List (Utxo Prevout)) × (w : World) × (hexes : List String) × (explorer
              order.address n.env.world
            ≡ (ok utxos, w))
          × (order.input.amount ≤ worth utxos % 2 ^ 64)
          × (laws.sent n'.env.world ≡ laws.sent n.env.world ++ hexes)
          × IsFor tap lib wallet laws order utxos w hexes)

  -- The same of a run over coins that are known.
  abbrev OnlyWith : Order → List (Utxo Prevout) → Net World → Net World → Type 0
  OnlyWith order utxos n n' =
      (laws.sent n'.env.world ≡ laws.sent n.env.world)
      ⊎ ((hexes : List String) × (order.input.amount ≤ worth utxos % 2 ^ 64)
          × (laws.sent n'.env.world ≡ laws.sent n.env.world ++ hexes)
          × IsFor tap lib wallet laws order utxos n.env.world hexes)

  after_trades :
      {A : Type 0} (r : Result A) (m : Sql (Unit {0})) (n : Net World)
      → (continue r (λ u. ignored (on_store m)) n).1.env ≡ n.env
  after_trades (ok a) m n = refl
  after_trades (err x) m n = refl
  after_trades panic m n = refl

  -- The trades between the two updates of the status.
  around :
      (order : Order) (utxos : List (Utxo Prevout)) (m : Sql (Unit {0})) (r : Result (Unit {0}))
      (n : Net World)
      → coins_are_more_than utxos order.input.amount ≡ true
      → IsFree n.env.free
      → OnlyWith order utxos n
          (continue r
            (λ u. on_env (execute_trades tap lib wallet order utxos) >> ignored (on_store m))
            n).1
  around order utxos m (err x) n enough i = inl refl
  around order utxos m panic n enough i = inl refl
  around order utxos m (ok u) n enough i =
      let run = execute_trades tap lib wallet order utxos n.env in
      let (hexes, all, each, done) =
        execute_trades-EachOnce tap lib wallet laws order utxos n.env i in
      inr (
        hexes,
        coins_are_more_than-enough utxos order.input.amount enough,
        ap (λ e. laws.sent e.world) (after_trades run.0 m (record n { env = run.1 })) ∙ all,
        each,
      )

  settled_if :
      (b : Bool) (order : Order) (clock : Clock) (utxos : List (Utxo Prevout)) (n : Net World)
      → coins_are_more_than utxos order.input.amount ≡ b
      → IsFree n.env.free
      → OnlyWith order utxos n
          ((if b then fulfil_order tap lib wallet explorer format_time order clock utxos else λ m.
              (ok tt, m))
            n).1
  unfolding fulfil_order
  settled_if true order clock utxos n enough i =
      let m = update_order_status format_time order.id "Funded" clock.at_funding n.conn in
      around order utxos (update_order_status format_time order.id "Fulfilled" clock.at_fulfilment)
        (forget m.0) (record n { conn = m.1 }) enough i
  settled_if false order clock utxos n enough i = inl refl

  settled :
      (order : Order) (clock : Clock) (utxos : List (Utxo Prevout)) (n : Net World)
      → IsFree n.env.free
      → OnlyWith order utxos n (settle tap lib wallet explorer format_time order clock utxos n).1
  unfolding settle
  settled order clock utxos n i =
      settled_if (coins_are_more_than utxos order.input.amount) order clock utxos n refl i

  -- What a run does with the answer of the block explorer.
  found :
      (order : Order) (clock : Clock) (r : Result (List (Utxo Prevout))) (n n₁ : Net World)
      → explorer order.address n.env.world ≡ (r, n₁.env.world)
      → laws.sent n₁.env.world ≡ laws.sent n.env.world
      → IsFree n₁.env.free
      → OnlyFor order n (continue r (settle tap lib wallet explorer format_time order clock) n₁).1
  found order clock (ok utxos) n n₁ answer same i = elim (settled order clock utxos n₁ i) [
    | inl none_sent ↦ inl (none_sent ∙ same)
    | inr (hexes, enough, all, each) ↦
        inr (utxos, n₁.env.world, hexes, answer, enough, all ∙ ap (λ s. s ++ hexes) same, each)
  ]
  found order clock (err x) n n₁ answer same i = inl same
  found order clock panic n n₁ answer same i = inl same

  module _
      (quiet : (address : String) (w : World)
        → laws.sent (explorer address w).1 ≡ laws.sent w) where
    looked :
        (order : Order) (clock : Clock) (r : Result (Unit {0})) (n n₁ : Net World)
        → n₁.env ≡ n.env
        → IsFree n.env.free
        → OnlyFor order n
            (continue r
              (λ u.
                fetch_unspents tap lib wallet explorer format_time order.address
                >>= settle tap lib wallet explorer format_time order clock)
              n₁).1
    unfolding fetch_unspents
    looked order clock (err x) n n₁ same i = inl (ap (λ e. laws.sent e.world) same)
    looked order clock panic n n₁ same i = inl (ap (λ e. laws.sent e.world) same)
    looked order clock (ok u) n n₁ same i =
        let (r, w) = explorer order.address n₁.env.world in
        found order clock r n (record n₁ { env = record n₁.env { world = w } })
          (ap (λ e. explorer order.address e.world) (sym same))
          (quiet order.address n₁.env.world ∙ ap (λ e. laws.sent e.world) same)
          (subst (λ e. IsFree e.free) (sym same) i)

    kept_if :
        (b : Bool) (m : Sql (Unit {0})) (n : Net World)
        → ((if b then on_store m else λ k. (ok tt, k)) n).1.env ≡ n.env
    kept_if true m n = refl
    kept_if false m n = refl

    marked :
        (order : Order) (clock : Clock) (n : Net World)
        → (mark_expired tap lib wallet explorer format_time order clock n).1.env ≡ n.env
    unfolding mark_expired
    marked order clock n =
        kept_if _ (update_order_status format_time order.id "Expired" clock.at_expiry) n

    -- With a well-formed free list and a block explorer that broadcasts nothing, watchForTrades
    -- broadcasts nothing; or the block explorer answered coins at the order's address which together,
    -- counted on 64 bits, reach the amount of the order's input, and it broadcasts one transaction for
    -- each of the first of these coins, in their order. Each fulfils the whole order with its coin as
    -- the funding, by the run's own calls of the wallet service.
    pub watch_for_trades-OnlyFor :
        (order : Order) (clock : Clock) (n : Net World)
        → IsFree n.env.free
        → OnlyFor order n (watch_for_trades tap lib wallet explorer format_time order clock n).1
    unfolding watch_for_trades
    watch_for_trades-OnlyFor order clock n i =
        let run = mark_expired tap lib wallet explorer format_time order clock n in
        looked order clock run.0 n run.1 (marked order clock n) i
