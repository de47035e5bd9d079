-- ===== src/Watch/Frees.antt =====
-- The free list after watchForTrades.
use banco.Prelude.{ℕ, String, Bool, true, false, List, [], ◌∷◌, if◌then◌else◌}
use banco.Offer.Funding.{Taproot}
use banco.Order.{Order}
use banco.Buffer.Rules.{IsFree}
use banco.Trade.Types.{Utxo}
use banco.Trade.Libs.{PsetLib, Wallet}
use banco.Trade.Sends.{WalletLaws}
use banco.Store.Save.{update_order_status}
use banco.Watch.Act.{Net, Act, continue, ◌>>=◌, ◌>>◌, on_store, on_env, ignored}
use banco.Watch.Coins.{coins_are_more_than}
use banco.Watch.Execute.{execute_one, execute_trades}
use banco.Watch.Sends.{execute_one-One}
use banco.Trade.Step
use banco.Trade.Step.{Env}
use banco.Watch.Order.{Clock, Explorer, mark_expired, fetch_unspents, fulfil_order, settle}
use banco.Watch.Order.{watch_for_trades}
use banco.Result.{Result, ok, err, panic}

module _ {World : Type 0} where
  -- The action keeps the free list well-formed.
  abbrev Frees : {A : Type 0} → Act World A → Type 0
  Frees m = (n : Net World) → IsFree n.env.free → IsFree (m n).1.env.free

  then-Frees :
      {A B : Type 0} (r : Result A) (f : A → Act World B)
      → ((a : A) → Frees (f a))
      → Frees (continue r f)
  then-Frees (ok a) f h n i = h a n i
  then-Frees (err x) f h n i = i
  then-Frees panic f h n i = i

  Frees-bind :
      {A B : Type 0} (m : Act World A) (f : A → Act World B)
      → Frees m
      → ((a : A) → Frees (f a))
      → Frees (m >>= f)
  Frees-bind m f q h n i = then-Frees (m n).0 f h (m n).1 (q n i)

  Frees-if :
      {A : Type 0} (b : Bool) (m k : Act World A) → Frees m → Frees k → Frees (if b then m else k)
  Frees-if true m k q h = q
  Frees-if false m k q h = h

module _ (tap : Taproot) (lib : PsetLib tap) (wallet : Wallet (lib.Prevout))
    (laws : WalletLaws wallet) where
  open lib use {Prevout}
  open wallet use {World}

  free_after :
      {A B : Type 0} (r : Result A) (f : A → Env World → Result B × Env World) (e : Env World)
      → IsFree e.free
      → ((a : A) (e₁ : Env World) → IsFree e₁.free → IsFree (f a e₁).1.free)
      → IsFree (Step.continue r f e).1.free
  free_after (ok a) f e i h = h a e i
  free_after (err x) f e i h = i
  free_after panic f e i h = i

  execute_trades-IsFree :
      (order : Order) (unspents : List (Utxo Prevout)) (e : Env World)
      → IsFree e.free
      → IsFree (execute_trades tap lib wallet order unspents e).1.free
  unfolding execute_trades
  execute_trades-IsFree order [] e i = i
  execute_trades-IsFree order (unspent ∷ rest) e i =
      let run = execute_one tap lib wallet order unspent e in
      free_after run.0 _ run.1 (execute_one-One tap lib wallet laws order unspent e i).0 λ t e₁ i₁.
        let others = execute_trades tap lib wallet order rest e₁ in
        free_after others.0 _ others.1 (execute_trades-IsFree order rest e₁ i₁) λ ts e₂ i₂. i₂

module _ (tap : Taproot) (lib : PsetLib tap) (wallet : Wallet (lib.Prevout))
    (laws : WalletLaws wallet) (explorer : Explorer (lib.Prevout) (wallet.World))
    (format_time : ℕ → String) where
  open lib use {Prevout}

  Frees-fulfil_order :
      (order : Order) (clock : Clock) (utxos : List (Utxo Prevout))
      → Frees (fulfil_order tap lib wallet explorer format_time order clock utxos)
  unfolding fulfil_order
  Frees-fulfil_order order clock utxos =
      let trades = execute_trades tap lib wallet order utxos in
      let funded = update_order_status format_time order.id "Funded" clock.at_funding in
      let fulfilled = update_order_status format_time order.id "Fulfilled" clock.at_fulfilment in
      let after = ignored (on_store fulfilled) in
      Frees-bind (ignored (on_store funded)) (λ u. on_env trades >> after) (λ n i. i)
        λ u.
          Frees-bind (on_env trades) (λ ts. after)
            (λ n i. execute_trades-IsFree tap lib wallet laws order utxos n.env i) λ ts n i. i

  Frees-settle :
      (order : Order) (clock : Clock) (utxos : List (Utxo Prevout))
      → Frees (settle tap lib wallet explorer format_time order clock utxos)
  unfolding settle
  Frees-settle order clock utxos =
      Frees-if (coins_are_more_than utxos order.input.amount)
        (fulfil_order tap lib wallet explorer format_time order clock utxos) (λ n. (ok tt, n))
        (Frees-fulfil_order order clock utxos) λ n i. i

  Frees-mark_expired :
      (order : Order) (clock : Clock)
      → Frees (mark_expired tap lib wallet explorer format_time order clock)
  unfolding mark_expired
  Frees-mark_expired order clock =
      Frees-if _ (on_store (update_order_status format_time order.id "Expired" clock.at_expiry))
        (λ n. (ok tt, n)) (λ n i. i) λ n i. i

  pub watch_for_trades-IsFree :
      (order : Order) (clock : Clock) (n : Net wallet.World)
      → IsFree n.env.free
      → IsFree (watch_for_trades tap lib wallet explorer format_time order clock n).1.env.free
  unfolding watch_for_trades fetch_unspents
  watch_for_trades-IsFree order clock =
      let fetch = fetch_unspents tap lib wallet explorer format_time order.address in
      let rest = settle tap lib wallet explorer format_time order clock in
      Frees-bind (mark_expired tap lib wallet explorer format_time order clock)
        (λ u. fetch >>= rest) (Frees-mark_expired order clock)
        λ u. Frees-bind fetch rest (λ n i. i) λ utxos. Frees-settle order clock utxos
