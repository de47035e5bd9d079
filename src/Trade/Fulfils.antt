-- ===== src/Trade/Fulfils.antt =====
-- The calls that a run of ExecuteTrade makes up to the transaction that it broadcasts.
use banco.Prelude.{ℕ, ◌-◌, String, List, Option, [], ◌∷◌, ◌≡◌, ap, ◌∙◌, some, false, true, subst}
use banco.Currency.{l_btc_hash}
use banco.Order.{Order}
use banco.Offer.Funding.{Taproot}
use banco.Buffer.Deserializer.RoundTrip.{vector_bytes}
use banco.Trade.Types.{Trade}
use banco.Trade.Libs.{PsetLib, Wallet}
use banco.Trade.Prepare.{fee_amount, Supplies, prepare_fulfill_transaction}
use banco.Trade.Step.{Env, lift, call, bind_run, call_answer}
use banco.Trade.Witness.{IsLeaf, AllFinalized}
use banco.Trade.Execute.{gather, sign}
use banco.Result.{Result, ok, or_error, or_error_ok, ok-injective}
use banco.Result.{address_unavailable, selection_failed, signing_failed}
use banco.Result.{encode_failed, decode_failed}

module _ (tap : Taproot) (lib : PsetLib tap) (wallet : Wallet (lib.Prevout)) where
  open lib use {Pset, Tx, Prevout}
  open wallet use {World}

  -- What the wallet service answers between two states of the world: an address of its own, two for
  -- change, coins for the amount of the order's output in its asset, and coins for the fee in L-BTC.
  pub record Gathered (order : Order) (w : World) (s : Supplies Prevout) (w₅ : World) : Type 0 where
    pub own : String
    pub pay_change : String
    pub fees_change : String
    pub w₁ : World
    pub w₂ : World
    pub w₃ : World
    pub w₄ : World
    pub own_eq : wallet.get_address false w ≡ (some (own, s.provider_script), w₁)
    pub pay_change_eq : wallet.get_address true w₁ ≡ (some (pay_change, s.trade_change_script), w₂)
    pub fees_change_eq : wallet.get_address true w₂ ≡ (some (fees_change, s.fee_change_script), w₃)
    pub for_trade_eq :
        wallet.select_utxos order.output.asset order.output.amount w₃
        ≡ (some (s.for_trade, s.trade_change), w₄)
    pub for_fees_eq :
        wallet.select_utxos l_btc_hash fee_amount w₄ ≡ (some (s.for_fees, s.fee_change), w₅)

  -- The transaction `hex` is made of one that is signed: each input but the first is finalized, and
  -- the first has the fulfill script and the control block of its leaf as its witness.
  pub record Spent (t : Trade Prevout tap.Payment) (signed : Pset) (hex : String) : Type 0 where
    pub finalized : Pset
    pub all_finalized : AllFinalized tap lib (lib.input_count signed - 1) 1 signed finalized
    pub control : List ℕ
    pub leaf : IsLeaf tap t control
    pub complete : Pset
    pub complete_eq :
        lib.set_final_script_witness 0
          (vector_bytes (t.order.fulfill_script ∷ control ∷ []))
          finalized
        ≡ some complete
    pub final_tx : Tx
    pub final_tx_eq : lib.extract complete ≡ some final_tx
    pub hex_eq : lib.tx_hex final_tx ≡ some hex

  -- The transaction `hex` fulfils the trade, and the calls that made it lead from one state of the
  -- world to another. The transaction prepared for the coins that the wallet service selected is the
  -- one that the service is given to sign; what comes back is spent; its text is what is
  -- broadcast, with an answer.
  pub record Fulfils (t : Trade Prevout tap.Payment) (w : World) (hex : String)
      (answer : Option String) (w' : World) : Type 0 where
    pub supplies : Supplies Prevout
    pub selected : World
    pub gathered : Gathered t.order w supplies selected
    pub prepared : Pset
    pub prepared_eq : prepare_fulfill_transaction tap lib t supplies ≡ ok prepared
    pub text : String
    pub text_eq : lib.to_base64 prepared ≡ some text
    pub reply : String
    pub replied : World
    pub reply_eq : wallet.sign_pset text false selected ≡ (some reply, replied)
    pub signed : Pset
    pub signed_eq : lib.from_base64 reply ≡ some signed
    pub spent : Spent t signed hex
    pub sent_eq : wallet.broadcast_transaction hex replied ≡ (answer, w')

  Gathered-at :
      (order : Order) (w : World) (s₀ s : Supplies Prevout) (e₀ e : Env World)
      → Gathered order w s₀ e₀.world
      → ◌≡◌ {A = Result (Supplies Prevout) × Env World} (ok s₀, e₀) (ok s, e)
      → Gathered order w s e.world
  Gathered-at order w s₀ s e₀ e g h =
      subst (λ s. Gathered order w s e.world) (ok-injective (ap (λ r. r.0) h))
        (subst (λ w'. Gathered order w s₀ w') (ap (λ r. r.1.world) h) g)

  pub gather-Gathered :
      (order : Order) (e : Env World) (s : Supplies Prevout)
      → (gather tap lib wallet order e).0 ≡ ok s
      → Gathered order e.world s (gather tap lib wallet order e).1.world
  unfolding gather
  gather-Gathered order e s h =
      let own = call (wallet.get_address false) address_unavailable in
      let change = call (wallet.get_address true) address_unavailable in
      let coins =
        call (wallet.select_utxos order.output.asset order.output.amount) selection_failed in
      let fees = call (wallet.select_utxos l_btc_hash fee_amount) selection_failed in
      let whole = ap (λ r. (r, (gather tap lib wallet order e).1)) h in
      let (a, ia, ka) = bind_run own _ e whole in
      let e₁ : Env World = (own e).1 in
      let (b, ib, kb) = bind_run change _ e₁ ka in
      let e₂ : Env World = (change e₁).1 in
      let (c, ic, kc) = bind_run change _ e₂ kb in
      let e₃ : Env World = (change e₂).1 in
      let (d, id, kd) = bind_run coins _ e₃ kc in
      let e₄ : Env World = (coins e₃).1 in
      let (f, ig, kf) = bind_run fees _ e₄ kd in
      let got : Supplies Prevout = record {
        for_trade = d.0;
        for_fees = f.0;
        provider_script = a.1;
        trade_change_script = b.1;
        fee_change_script = c.1;
        trade_change = d.1;
        fee_change = f.1;
      } in
      Gathered-at order e.world got s (fees e₄).1 (gather tap lib wallet order e).1
        (record {
          own = a.0;
          pay_change = b.0;
          fees_change = c.0;
          w₁ = e₁.world;
          w₂ = e₂.world;
          w₃ = e₃.world;
          w₄ = e₄.world;
          own_eq = call_answer (wallet.get_address false) address_unavailable e ia;
          pay_change_eq = call_answer (wallet.get_address true) address_unavailable e₁ ib;
          fees_change_eq = call_answer (wallet.get_address true) address_unavailable e₂ ic;
          for_trade_eq =
              call_answer (wallet.select_utxos order.output.asset order.output.amount)
                selection_failed e₃ id;
          for_fees_eq =
              call_answer (wallet.select_utxos l_btc_hash fee_amount) selection_failed e₄ ig;
        })
        kf

  -- What the wallet service signed, and what came back.
  pub sign_answer :
      (p : Pset) (e : Env World) (signed : Pset)
      → (sign tap lib wallet p e).0 ≡ ok signed
      → (text : String) × (reply : String) × (lib.to_base64 p ≡ some text)
        × (wallet.sign_pset text false e.world ≡ (some reply, (sign tap lib wallet p e).1.world))
        × (lib.from_base64 reply ≡ some signed)
  unfolding sign
  sign_answer p e signed h =
      let encode = lift (or_error (lib.to_base64 p) encode_failed) in
      let whole = ap (λ r. (r, (sign tap lib wallet p e).1)) h in
      let (text, e₁, f₁) = bind_run encode _ e whole in
      let service = call (wallet.sign_pset text false) signing_failed in
      let (reply, e₂, f₂) = bind_run service _ e f₁ in
      (
        text,
        reply,
        or_error_ok _ encode_failed e₁,
        call_answer (wallet.sign_pset text false) signing_failed e e₂
            ∙ ap (λ r. (some reply, r.1.world)) f₂,
        or_error_ok _ decode_failed (ap (λ r. r.0) f₂),
      )
