-- ===== src/Trade/Outputs.antt =====
-- The outputs of a fulfil transaction.
use banco.Prelude.{ℕ, suc, ◌+◌, ◌%◌, ◌^◌, ◌<◌, ◌≤◌, ◌≡◌, refl, sym, ap, ◌∙◌, Bool, true, false}
use banco.Prelude.{String, List, [], ◌∷◌, ◌++◌, append-nil, append_assoc, All}
use banco.Prelude.{All-append_split, ltb, if◌then◌else◌, str_eq, ◌&&◌, arith}
use banco.Currency.{l_btc_hash}
use banco.Order.{Order}
use banco.Offer.Funding.{Taproot}
use banco.Trade.Types.{Utxo, Trade}
use banco.Trade.Libs.{PsetLib, OutputArgs}
use banco.Trade.Laws.{PsetLaws}
use banco.Trade.Prepare.{fee_amount, Supplies, swap_outputs, add_spend, add_spends, add_leaves}
use banco.Trade.Prepare.{add_trade_change, add_fee_change, add_fee}
use banco.Trade.Prepare.{prepare_fulfill_transaction}
use banco.Trade.Stages.{Stages, prepare-Stages}
use banco.Result.{ok, >>=_ok, or_error, or_error_ok}
use banco.Result.{ok-injective, leaf_refused}

-- A change becomes an output, unless there is none or it goes to the fee.
abbrev pub change_output : Bool → String → List ℕ → ℕ → List OutputArgs
change_output dust asset script change =
    if ltb 0 change
    then (if dust then [] else record { asset = asset; amount = change; script = script } ∷ [])
    else []

abbrev pub to_fee : Bool → ℕ → ℕ
to_fee dust change = if dust then change else 0

-- The change of the trade output that is too little for an output, and that of the fees.
abbrev pub is_trade_dust : Order → ℕ → Bool
is_trade_dust order change = str_eq order.output.asset l_btc_hash && ltb change fee_amount

abbrev pub is_fee_dust : ℕ → Bool
is_fee_dust change = ltb change fee_amount

module _ {Prevout : Type 0} (order : Order) (s : Supplies Prevout) where
  -- The fee: what is asked for, and the change that is too little for an output.
  unfoldable pub total_fee : ℕ
  total_fee =
      fee_amount
      + to_fee (is_trade_dust order s.trade_change) s.trade_change
      + to_fee (is_fee_dust s.fee_change) s.fee_change

  abbrev pub trade_change_output : List OutputArgs
  trade_change_output =
      change_output (is_trade_dust order s.trade_change) order.output.asset s.trade_change_script
        s.trade_change

  abbrev pub fee_change_output : List OutputArgs
  fee_change_output =
      change_output (is_fee_dust s.fee_change) l_btc_hash s.fee_change_script s.fee_change

  abbrev fee_output : List OutputArgs
  fee_output = record { asset = l_btc_hash; amount = total_fee; script = [] } ∷ []

  -- The outputs that a fulfil transaction is to have.
  unfoldable pub fulfil_outputs : List OutputArgs
  fulfil_outputs =
      swap_outputs order s.provider_script
      ++ (trade_change_output ++ (fee_change_output ++ fee_output))

regroup : (q a b c : List OutputArgs) → ((q ++ a) ++ b) ++ c ≡ q ++ (a ++ (b ++ c))
regroup q a b c = append_assoc (q ++ a) b c ∙ append_assoc q a (b ++ c)

pub trade_to_fee_small :
    (order : Order) (change : ℕ) → to_fee (is_trade_dust order change) change < fee_amount
trade_to_fee_small order change = ground arith

pub fee_to_fee_small : (change : ℕ) → to_fee (is_fee_dust change) change < fee_amount
fee_to_fee_small change = ground arith

module _ (tap : Taproot) (lib : PsetLib tap) (laws : PsetLaws tap lib) where
  open lib use {Pset, Prevout}
  open laws use {outputs, Accepted}

  outputs-add_spend :
      (i h : ℕ) (u : Utxo Prevout) (p : Pset) → outputs (add_spend tap lib i h u p) ≡ outputs p
  unfolding add_spend
  outputs-add_spend i h u p =
      laws.outputs-add_in_sighash_type i h _
      ∙ laws.outputs-add_in_witness_utxo i u.prevout _
      ∙ laws.outputs-add_input u.txid (u.index % 2 ^ 32) p

  outputs-add_spends :
      (i : ℕ) (us : List (Utxo Prevout)) (p : Pset)
      → outputs (add_spends tap lib i us p) ≡ outputs p
  unfolding add_spends
  outputs-add_spends i [] p = refl
  outputs-add_spends i (u ∷ us) p =
      outputs-add_spends (suc i) us (add_spend tap lib i lib.sig_hash_all u p)
      ∙ outputs-add_spend i lib.sig_hash_all u p

  outputs-add_leaf :
      (script : List ℕ) (c : tap.ControlBlock) (here : Bool) (p q : Pset)
      → (if here then or_error (lib.add_in_tap_leaf_script 0 script c p) leaf_refused else ok p)
        ≡ ok q
      → outputs q ≡ outputs p
  outputs-add_leaf script c true p q e =
      laws.outputs-add_in_tap_leaf_script 0 script c p q (or_error_ok _ leaf_refused e)
  outputs-add_leaf script c false p q e = ap outputs (sym (ok-injective e))

  outputs-add_leaves :
      (key : tap.Key) (script : List ℕ) (proofs : List tap.Proof) (p q : Pset)
      → add_leaves tap lib key script proofs p ≡ ok q
      → outputs q ≡ outputs p
  unfolding add_leaves
  outputs-add_leaves key script [] p q e = ap outputs (sym (ok-injective e))
  outputs-add_leaves key script (x ∷ xs) p q e =
      let (r, e₁, e₂) = >>=_ok _ (add_leaves tap lib key script xs) e in
      outputs-add_leaves key script xs r q e₂ ∙ outputs-add_leaf _ _ _ p r e₁

  -- How a change is settled: `left` is that there is one, `dust` that it goes to the fee.
  settled :
      (left dust : Bool) (asset : String) (script : List ℕ) (change fee : ℕ) (p : Pset)
      → (left ≡ false → change ≡ 0)
      → (dust ≡ true → fee + change < 2 ^ 64)
      → let o : List OutputArgs =
          if left
          then (if dust
              then []
              else record { asset = asset; amount = change; script = script } ∷ [])
          else [] in
        let r : ℕ × Pset =
          if left
          then (if dust then ((fee + change) % 2 ^ 64, p) else (
            fee,
            lib.add_outputs (record { asset = asset; amount = change; script = script } ∷ []) p,
          ))
          else (fee, p) in
        All Accepted o → (r.0 ≡ fee + to_fee dust change) × (outputs r.1 ≡ outputs p ++ o)
  settled true true asset script change fee p none_left fits h =
      let small : fee + change < 2 ^ 64 = fits refl in (omega arith, sym (append-nil (outputs p)))
  settled true false asset script change fee p none_left fits h =
      (omega arith, laws.outputs-add_outputs _ p h)
  settled false true asset script change fee p none_left fits h =
      let zero_change : change ≡ 0 = none_left refl in (omega arith, sym (append-nil (outputs p)))
  settled false false asset script change fee p none_left fits h =
      (omega arith, sym (append-nil (outputs p)))

  outputs-add_trade_change :
      (order : Order) (script : List ℕ) (change fee : ℕ) (p : Pset)
      → fee + fee_amount ≤ 2 ^ 64
      → All Accepted (change_output (is_trade_dust order change) order.output.asset script change)
      → let (fee', q) = add_trade_change tap lib order script change (fee, p) in
        (fee' ≡ fee + to_fee (is_trade_dust order change) change)
        × (outputs q
            ≡ outputs p
              ++ change_output (is_trade_dust order change) order.output.asset script change)
  unfolding add_trade_change
  outputs-add_trade_change order script change fee p small h =
      settled (ltb 0 change) (is_trade_dust order change) order.output.asset script change fee p
        (λ e. ground arith) (λ e. ground arith) h

  outputs-add_fee_change :
      (script : List ℕ) (change fee : ℕ) (p : Pset)
      → fee + fee_amount ≤ 2 ^ 64
      → All Accepted (change_output (is_fee_dust change) l_btc_hash script change)
      → let (fee', q) = add_fee_change tap lib script change (fee, p) in
        (fee' ≡ fee + to_fee (is_fee_dust change) change)
        × (outputs q ≡ outputs p ++ change_output (is_fee_dust change) l_btc_hash script change)
  unfolding add_fee_change
  outputs-add_fee_change script change fee p small h =
      settled (ltb 0 change) (is_fee_dust change) l_btc_hash script change fee p (λ e. ground arith)
        (λ e. ground arith) h

  fee_added :
      (r : ℕ × Pset) (fee : ℕ) (before : List OutputArgs)
      → r.0 ≡ fee
      → outputs r.1 ≡ before
      → All Accepted (record { asset = l_btc_hash; amount = fee; script = [] } ∷ [])
      → outputs (add_fee tap lib r)
        ≡ before ++ (record { asset = l_btc_hash; amount = fee; script = [] } ∷ [])
  unfolding add_fee
  fee_added (f, p) fee before e o h = rw (e, ← o) (laws.outputs-add_outputs _ p h)

  -- The outputs that are added to a transaction with none.
  outputs_added :
      (order : Order) (s : Supplies Prevout) (p : Pset)
      → outputs p ≡ []
      → All Accepted (fulfil_outputs order s)
      → let q = lib.add_outputs (swap_outputs order s.provider_script) p in
        let r =
          add_trade_change tap lib order s.trade_change_script s.trade_change (fee_amount, q) in
        outputs (add_fee tap lib (add_fee_change tap lib s.fee_change_script s.fee_change r))
        ≡ fulfil_outputs order s
  unfolding add_fee fulfil_outputs total_fee
  outputs_added order s p none_yet h =
      let swaps : List OutputArgs = swap_outputs order s.provider_script in
      let (h₁, h') = All-append_split Accepted swaps _ h in
      let (h₂, h'') = All-append_split Accepted (trade_change_output order s) _ h' in
      let (h₃, h₄) = All-append_split Accepted (fee_change_output order s) _ h'' in
      let q : Pset = lib.add_outputs swaps p in
      let (f₁, o₁) =
        outputs-add_trade_change order s.trade_change_script s.trade_change fee_amount q
          (omega arith) h₂ in
      let r : ℕ × Pset =
        add_trade_change tap lib order s.trade_change_script s.trade_change (fee_amount, q) in
      let (f₂, o₂) =
        outputs-add_fee_change s.fee_change_script s.fee_change r.0 r.1
          (omega (arith, f₁, trade_to_fee_small order s.trade_change)) h₃ in
      let before : outputs q ≡ swaps =
        laws.outputs-add_outputs swaps p h₁ ∙ ap (λ os. os ++ swaps) none_yet in
      fee_added (add_fee_change tap lib s.fee_change_script s.fee_change r) (total_fee order s) _
        (f₂ ∙ ap (λ f. f + to_fee (is_fee_dust s.fee_change) s.fee_change) f₁)
        (o₂ ∙ ap (λ os. os ++ fee_change_output order s) o₁) h₄
      ∙ regroup (outputs q) (trade_change_output order s) (fee_change_output order s) _
      ∙ ap
          (λ os.
            os
            ++ (trade_change_output order s ++ (fee_change_output order s ++ fee_output order s)))
          before

  -- From a funded trade the transaction that is prepared has these outputs, in this order: the order's
  -- output to the trader, the order's input to the provider, the change of each kind that there is and
  -- that does not go to the fee, and the fee. The library is to accept them, since the code does not
  -- look at its error.
  pub outputs-prepare :
      (t : Trade Prevout tap.Payment) (s : Supplies Prevout) (p : Pset)
      → prepare_fulfill_transaction tap lib t s ≡ ok p
      → All Accepted (fulfil_outputs t.order s)
      → outputs p ≡ fulfil_outputs t.order s
  outputs-prepare t s p e h =
      let st : Stages tap lib t s p = prepare-Stages tap lib t s p e in
      let start : outputs st.updater ≡ [] =
        laws.outputs-new_updater st.created st.updater st.updater_eq
        ∙ laws.outputs-new st.created st.created_eq in
      ap outputs st.final
      ∙ outputs_added t.order s _
          (outputs-add_spends _ s.for_fees _
            ∙ outputs-add_spends 1 s.for_trade st.with_leaf
            ∙ outputs-add_leaves st.key t.order.fulfill_script _ _ st.with_leaf st.leaves_eq
            ∙ outputs-add_spend 0 lib.sig_hash_default st.funding st.updater
            ∙ start)
          h
