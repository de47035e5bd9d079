-- ===== src/Trade/Prepare.antt =====
-- PrepareFulfillTransaction of trade.go.
use banco.Prelude.{ℕ, suc, ◌+◌, ◌%◌, ◌^◌, ◌&&◌, List, [], ◌∷◌, Option, none, some}
use banco.Prelude.{ltb, if◌then◌else◌, str_eq, bytes_eq, length}
use banco.Currency.{l_btc_hash}
use banco.Order.{Order}
use banco.Offer.Funding.{Taproot}
use banco.Trade.Types.{Utxo, Trade, is_below_funded}
use banco.Trade.Libs.{PsetLib, OutputArgs}
use banco.Result.{Result, ok, err, ◌>>=◌, or_error, or_panic}
use banco.Result.{not_funded, pset_failed, key_refused, leaf_refused}

abbrev pub fee_amount : ℕ
fee_amount = 500

-- The parameters of PrepareFulfillTransaction: what the provider supplies, and where its change and
-- the trade's input go.
pub record Supplies (Prevout : Type 0) : Type 0 where
  pub for_trade : List (Utxo Prevout)
  pub for_fees : List (Utxo Prevout)
  pub provider_script : List ℕ
  pub trade_change_script : List ℕ
  pub fee_change_script : List ℕ
  pub trade_change : ℕ
  pub fee_change : ℕ

-- What the trader and the provider receive.
abbrev pub swap_outputs : Order → List ℕ → List OutputArgs
swap_outputs order provider_script =
    record {
      asset = order.output.asset;
      amount = order.output.amount;
      script = order.trader_script;
    }
    ∷ record { asset = order.input.asset; amount = order.input.amount; script = provider_script }
    ∷ []

module _ (tap : Taproot) (lib : PsetLib tap) where
  open lib use {Pset, Prevout}

  -- One input: the outpoint, with the index as a uint32, the previous output, the sighash type.
  unfoldable pub add_spend : ℕ → ℕ → Utxo Prevout → Pset → Pset
  add_spend input_index sighash unspent p = lib.add_in_sighash_type input_index sighash (
      lib.add_in_witness_utxo input_index unspent.prevout
        (lib.add_input unspent.txid (unspent.index % 2 ^ 32) p))

  -- The loops over the trading and the fee inputs, from an input index on.
  unfoldable pub add_spends : ℕ → List (Utxo Prevout) → Pset → Pset
  unfolding add_spend
  add_spends input_index [] p = p
  add_spends input_index (unspent ∷ rest) p =
      add_spends (suc input_index) rest (add_spend input_index lib.sig_hash_all unspent p)

  -- The loop over the leaf proofs: each leaf with the fulfill script is added to the first input.
  unfoldable pub add_leaves : tap.Key → List ℕ → List tap.Proof → Pset → Result Pset
  add_leaves key fulfill_script [] p = ok p
  add_leaves key fulfill_script (proof ∷ rest) p =
      let script = tap.proof_script proof in
      (if bytes_eq script fulfill_script
        then or_error (lib.add_in_tap_leaf_script 0 script (tap.to_control_block proof key) p)
            leaf_refused
        else ok p)
      >>= add_leaves key fulfill_script rest

  -- The change of the trade output: too little of L-BTC for an output of its own goes to the fee.
  unfoldable pub add_trade_change : Order → List ℕ → ℕ → ℕ × Pset → ℕ × Pset
  add_trade_change order script change (fee, p) =
      if ltb 0 change
      then (if str_eq order.output.asset l_btc_hash && ltb change fee_amount
          then ((fee + change) % 2 ^ 64, p)
          else (
            fee,
            lib.add_outputs
                (record { asset = order.output.asset; amount = change; script = script } ∷ []) p,
          ))
      else (fee, p)

  -- The change of the fees, likewise.
  unfoldable pub add_fee_change : List ℕ → ℕ → ℕ × Pset → ℕ × Pset
  add_fee_change script change (fee, p) =
      if ltb 0 change
      then (if ltb change fee_amount then ((fee + change) % 2 ^ 64, p) else (
        fee,
        lib.add_outputs (record { asset = l_btc_hash; amount = change; script = script } ∷ []) p,
      ))
      else (fee, p)

  unfoldable pub add_fee : ℕ × Pset → Pset
  add_fee (fee, p) =
      lib.add_outputs (record { asset = l_btc_hash; amount = fee; script = [] } ∷ []) p

  -- The part under the guard, for the funding output that is spent.
  unfoldable pub prepare_funded :
      Trade Prevout tap.Payment → Supplies Prevout → Utxo Prevout → Result Pset
  prepare_funded t s funding = do
    created ← or_error lib.new pset_failed
    updater ← or_error (lib.new_updater created) pset_failed
    let spent = add_spend 0 lib.sig_hash_default funding updater
    payment ← or_panic t.funding_payment
    key ← or_error (tap.parse_pub_key (0x02 ∷ tap.x_only_internal_key payment)) key_refused
    with_leaf ← add_leaves key t.order.fulfill_script (tap.leaf_proofs payment) spent
    let with_trade = add_spends 1 s.for_trade with_leaf
    let with_fees = add_spends (1 + length s.for_trade) s.for_fees with_trade
    let swapped = lib.add_outputs (swap_outputs t.order s.provider_script) with_fees
    let changed =
        add_trade_change t.order s.trade_change_script s.trade_change (fee_amount, swapped)
    ok (add_fee (add_fee_change s.fee_change_script s.fee_change changed))

  unfoldable pub prepare_from :
      Option (Utxo Prevout) → Trade Prevout tap.Payment → Supplies Prevout → Result Pset
  prepare_from none t s = err not_funded
  prepare_from (some funding) t s =
      if is_below_funded t.status then err not_funded else prepare_funded t s funding

  -- `PrepareFulfillTransaction`
  unfoldable pub prepare_fulfill_transaction :
      Trade Prevout tap.Payment → Supplies Prevout → Result Pset
  unfolding prepare_from
  prepare_fulfill_transaction t s = prepare_from t.funding_unspent t s
