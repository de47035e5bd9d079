-- ===== src/Trade/Execute.antt =====
-- ExecuteTrade of trade.go.
use banco.Prelude.{ℕ, ◌-◌, String, List, true, false}
use banco.Prelude.{if◌then◌else◌, str_eq}
use banco.Currency.{l_btc_hash}
use banco.Order.{Order}
use banco.Offer.Funding.{Taproot}
use banco.Buffer.Io as Io
use banco.Buffer.Serializer.{new_serializer, bytes, write_vector}
use banco.Trade.Types.{TradeStatus, pending, funded, executed, cancelled, Trade}
use banco.Trade.Libs.{PsetLib, Wallet}
use banco.Trade.Prepare.{fee_amount, Supplies, prepare_fulfill_transaction}
use banco.Trade.Witness.{finalize_from, fulfil_leaf}
use banco.Trade.Step.{Env, Step, ◌>>=◌, lift, call}
use banco.Result.{Result, ok, err, panic, or_error, or_panic}
use banco.Result.{trade_pending, trade_over, prepare_failed, encode_failed, decode_failed}
use banco.Result.{serialize_failed, extract_failed}
use banco.Result.{address_unavailable, selection_failed, signing_failed, broadcast_failed}

-- The error of PrepareFulfillTransaction is replaced.
abbrev pub prepared_or_error : {A : Type 0} → Result A → Result A
prepared_or_error (ok a) = ok a
prepared_or_error (err e) = err prepare_failed
prepared_or_error panic = panic

abbrev pub serialized : Io.Result (Unit {0}) → List ℕ → Result (List ℕ)
serialized (Io.ok u) bs = ok bs
serialized (Io.err Io.panic) bs = panic
serialized (Io.err e) bs = err serialize_failed

-- A witness through a new serializer over the package's free list.
unfoldable pub serialize_witness : {World : Type 0} → List (List ℕ) → Step World (List ℕ)
serialize_witness witness env =
    let (r, s) = write_vector witness (new_serializer env.free) in
    (serialized r (bytes s), record env { free = s.free })

module _ (tap : Taproot) (lib : PsetLib tap) (wallet : Wallet (lib.Prevout)) where
  open lib use {Pset, Prevout}
  open wallet use {World}

  -- The three addresses and the coins for the output and for the fee, in the order of the calls.
  unfoldable pub gather : Order → Step World (Supplies Prevout)
  gather order = do
    (a₁, provider_script) ← call (wallet.get_address false) address_unavailable
    (a₂, trade_change_script) ← call (wallet.get_address true) address_unavailable
    (a₃, fee_change_script) ← call (wallet.get_address true) address_unavailable
    (for_trade, trade_change) ←
        call (wallet.select_utxos order.output.asset order.output.amount) selection_failed
    (for_fees, fee_change) ← call (wallet.select_utxos l_btc_hash fee_amount) selection_failed
    lift (
        ok (record {
          for_trade = for_trade;
          for_fees = for_fees;
          provider_script = provider_script;
          trade_change_script = trade_change_script;
          fee_change_script = fee_change_script;
          trade_change = trade_change;
          fee_change = fee_change;
        }))

  -- The wallet service signs its inputs on the transaction's text.
  unfoldable pub sign : Pset → Step World Pset
  sign prepared = do
    text ← lift (or_error (lib.to_base64 prepared) encode_failed)
    signed ← call (wallet.sign_pset text false) signing_failed
    lift (or_error (lib.from_base64 signed) decode_failed)

  -- From the complete transaction to the identifier that the broadcast returns.
  unfoldable pub send : Pset → Step World String
  send p = do
    unsigned ← lift (or_error (lib.unsigned_tx p) serialize_failed)
    final_tx ← lift (or_error (lib.extract p) extract_failed)
    hex ← lift (or_error (lib.tx_hex final_tx) serialize_failed)
    call (wallet.broadcast_transaction hex) broadcast_failed

  -- The part under the guards, up to the broadcast.
  unfoldable pub fulfil : Trade Prevout tap.Payment → Step World String
  fulfil t = do
    supplies ← gather t.order
    prepared ← lift (prepared_or_error (prepare_fulfill_transaction tap lib t supplies))
    signed ← sign prepared
    finalized ← lift (finalize_from tap lib (lib.input_count signed - 1) 1 signed)
    witness ← lift (fulfil_leaf tap t)
    witness_bytes ← serialize_witness witness
    complete ← lift (or_panic (lib.set_final_script_witness 0 witness_bytes finalized))
    send complete

  -- A trade is executed when the broadcast gives an identifier.
  abbrev pub settled : Trade Prevout tap.Payment → Result String → Trade Prevout tap.Payment
  settled t (ok txid) = if str_eq txid "" then t else record t { status = executed }
  settled t (err e) = t
  settled t panic = t

  abbrev pub without_value : Result String → Result (Unit {0})
  without_value (ok txid) = ok tt
  without_value (err e) = err e
  without_value panic = panic

  abbrev pub execute_guarded :
      TradeStatus
      → Trade Prevout tap.Payment
      → Env World
      → (Result (Unit {0}) × Trade Prevout tap.Payment) × Env World
  execute_guarded pending t env = ((err trade_pending, t), env)
  execute_guarded executed t env = ((err trade_over, t), env)
  execute_guarded cancelled t env = ((err trade_over, t), env)
  execute_guarded funded t env =
      let (r, env') = fulfil t env in ((without_value r, settled t r), env')

  -- `ExecuteTrade`: its error, the trade after it, and the effects.
  unfoldable pub execute_trade :
      Trade Prevout tap.Payment
      → Env World
      → (Result (Unit {0}) × Trade Prevout tap.Payment) × Env World
  execute_trade t env = execute_guarded t.status t env
