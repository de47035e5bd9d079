-- ===== src/Trade/Frees.antt =====
-- A run of ExecuteTrade leaves a well-formed free list.
use banco.Prelude.{◌-◌}
use banco.Offer.Funding.{Taproot}
use banco.Buffer.Rules.{IsFree}
use banco.Trade.Types.{TradeStatus, pending, funded, executed, cancelled, Trade}
use banco.Trade.Libs.{PsetLib, Wallet}
use banco.Trade.Prepare.{prepare_fulfill_transaction}
use banco.Trade.Step.{Env, Step, continue, ◌>>=◌, lift}
use banco.Trade.Witness.{finalize_from, fulfil_leaf}
use banco.Trade.Execute.{prepared_or_error, serialize_witness, gather, sign, send, fulfil}
use banco.Trade.Execute.{execute_trade, execute_guarded}
use banco.Trade.Sends.{WalletLaws}
use banco.Trade.Quiet.{Quiet-gather, Quiet-sign, Quiet-serialize}
use banco.Result.{Result, ok, err, panic, or_error, or_panic}
use banco.Result.{serialize_failed, extract_failed}

module _ {World : Type 0} where
  -- The step keeps the free list well-formed.
  abbrev pub Frees : {A : Type 0} → Step World A → Type 0
  Frees m = (e : Env World) → IsFree e.free → IsFree (m e).1.free

  continue-Frees :
      {A B : Type 0} (r : Result A) (f : A → Step World B) (e : Env World)
      → ((a : A) → Frees (f a))
      → IsFree e.free
      → IsFree (continue r f e).1.free
  continue-Frees (ok a) f e h i = h a e i
  continue-Frees (err x) f e h i = i
  continue-Frees panic f e h i = i

  pub Frees-bind :
      {A B : Type 0} (m : Step World A) (f : A → Step World B)
      → Frees m
      → ((a : A) → Frees (f a))
      → Frees (m >>= f)
  Frees-bind m f q h e i = continue-Frees (m e).0 f (m e).1 h (q e i)

module _ (tap : Taproot) (lib : PsetLib tap) (wallet : Wallet (lib.Prevout))
    (laws : WalletLaws wallet) where
  open lib use {Pset, Prevout}
  open wallet use {World}

  Frees-send : (p : Pset) → Frees (send tap lib wallet p)
  unfolding send
  Frees-send p =
      Frees-bind (lift (or_error (lib.unsigned_tx p) serialize_failed)) _ (λ e i. i)
        (λ u.
          Frees-bind (lift (or_error (lib.extract p) extract_failed)) _ (λ e i. i)
            (λ tx.
              Frees-bind (lift (or_error (lib.tx_hex tx) serialize_failed)) _ (λ e i. i)
                (λ hex e i. i)))

  Frees-fulfil : (t : Trade Prevout tap.Payment) → Frees (fulfil tap lib wallet t)
  unfolding fulfil
  Frees-fulfil t =
      Frees-bind (gather tap lib wallet t.order) _ (Quiet-gather tap lib wallet laws t.order).free
        (λ supplies.
          Frees-bind (lift (prepared_or_error (prepare_fulfill_transaction tap lib t supplies))) _
            (λ e i. i)
            (λ prepared.
              Frees-bind (sign tap lib wallet prepared) _
                (Quiet-sign tap lib wallet laws prepared).free
                (λ signed.
                  Frees-bind (lift (finalize_from tap lib (lib.input_count signed - 1) 1 signed)) _
                    (λ e i. i)
                    (λ finalized.
                      Frees-bind (lift (fulfil_leaf tap t)) _ (λ e i. i)
                        (λ witness.
                          Frees-bind (serialize_witness witness) _
                            (Quiet-serialize tap lib wallet laws witness).free
                            (λ bs.
                              Frees-bind
                                (lift (or_panic (lib.set_final_script_witness 0 bs finalized))) _
                                (λ e i. i) (λ complete. Frees-send complete)))))))

  guarded-IsFree :
      (status : TradeStatus) (t : Trade Prevout tap.Payment) (e : Env World)
      → IsFree e.free
      → IsFree (execute_guarded tap lib wallet status t e).1.free
  guarded-IsFree pending t e i = i
  guarded-IsFree executed t e i = i
  guarded-IsFree cancelled t e i = i
  guarded-IsFree funded t e i = Frees-fulfil t e i

  pub execute_trade-IsFree :
      (t : Trade Prevout tap.Payment) (e : Env World)
      → IsFree e.free
      → IsFree (execute_trade tap lib wallet t e).1.free
  unfolding execute_trade
  execute_trade-IsFree t e i = guarded-IsFree t.status t e i
