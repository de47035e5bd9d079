-- ===== src/Trade/Broadcast.antt =====
-- The transaction that ExecuteTrade broadcasts.
use banco.Prelude.{Option, ℕ, ◌-◌, String, List, [], ◌∷◌, ◌≡◌, refl, sym, ap, ◌∙◌, inr, some, subst}
use banco.Offer.Funding.{Taproot}
use banco.Buffer.Rules.{IsFree}
use banco.Buffer.Deserializer.RoundTrip.{vector_bytes}
use banco.Trade.Types.{Trade}
use banco.Trade.Libs.{PsetLib, Wallet}
use banco.Trade.Prepare.{prepare_fulfill_transaction}
use banco.Trade.Step.{Env, Step, ◌>>=◌, lift}
use banco.Trade.Fulfils.{Fulfils, Spent, gather-Gathered, sign_answer}
use banco.Trade.Witness.{
  finalize_from, fulfil_leaf, fulfil_leaf-shape, IsLeaf, finalize_from-AllFinalized,
}
use banco.Trade.Execute.{prepared_or_error, serialize_witness, gather, sign, send}
use banco.Trade.Execute.{fulfil}
use banco.Trade.Sends.{WalletLaws, Sends, then-Sends, Quiet-lift}
use banco.Trade.Quiet.{Quiet-gather, Quiet-sign, Quiet-serialize, serialize_witness_at}
use banco.Result.{
  Result, ok, err, panic, or_error, or_error_ok, or_panic, or_panic_ok, ok-injective,
}
use banco.Result.{serialize_failed, extract_failed, broadcast_failed}

prepared_or_error_ok : {A : Type 0} (r : Result A) {a : A} → prepared_or_error r ≡ ok a → r ≡ ok a
prepared_or_error_ok (ok x) h = h
prepared_or_error_ok (err x) h = cc
prepared_or_error_ok panic h = cc

module _ (tap : Taproot) (lib : PsetLib tap) (wallet : Wallet (lib.Prevout)) where
  open lib use {Pset, Tx, Prevout}
  open wallet use {World}

  module _ (laws : WalletLaws wallet) where
    Sends-send :
        (P : String → World → Result String → Type 0) (p : Pset) (e : Env World)
        → ((tx : Tx) (hex : String)
            → lib.extract p ≡ some tx
            → lib.tx_hex tx ≡ some hex
            → let (answer, w) = wallet.broadcast_transaction hex e.world in
              P hex w (or_error answer broadcast_failed))
        → Sends laws.sent P (send tap lib wallet p) e
    unfolding send
    Sends-send P p e h =
        then-Sends laws.sent P (lift (or_error (lib.unsigned_tx p) serialize_failed)) _ e
          (Quiet-lift laws.sent _)
          (λ u iu.
            then-Sends laws.sent P (lift (or_error (lib.extract p) extract_failed)) _ e
              (Quiet-lift laws.sent _)
              (λ tx itx.
                then-Sends laws.sent P (lift (or_error (lib.tx_hex tx) serialize_failed)) _ e
                  (Quiet-lift laws.sent _)
                  (λ hex ihex. inr (record {
                    hex = hex;
                    one = laws.sent-broadcast_transaction hex e.world;
                    good =
                        h tx hex (or_error_ok _ extract_failed itx)
                          (or_error_ok _ serialize_failed ihex);
                  }))))

    serialize_world :
        (w : List (List ℕ)) (e : Env World) → (serialize_witness w e).1.world ≡ e.world
    unfolding serialize_witness
    serialize_world w e = refl

    serialized_bytes :
        (t : Trade Prevout tap.Payment) (w : List (List ℕ)) (bs : List ℕ) (e : Env World)
        → IsFree e.free
        → fulfil_leaf tap t ≡ ok w
        → (serialize_witness w e).0 ≡ ok bs
        → (control : List ℕ) × (bs ≡ vector_bytes (t.order.fulfill_script ∷ control ∷ []))
          × IsLeaf tap t control
    serialized_bytes t w bs e h iw ibs =
        let (control, shape, leaf) = fulfil_leaf-shape tap t w iw in
        let (free, i, q) = serialize_witness_at w e h in
        (control, ok-injective (sym ibs ∙ ap (λ r. r.0) q) ∙ ap vector_bytes shape, leaf)

    -- The part of `fulfil` after the signature.
    abbrev spend : Trade Prevout tap.Payment → Pset → Step World String
    spend t signed = do
      finalized ← lift (finalize_from tap lib (lib.input_count signed - 1) 1 signed)
      witness ← lift (fulfil_leaf tap t)
      witness_bytes ← serialize_witness witness
      complete ← lift (or_panic (lib.set_final_script_witness 0 witness_bytes finalized))
      send tap lib wallet complete

    Sends-spend :
        (t : Trade Prevout tap.Payment) (signed : Pset)
        (P : String → World → Result String → Type 0) (e : Env World)
        → IsFree e.free
        → ((hex : String)
            → Spent tap lib wallet t signed hex
            → let (answer, w) = wallet.broadcast_transaction hex e.world in
              P hex w (or_error answer broadcast_failed))
        → Sends laws.sent P (spend t signed) e
    Sends-spend t signed P e h good =
        let finalize = finalize_from tap lib (lib.input_count signed - 1) 1 signed in
        then-Sends laws.sent P (lift finalize) _ e (Quiet-lift laws.sent finalize)
          (λ finalized ifin.
            then-Sends laws.sent P (lift (fulfil_leaf tap t)) _ e
              (Quiet-lift laws.sent (fulfil_leaf tap t))
              (λ witness iw.
                then-Sends laws.sent P (serialize_witness witness) _ e
                  (Quiet-serialize tap lib wallet laws witness)
                  (λ bs ibs.
                    let e₁ : Env World = (serialize_witness witness e).1 in
                    let set = or_panic (lib.set_final_script_witness 0 bs finalized) in
                    let (control, shape, leaf) = serialized_bytes t witness bs e h iw ibs in
                    then-Sends laws.sent P (lift set) _ e₁ (Quiet-lift laws.sent set)
                      (λ complete ic. Sends-send P complete e₁ (λ tx hex itx ihex.
                        subst
                          (λ w.
                            let (answer, w') = wallet.broadcast_transaction hex w in
                            P hex w' (or_error answer broadcast_failed))
                          (sym (serialize_world witness e))
                          (good hex (record {
                            finalized = finalized;
                            all_finalized =
                                finalize_from-AllFinalized tap lib (lib.input_count signed - 1) 1
                                  signed finalized ifin;
                            control = control;
                            leaf = leaf;
                            complete = complete;
                            complete_eq =
                                ap (λ b. lib.set_final_script_witness 0 b finalized) (sym shape)
                                ∙ or_panic_ok _ ic;
                            final_tx = tx;
                            final_tx_eq = itx;
                            hex_eq = ihex;
                          })))))))

    -- The transaction fulfils the trade, and what the broadcast answers is the result.
    abbrev pub FulfilsAnd :
        Trade Prevout tap.Payment → World → String → World → Result String → Type 0
    FulfilsAnd t w hex w' r =
        (answer : Option String) × (r ≡ or_error answer broadcast_failed)
        × Fulfils tap lib wallet t w hex answer w'

    pub Sends-fulfil :
        (t : Trade Prevout tap.Payment) (e : Env World)
        → IsFree e.free
        → Sends laws.sent (FulfilsAnd t e.world) (fulfil tap lib wallet t) e
    unfolding fulfil
    Sends-fulfil t e h =
        let P = FulfilsAnd t e.world in
        then-Sends laws.sent P (gather tap lib wallet t.order) _ e
          (Quiet-gather tap lib wallet laws t.order)
          (λ supplies is.
            let e₁ : Env World = (gather tap lib wallet t.order e).1 in
            let prepare = prepare_fulfill_transaction tap lib t supplies in
            then-Sends laws.sent P (lift (prepared_or_error prepare)) _ e₁
              (Quiet-lift laws.sent (prepared_or_error prepare))
              (λ prepared ip.
                then-Sends laws.sent P (sign tap lib wallet prepared) _ e₁
                  (Quiet-sign tap lib wallet laws prepared)
                  (λ signed isd.
                    let e₂ : Env World = (sign tap lib wallet prepared e₁).1 in
                    let (text, reply, itext, answer, ireply) =
                      sign_answer tap lib wallet prepared e₁ signed isd in
                    Sends-spend t signed P e₂
                      ((Quiet-sign tap lib wallet laws prepared).free e₁
                        ((Quiet-gather tap lib wallet laws t.order).free e h))
                      (λ hex spent. (
                        (wallet.broadcast_transaction hex e₂.world).0,
                        refl,
                        record {
                          supplies = supplies;
                          selected = e₁.world;
                          gathered = gather-Gathered tap lib wallet t.order e supplies is;
                          prepared = prepared;
                          prepared_eq = prepared_or_error_ok prepare ip;
                          text = text;
                          text_eq = itext;
                          reply = reply;
                          replied = e₂.world;
                          reply_eq = answer;
                          signed = signed;
                          signed_eq = ireply;
                          spent = spent;
                          sent_eq = refl;
                        },
                      )))))
