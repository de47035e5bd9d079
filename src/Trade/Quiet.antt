-- ===== src/Trade/Quiet.antt =====
-- The parts of ExecuteTrade that broadcast nothing.
use banco.Prelude.{ℕ, String, List, [], ◌≡◌, refl, false}
use banco.Prelude.{Bool, true}
use banco.Currency.{l_btc_hash}
use banco.Order.{Order}
use banco.Offer.Funding.{Taproot}
use banco.Buffer.Rules.{IsFree}
use banco.Buffer.Serializer.{new_serializer, bytes}
use banco.Buffer.Deserializer.RoundTrip.{vector_bytes, write_vector-Writes}
use banco.Trade.Libs.{PsetLib, Wallet}
use banco.Trade.Prepare.{fee_amount}
use banco.Trade.Step.{Env, lift, call}
use banco.Trade.Execute.{serialize_witness, gather, sign}
use banco.Trade.Sends.{WalletLaws, Quiet, Quiet-lift, Quiet-call}
use banco.Trade.Sends.{Quiet-bind}
use banco.Result.{ok, or_error}
use banco.Result.{address_unavailable, selection_failed, signing_failed}
use banco.Result.{encode_failed, decode_failed}

pub serialize_witness_at :
    {World : Type 0} (w : List (List ℕ)) (e : Env World)
    → IsFree e.free
    → (free : List (List ℕ)) × IsFree free
      × (serialize_witness w e ≡ (ok (vector_bytes w), record e { free = free }))
unfolding serialize_witness new_serializer bytes
serialize_witness_at w e h =
    let (free, i, q) = (write_vector-Writes w).at e.free [] h in (free, i, rw q refl)

module _ (tap : Taproot) (lib : PsetLib tap) (wallet : Wallet (lib.Prevout)) where
  open lib use {Pset, Tx, Prevout}
  open wallet use {World}

  module _ (laws : WalletLaws wallet) where
    Quiet-address :
        (change : Bool) → Quiet laws.sent (call (wallet.get_address change) address_unavailable)
    Quiet-address change = Quiet-call laws.sent _ _ (laws.sent-get_address change)

    Quiet-select :
        (asset : String) (amount : ℕ)
        → Quiet laws.sent (call (wallet.select_utxos asset amount) selection_failed)
    Quiet-select asset amount = Quiet-call laws.sent _ _ (laws.sent-select_utxos asset amount)

    pub Quiet-gather : (order : Order) → Quiet laws.sent (gather tap lib wallet order)
    unfolding gather
    Quiet-gather order =
        Quiet-bind laws.sent (call (wallet.get_address false) address_unavailable) _
          (Quiet-address false)
          (λ a.
            Quiet-bind laws.sent (call (wallet.get_address true) address_unavailable) _
              (Quiet-address true)
              (λ b.
                Quiet-bind laws.sent (call (wallet.get_address true) address_unavailable) _
                  (Quiet-address true)
                  (λ c.
                    Quiet-bind laws.sent
                      (call (wallet.select_utxos order.output.asset order.output.amount)
                        selection_failed)
                      _ (Quiet-select order.output.asset order.output.amount)
                      (λ d.
                        Quiet-bind laws.sent
                          (call (wallet.select_utxos l_btc_hash fee_amount) selection_failed) _
                          (Quiet-select l_btc_hash fee_amount)
                          (λ f. Quiet-lift laws.sent (ok _))))))

    pub Quiet-sign : (p : Pset) → Quiet laws.sent (sign tap lib wallet p)
    unfolding sign
    Quiet-sign p =
        Quiet-bind laws.sent (lift (or_error (lib.to_base64 p) encode_failed)) _
          (Quiet-lift laws.sent (or_error (lib.to_base64 p) encode_failed))
          (λ text.
            Quiet-bind laws.sent (call (wallet.sign_pset text false) signing_failed) _
              (Quiet-call laws.sent (wallet.sign_pset text false) signing_failed
                (laws.sent-sign_pset text false))
              (λ reply. Quiet-lift laws.sent (or_error (lib.from_base64 reply) decode_failed)))

    serialize_same :
        (w : List (List ℕ)) (e : Env World)
        → laws.sent (serialize_witness w e).1.world ≡ laws.sent e.world
    unfolding serialize_witness
    serialize_same w e = refl

    pub Quiet-serialize : (w : List (List ℕ)) → Quiet laws.sent (serialize_witness w)
    Quiet-serialize w = record {
      same = λ e. serialize_same w e;
      free = λ e h. let (free, i, q) = serialize_witness_at w e h in rw q i;
    }
