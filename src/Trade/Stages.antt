-- ===== src/Trade/Stages.antt =====
-- The intermediate values of a PrepareFulfillTransaction that succeeds.
use banco.Prelude.{◌+◌, ◌≡◌, refl, sym, Option, none, some, inl, inr, false, length}
use banco.Prelude.{Bool-cases}
use banco.Offer.Funding.{Taproot}
use banco.Trade.Types.{Utxo, Trade, is_below_funded}
use banco.Trade.Libs.{PsetLib}
use banco.Trade.Prepare.{fee_amount, Supplies, swap_outputs, add_spend, add_spends, add_leaves}
use banco.Trade.Prepare.{add_trade_change, add_fee_change, add_fee, prepare_funded, prepare_from}
use banco.Trade.Prepare.{prepare_fulfill_transaction}
use banco.Result.{ok, >>=_ok, or_error, or_error_ok, or_panic_ok, ok-injective}
use banco.Result.{pset_failed, key_refused}

module _ (tap : Taproot) (lib : PsetLib tap) where
  open lib use {Pset, Prevout}

  -- The transaction with all its inputs, from the one with the leaves of the first.
  abbrev pub all_spent : Supplies Prevout → Pset → Pset
  all_spent s with_leaf =
      add_spends tap lib (1 + length s.for_trade) s.for_fees
        (add_spends tap lib 1 s.for_trade with_leaf)

  pub record Stages (t : Trade Prevout tap.Payment) (s : Supplies Prevout) (p : Pset) : Type 0 where
    pub funding : Utxo Prevout
    pub funding_eq : t.funding_unspent ≡ some funding
    pub above : is_below_funded t.status ≡ false
    pub created : Pset
    pub created_eq : lib.new ≡ some created
    pub updater : Pset
    pub updater_eq : lib.new_updater created ≡ some updater
    pub payment : tap.Payment
    pub payment_eq : t.funding_payment ≡ some payment
    pub key : tap.Key
    pub with_leaf : Pset
    pub leaves_eq :
        add_leaves tap lib key t.order.fulfill_script
          (tap.leaf_proofs payment)
          (add_spend tap lib 0 lib.sig_hash_default funding updater)
        ≡ ok with_leaf
    pub final :
        p
        ≡ add_fee tap lib (
            add_fee_change tap lib s.fee_change_script s.fee_change (
              add_trade_change tap lib t.order s.trade_change_script s.trade_change (
                fee_amount,
                lib.add_outputs (swap_outputs t.order s.provider_script) (all_spent s with_leaf),
              )))

  prepare_funded-Stages :
      (t : Trade Prevout tap.Payment) (s : Supplies Prevout) (funding : Utxo Prevout) (p : Pset)
      → t.funding_unspent ≡ some funding
      → is_below_funded t.status ≡ false
      → prepare_funded tap lib t s funding ≡ ok p
      → Stages t s p
  unfolding prepare_funded
  prepare_funded-Stages t s funding p known above e =
      let (created, e₁, f₁) = >>=_ok (or_error lib.new pset_failed) _ e in
      let (updater, e₂, f₂) = >>=_ok (or_error (lib.new_updater created) pset_failed) _ f₁ in
      let (payment, e₃, f₃) = >>=_ok _ _ f₂ in
      let (key, e₄, f₄) = >>=_ok (or_error (tap.parse_pub_key _) key_refused) _ f₃ in
      let (with_leaf, e₅, f₅) = >>=_ok _ _ f₄ in
      record {
        funding = funding;
        funding_eq = known;
        above = above;
        created = created;
        created_eq = or_error_ok _ pset_failed e₁;
        updater = updater;
        updater_eq = or_error_ok _ pset_failed e₂;
        payment = payment;
        payment_eq = or_panic_ok _ e₃;
        key = key;
        with_leaf = with_leaf;
        leaves_eq = e₅;
        final = sym (ok-injective f₅);
      }

  prepare_from-Stages :
      (u : Option (Utxo Prevout)) (t : Trade Prevout tap.Payment) (s : Supplies Prevout) (p : Pset)
      → t.funding_unspent ≡ u
      → prepare_from tap lib u t s ≡ ok p
      → Stages t s p
  unfolding prepare_from
  prepare_from-Stages none t s p known e = absurd (cc e)
  prepare_from-Stages (some funding) t s p known e = elim (Bool-cases (is_below_funded t.status)) [
    | inl below ↦ absurd (cc (rw below at e))
    | inr above ↦ prepare_funded-Stages t s funding p known above (rw above at e)
  ]

  pub prepare-Stages :
      (t : Trade Prevout tap.Payment) (s : Supplies Prevout) (p : Pset)
      → prepare_fulfill_transaction tap lib t s ≡ ok p
      → Stages t s p
  unfolding prepare_fulfill_transaction
  prepare-Stages t s p e = prepare_from-Stages t.funding_unspent t s p refl e
