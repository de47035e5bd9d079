-- ===== src/Order/Placed.antt =====
-- What an order is that NewOrder returns.
use banco.Prelude.{ℕ, String, false, List, Option, some, ◌≡◌, refl, subst}
use banco.Prelude.{inl, inr, Bool-cases, lookup}
use banco.Currency.{currency_to_asset}
use banco.Float.{Float64}
use banco.Hex.{decode_string}
use banco.Offer.Builder.{ScriptBuilder}
use banco.Offer.Scripts.{fulfill_script, refund_script}
use banco.Offer.Funding.{Taproot, create_funding_output}
use banco.Order.{Order}
use banco.Order.New.{Request, Side, amount_of, side_of, proposed_rate, is_out_of_range, check_rate}
use banco.Order.New.{contract_order, new_order}
use banco.Result.{ok, >>=_ok, or_error, or_error_ok, ok-injective}
use banco.Result.{bad_hex, unknown_currency, bad_asset, bad_number, address_failed}

module _ (float : Float64) (asset_hash_to_bytes : String → Option (List ℕ)) where
  open float use {Float}

  -- The side is read from a currency that is listed and a text that is a number.
  pub record IsSide (currency text : String) (s : Side Float) : Type 0 where
    pub listed : lookup currency currency_to_asset ≡ some s.asset
    pub bytes_eq : asset_hash_to_bytes s.asset.asset_hash ≡ some s.asset_bytes
    pub parsed : float.parse text ≡ some s.value
    pub amount_eq : s.amount ≡ amount_of float s.value s.asset.precision

  side_of-IsSide :
      (currency text : String) (s : Side Float)
      → side_of float asset_hash_to_bytes currency text ≡ ok s
      → IsSide currency text s
  unfolding side_of
  side_of-IsSide currency text s e =
      let (asset, e₁, f₁) =
        >>=_ok (or_error (lookup currency currency_to_asset) unknown_currency) _ e in
      let (bs, e₂, f₂) = >>=_ok (or_error (asset_hash_to_bytes asset.asset_hash) bad_asset) _ f₁ in
      let (value, e₃, f₃) = >>=_ok (or_error (float.parse text) bad_number) _ f₂ in
      subst (IsSide currency text) (ok-injective f₃) (record {
        listed = or_error_ok _ unknown_currency e₁;
        bytes_eq = or_error_ok _ bad_asset e₂;
        parsed = or_error_ok _ bad_number e₃;
        amount_eq = refl;
      })

  module _ (builder : ScriptBuilder) (tap : Taproot)
      (taproot_address : tap.Payment → Option String) where
    -- The order is for the two sides of the request, at a rate that is tolerated, and its address is
    -- the one of the contract with its two scripts.
    pub record IsPlaced (r : Request Float) (o : Order) : Type 0 where
      pub inp : Side Float
      pub out : Side Float
      pub inp_side : IsSide r.input_currency r.input_value inp
      pub out_side : IsSide r.output_currency r.output_value out
      pub trader : decode_string r.trader_script_hex ≡ some o.trader_script
      pub tolerated : is_out_of_range float r.rate (proposed_rate float inp.value out.value) ≡ false
      pub input_asset : o.input.asset ≡ inp.asset.asset_hash
      pub input_amount : o.input.amount ≡ inp.amount
      pub output_asset : o.output.asset ≡ out.asset.asset_hash
      pub output_amount : o.output.amount ≡ out.amount
      pub network_eq : o.network ≡ r.net
      pub fulfill :
          fulfill_script builder o.trader_script o.output.amount out.asset_bytes
          ≡ ok o.fulfill_script
      pub refund :
          refund_script builder o.trader_script o.input.amount inp.asset_bytes ≡ ok o.refund_script
      pub payment : tap.Payment
      pub funding : create_funding_output tap o.fulfill_script o.refund_script r.net ≡ ok payment
      pub address_eq : taproot_address payment ≡ some o.address

    check_rate_ok :
        (rate proposed : Float) (u : Unit {0})
        → check_rate float rate proposed ≡ ok u
        → is_out_of_range float rate proposed ≡ false
    unfolding check_rate
    check_rate_ok rate proposed u e = elim (Bool-cases (is_out_of_range float rate proposed)) [
      | inl out ↦ absurd (cc (rw out at e))
      | inr fine ↦ fine
    ]

    -- An order that NewOrder returns has the identifier and the time that were drawn, and is placed as
    -- was asked: the currencies are listed, the amounts are those of the texts at the assets'
    -- precision, the rate is in the range around the market's, the scripts are the contract's for the
    -- trader's script and these amounts, and the address is the funding output's.
    pub new_order-IsPlaced :
        (r : Request Float) (id : String) (now : ℕ) (o : Order)
        → new_order float builder tap asset_hash_to_bytes taproot_address r id now ≡ ok o
        → IsPlaced r o × (o.id ≡ id) × (o.timestamp ≡ now)
    unfolding new_order contract_order
    new_order-IsPlaced r id now o e =
        let (trader, e₁, f₁) = >>=_ok (or_error (decode_string r.trader_script_hex) bad_hex) _ e in
        let (inp, e₂, f₂) =
          >>=_ok (side_of float asset_hash_to_bytes r.input_currency r.input_value) _ f₁ in
        let (out, e₃, f₃) =
          >>=_ok (side_of float asset_hash_to_bytes r.output_currency r.output_value) _ f₂ in
        let (u, e₄, f₄) =
          >>=_ok (check_rate float r.rate (proposed_rate float inp.value out.value)) _ f₃ in
        let (fulfill, e₅, f₅) =
          >>=_ok (fulfill_script builder trader out.amount out.asset_bytes) _ f₄ in
        let (refund, e₆, f₆) =
          >>=_ok (refund_script builder trader inp.amount inp.asset_bytes) _ f₅ in
        let (payment, e₇, f₇) = >>=_ok (create_funding_output tap fulfill refund r.net) _ f₆ in
        let (address, e₈, f₈) = >>=_ok (or_error (taproot_address payment) address_failed) _ f₇ in
        subst (λ x. IsPlaced r x × (x.id ≡ id) × (x.timestamp ≡ now)) (ok-injective f₈)
          (
            record {
              inp = inp;
              out = out;
              inp_side = side_of-IsSide r.input_currency r.input_value inp e₂;
              out_side = side_of-IsSide r.output_currency r.output_value out e₃;
              trader = or_error_ok _ bad_hex e₁;
              tolerated = check_rate_ok r.rate (proposed_rate float inp.value out.value) u e₄;
              input_asset = refl;
              input_amount = refl;
              output_asset = refl;
              output_amount = refl;
              network_eq = refl;
              fulfill = e₅;
              refund = e₆;
              payment = payment;
              funding = e₇;
              address_eq = or_error_ok _ address_failed e₈;
            },
            refl,
            refl,
          )
