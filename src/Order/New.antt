-- ===== src/Order/New.antt =====
-- NewOrder, OutputValue and InputValue of order.go.
use banco.Prelude.{ℕ, String, Bool, List, Option, ◌||◌, if◌then◌else◌, lookup}
use banco.Currency.{Asset, currency_to_asset, asset_of, currency_of}
use banco.Float.{Float64}
use banco.Hex.{decode_string}
use banco.Offer.Builder.{ScriptBuilder}
use banco.Offer.Scripts.{fulfill_script, refund_script}
use banco.Offer.Funding.{Network, Taproot, create_funding_output}
use banco.Order.{Order}
use banco.Result.{Result, ok, err, ◌>>=◌, or_error}
use banco.Result.{
  bad_hex, unknown_currency, bad_asset, bad_number, rate_out_of_range, address_failed,
}

-- What is asked for: the parameters of NewOrder in their order.
pub record Request (Float : Type 0) : Type 0 where
  pub trader_script_hex : String
  pub input_currency : String
  pub input_value : String
  pub output_currency : String
  pub output_value : String
  pub rate : Float
  pub net : Option Network

-- One side of the order: the asset, its bytes, the value and the amount in the asset's smallest unit.
pub record Side (Float : Type 0) : Type 0 where
  pub asset : Asset
  pub asset_bytes : List ℕ
  pub value : Float
  pub amount : ℕ

module _ (float : Float64) where
  open float use {Float}

  -- `uint64(value * math.Pow(10, float64(precision)))`
  unfoldable pub amount_of : Float → ℕ → ℕ
  amount_of value precision =
      float.to_uint64 (float.mul value (float.pow (float.literal 10 0) (float.of_uint64 precision)))

  -- elementsutil.AssetHashToBytes is a parameter.
  unfoldable pub side_of : (String → Option (List ℕ)) → String → String → Result (Side Float)
  side_of asset_hash_to_bytes currency text = do
    asset ← or_error (lookup currency currency_to_asset) unknown_currency
    asset_bytes ← or_error (asset_hash_to_bytes asset.asset_hash) bad_asset
    value ← or_error (float.parse text) bad_number
    ok (record {
      asset = asset;
      asset_bytes = asset_bytes;
      value = value;
      amount = amount_of value asset.precision;
    })

  -- The rate that the two values propose, and the slippage of 3% that is tolerated.
  unfoldable pub proposed_rate : Float → Float → Float
  proposed_rate input_value output_value =
      float.div (float.literal 1 0) (float.div output_value input_value)

  unfoldable pub is_out_of_range : Float → Float → Bool
  is_out_of_range rate proposed =
      let slippage = float.mul rate (float.literal 3 2) in
      float.less proposed (float.sub rate slippage) || float.less (float.add rate slippage) proposed

  unfoldable pub check_rate : Float → Float → Result (Unit {0})
  unfolding is_out_of_range
  check_rate rate proposed = if is_out_of_range rate proposed then err rate_out_of_range else ok tt

  -- The values of the sides of an order, as OutputValue and InputValue show them.
  unfoldable pub value_shown : String → ℕ → Float
  value_shown asset amount =
      float.div (float.of_uint64 amount) (float.pow10 (asset_of (currency_of asset)).precision)

  unfoldable pub output_value : Order → Float
  unfolding value_shown
  output_value o = value_shown o.output.asset o.output.amount

  unfoldable pub input_value : Order → Float
  unfolding value_shown
  input_value o = value_shown o.input.asset o.input.amount

  module _ (builder : ScriptBuilder) (tap : Taproot)
      (asset_hash_to_bytes : String → Option (List ℕ))
      (taproot_address : tap.Payment → Option String) where
    -- The part after the rate is checked, for the two sides.
    unfoldable pub contract_order :
        List ℕ → Side Float → Side Float → Option Network → String → ℕ → Result Order
    contract_order trader_script inp out net id now = do
      fulfill ← fulfill_script builder trader_script out.amount out.asset_bytes
      refund ← refund_script builder trader_script inp.amount inp.asset_bytes
      payment ← create_funding_output tap fulfill refund net
      address ← or_error (taproot_address payment) address_failed
      ok (record {
        id = id;
        timestamp = now;
        address = address;
        network = net;
        fulfill_script = fulfill;
        refund_script = refund;
        trader_script = trader_script;
        input = record { asset = inp.asset.asset_hash; amount = inp.amount };
        output = record { asset = out.asset.asset_hash; amount = out.amount };
      })

    -- `NewOrder`, with the identifier of uuid.New and the time of time.Now
    unfoldable pub new_order : Request Float → String → ℕ → Result Order
    new_order r id now = do
      trader_script ← or_error (decode_string r.trader_script_hex) bad_hex
      inp ← side_of asset_hash_to_bytes r.input_currency r.input_value
      out ← side_of asset_hash_to_bytes r.output_currency r.output_value
      u ← check_rate r.rate (proposed_rate inp.value out.value)
      contract_order trader_script inp out r.net id now
