-- ===== src/Order/Tests.antt =====
-- An order over whole numbers for floats, and the builder and the library of Offer/Model and
-- Trade/Model.
use banco.Prelude.{ℕ, Option, ◌≡◌, refl, ◌↔◌, replicate, String, List, [], ◌∷◌, some}
use banco.Float.Model.{scaled}
use banco.Offer.Funding.{testnet, create_funding_output}
use banco.Offer.Model.{simple_builder, simple_engine}
use banco.Trade.Model.{simple_taproot, coin}
use banco.Order.{Order}
use banco.Order.New.{
  Request, new_order, side_of, amount_of, proposed_rate, check_rate, contract_order, input_value,
  output_value,
}
use banco.Order.Placed.{IsPlaced, new_order-IsPlaced}
use banco.Order.Contract.{PaysTrader, new_order-covenant, from_funded_order-new_order}
use banco.Trade.Types.{Trade, funded, from_funded_order}
use banco.Currency.{currency_to_asset, asset_to_currency, asset_of, currency_of}
use banco.Hex.{decode_string, decode_codes}
use banco.Offer.Engine.{Output, true_bytes}
use banco.Offer.Scripts.{
  fulfill_script, refund_script, compile_fulfill_clause, compile_refund_clause,
}
use banco.ScriptNum.{script_num_bytes, le_loop, sign_last}
use banco.Buffer.ByteOrder.{le_encode}
use banco.Result.{ok, err, rate_out_of_range}

-- Two L-BTC for 40000 USDT, at a price of 20000.
abbrev request : Request ℕ
request = record {
  trader_script_hex = "5102aabb";
  input_currency = "USDT";
  input_value = "40000";
  output_currency = "L-BTC";
  output_value = "2";
  rate = 2_000_000_000_000;
  net = some testnet;
}

abbrev hash_bytes : String → Option (List ℕ)
hash_bytes text = some (1 ∷ 0x14 ∷ 0x4c ∷ [])

abbrev address_of : List (List ℕ) → Option String
address_of payment = some "address"

abbrev an_order : Order
an_order = record {
  id = "1";
  timestamp = 5;
  address = "address";
  network = some testnet;
  fulfill_script =
      3 ∷ 418 ∷ 515 ∷ 272 ∷ 227157 ∷ 272 ∷ 3 ∷ 412 ∷ 234 ∷ 170025 ∷ 272 ∷ 3 ∷ 414 ∷ 234
      ∷ 36893488147819103233 ∷ 270 ∷ [];
  refund_script =
      3 ∷ 418 ∷ 515 ∷ 272 ∷ 227157 ∷ 272 ∷ 3 ∷ 412 ∷ 234 ∷ 170025 ∷ 272 ∷ 3 ∷ 414 ∷ 234
      ∷ 36893496147419103233 ∷ 270 ∷ [];
  trader_script = 0x51 ∷ 0x02 ∷ 0xaa ∷ 0xbb ∷ [];
  input = record {
    asset = "f3d1ec678811398cd2ae277cbe3849c6f6dbd72c74bc542f7c4b11ff0e820958";
    amount = 4_000_000_000_000;
  };
  output = record {
    asset = "144c654344aa716d6f3abcc1ca90e5641e4e2a7f633bc09fe3baf64585819a49";
    amount = 200_000_000;
  };
}

placed :
    new_order scaled simple_builder simple_taproot hash_bytes address_of request "1" 5 ≡ ok an_order
unfolding new_order side_of amount_of proposed_rate check_rate contract_order currency_to_asset
    decode_string decode_codes fulfill_script refund_script compile_fulfill_clause
    compile_refund_clause script_num_bytes le_loop sign_last le_encode create_funding_output
placed = refl

-- The same at a market rate that is 4% higher is refused.
refused :
    new_order scaled simple_builder simple_taproot hash_bytes address_of
      (record request { rate = 2_080_000_000_000 })
      "1"
      5
    ≡ err rate_out_of_range
unfolding new_order side_of amount_of proposed_rate check_rate currency_to_asset decode_string
    decode_codes
refused = refl

-- The order shows the values that were asked for.
shown :
    (input_value scaled an_order ≡ 4_000_000_000_000) × (output_value scaled an_order ≡ 200_000_000)
unfolding input_value output_value asset_of currency_of currency_to_asset asset_to_currency
shown = (refl, refl)

order_as_asked :
    IsPlaced scaled hash_bytes simple_builder simple_taproot address_of request an_order
    × (an_order.id ≡ "1")
    × (an_order.timestamp ≡ 5)
order_as_asked =
    new_order-IsPlaced scaled hash_bytes simple_builder simple_taproot address_of request "1" 5
      an_order placed

abbrev paying : Output
paying = record {
  version = 0x01 ∷ [];
  program = 0xaa ∷ 0xbb ∷ [];
  asset_prefix = 0x01 ∷ [];
  asset = 0x14 ∷ 0x4c ∷ [];
  value_prefix = 0x01 ∷ [];
  value = 0 ∷ 0xc2 ∷ 0xeb ∷ 0x0b ∷ replicate 4 0;
}

new_order-covenant_example :
    (output_bytes : List ℕ) × (input_bytes : List ℕ) × (hash_bytes an_order.output.asset
      ≡ some output_bytes)
    × (hash_bytes an_order.input.asset ≡ some input_bytes)
    × ((simple_engine.run (paying ∷ []) an_order.fulfill_script [] ≡ some (true_bytes ∷ []))
        ↔ PaysTrader an_order output_bytes 200_000_000 paying)
    × ((simple_engine.run (paying ∷ []) an_order.refund_script [] ≡ some (true_bytes ∷ []))
        ↔ PaysTrader an_order input_bytes 4_000_000_000_000 paying)
new_order-covenant_example =
    new_order-covenant scaled simple_builder simple_taproot hash_bytes address_of simple_engine
      request "1" 5 an_order paying [] placed

from_funded_order-new_order_example :
    (t : Trade (Unit {0}) (List (List ℕ))) × (payment : List (List ℕ)) × (from_funded_order
        simple_taproot an_order
        (some (coin "funding" 4))
      ≡ ok t)
    × (t.status ≡ funded)
    × (t.order ≡ an_order)
    × (t.funding_payment ≡ some payment)
    × (address_of payment ≡ some "address")
from_funded_order-new_order_example =
    from_funded_order-new_order scaled simple_builder simple_taproot hash_bytes address_of request
      "1" 5 an_order (coin "funding" 4) refl placed
