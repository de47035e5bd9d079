-- ===== src/Web/Tests.antt =====
-- Orders that are posted for two L-BTC at a price of one, over the libraries of the other tests.
use banco.Prelude.{ℕ, ◌≡◌, refl, ap, String, List, [], ◌∷◌, Option, none, some, true, text_append}
use banco.Float.Model.{scaled}
use banco.Offer.Funding.{testnet, create_funding_output}
use banco.Offer.Model.{simple_builder}
use banco.Offer.Scripts.{
  fulfill_script, refund_script, compile_fulfill_clause, compile_refund_clause,
}
use banco.ScriptNum.{script_num_bytes, le_loop, sign_last}
use banco.Buffer.ByteOrder.{le_encode}
use banco.Trade.Model.{simple_taproot}
use banco.Order.{Order}
use banco.Order.New.{new_order, side_of, amount_of, proposed_rate, check_rate, contract_order}
use banco.Currency.{currency_to_asset}
use banco.Hex.{decode_string, decode_codes, encode_to_string}
use banco.Market.{get_markets, get_trading_pair}
use banco.Rates.{Kraken, market_price, fee_percentage}
use banco.Call.{Call}
use banco.Result.{ok}
use banco.Store.Rows.{has_order}
use banco.Store.Sql.{call}
use banco.Store.Save.{save_order}
use banco.Watch.Act.{Net}
use banco.Web.Response.{Response, answer, redirect, invalid_pair}
use banco.Web.Handler.{Outcome, replied}
use banco.Web.Quote.{with_fee, without_fee}
use banco.Web.Place.{Form, sides_of, publish, post_trade}
use banco.Web.Place.Steps.{IsOrdered, IsPublished, post_trade-IsPublished}
use banco.Web.Place.Refused.{post_trade_refused}

abbrev hash_bytes : String → Option (List ℕ)
hash_bytes text = some (1 ∷ 0x14 ∷ 0x4c ∷ [])

abbrev address_of : List (List ℕ) → Option String
address_of payment = some "address"

abbrev to_output_script : String → Option (List ℕ)
to_output_script addr = some (0x51 ∷ 0xa0 ∷ [])

-- The scripts that are watched.
abbrev watch_script : String → Call (List String) (Unit {0})
watch_script script w = (ok tt, script ∷ w)

abbrev format_time : ℕ → String
format_time t = "1970-01-01 00:00:00"

abbrev rates : Kraken ℕ
rates = record {
  last_prices = ("L-BTC/USDT", 100_000_000) ∷ [];
  listening = true;
  sending = none;
  ticking = true;
  held_usdt = none;
  held_par = none;
}

abbrev form : Form
form = record { trader_script = "5102aabb"; pair = "L-BTC/USDT"; amount = "2"; type = "Buy" }

abbrev net : Net (List String)
net = record {
  env = record { world = []; free = [] };
  conn = record { stored = record { orders = []; statuses = [] }; working = none; faults = [] };
}

abbrev posted : Form → Outcome scaled (Response scaled) × Net (List String)
posted f =
    post_trade scaled simple_builder simple_taproot hash_bytes address_of to_output_script
      watch_script format_time rates (some testnet) "1" 5 f net

redirected : (posted form).0 ≡ replied (redirect 303 "/offer/1")
unfolding post_trade publish get_markets get_trading_pair market_price fee_percentage sides_of
    with_fee without_fee new_order side_of amount_of proposed_rate check_rate contract_order
    currency_to_asset decode_string decode_codes fulfill_script refund_script compile_fulfill_clause
    compile_refund_clause script_num_bytes le_loop sign_last le_encode create_funding_output
    save_order call has_order encode_to_string
redirected = refl

watched : (posted form).1.env.world ≡ "51a0" ∷ []
unfolding post_trade publish get_markets get_trading_pair market_price fee_percentage sides_of
    with_fee without_fee new_order side_of amount_of proposed_rate check_rate contract_order
    currency_to_asset decode_string decode_codes fulfill_script refund_script compile_fulfill_clause
    compile_refund_clause script_num_bytes le_loop sign_last le_encode create_funding_output
    save_order call has_order encode_to_string
watched = refl

post_trade-IsPublished_example :
    (order : Order) × IsOrdered scaled simple_builder simple_taproot hash_bytes address_of
      to_output_script watch_script format_time rates
      (some testnet)
      form
      order
    × (order.id ≡ "1")
    × (order.timestamp ≡ 5)
    × (◌≡◌ {A = ℕ} 303 303)
    × ("/offer/1" ≡ text_append "/offer/" "1")
    × IsPublished scaled simple_builder simple_taproot hash_bytes address_of to_output_script
        watch_script format_time order net
        (posted form).1
post_trade-IsPublished_example =
    post_trade-IsPublished scaled simple_builder simple_taproot hash_bytes address_of
      to_output_script watch_script format_time rates (some testnet) "1" 5 form net (posted form).1
      303 "/offer/1" (ap (λ r. (r, (posted form).1)) redirected)

abbrev other_form : Form
other_form = record form { pair = "USDT/L-BTC" }

refused : (posted other_form).0 ≡ replied (answer 400 invalid_pair)
unfolding post_trade get_markets get_trading_pair
refused = refl

post_trade_refused_example : (posted other_form).1 ≡ net
post_trade_refused_example =
    post_trade_refused scaled simple_builder simple_taproot hash_bytes address_of to_output_script
      watch_script format_time rates (some testnet) "1" 5 other_form net (posted other_form).1
      invalid_pair (ap (λ r. (r, (posted other_form).1)) refused)

abbrev parse_time : String → Option ℕ
parse_time text = some 0
