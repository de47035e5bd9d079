-- ===== src/Web/Place.antt =====
-- The handler of POST /trade, which places an order.
use banco.Prelude.{
  ℕ, String, Bool, List, Option, none, some, ◌||◌, if◌then◌else◌, str_eq, text_append,
}
use banco.Float.{Float64}
use banco.Hex.{encode_to_string}
use banco.Offer.Builder.{ScriptBuilder}
use banco.Offer.Funding.{Network, Taproot}
use banco.Order.{Order}
use banco.Order.New.{Request, new_order}
use banco.Market.{Market, get_markets}
use banco.Store.Save.{save_order}
use banco.Rates.{Kraken, market_price, fee_percentage}
use banco.Call.{Call}
use banco.Result.{Error, Result, ok, or_error, bad_number, address_failed}
use banco.Watch.Act.{on_store}
use banco.Web.Response.{
  Response, error_page, missing_page, invalid_input, price_error, answer, redirect,
}
use banco.Web.Handler.{Handler, ◌>>=◌, reply, pure, or_reply, on_world}
use banco.Web.Quote.{with_fee, without_fee, market_named}
pub mod Asks
pub mod Steps
pub mod Refused
pub mod Tradable

-- The form that is posted.
pub record Form : Type 0 where
  pub trader_script : String
  pub pair : String
  pub amount : String
  pub type : String

abbrev pub is_incomplete : Form → Bool
is_incomplete f =
    str_eq f.amount "" || (str_eq f.pair "" || (str_eq f.type "" || str_eq f.trader_script ""))

module _ (float : Float64) where
  open float use {Float}

  -- The values and the currencies of the two sides.
  pub record Sides : Type 0 where
    pub input_value : Float
    pub input_currency : String
    pub output_value : Float
    pub output_currency : String

  -- For a type that is neither Buy nor Sell the variables keep their zero values.
  unfoldable pub sides_of : Market float → String → Float → Float → Float → Sides
  unfolding with_fee without_fee
  sides_of mkt trade_type amount price fee =
      if str_eq trade_type "Buy"
      then record {
        input_value = with_fee float (float.mul amount price) fee;
        input_currency = mkt.quote_asset;
        output_value = amount;
        output_currency = mkt.base_asset;
      }
      else if str_eq trade_type "Sell"
      then record {
        input_value = amount;
        input_currency = mkt.base_asset;
        output_value = without_fee float (float.mul amount price) fee;
        output_currency = mkt.quote_asset;
      }
      else record {
        input_value = float.literal 0 0;
        input_currency = "";
        output_value = float.literal 0 0;
        output_currency = "";
      }

  abbrev pub failed : Error → Response float
  failed e = answer 500 (error_page e)

  abbrev pub require_form : {World : Type 0} → Form → Handler float World (Unit {0})
  require_form form =
      if is_incomplete form then reply (answer 400 missing_page) else pure (ok tt) failed

  abbrev pub request_of : Form → Sides → Float → Option Network → Request Float
  request_of form sides price net = record {
    trader_script_hex = form.trader_script;
    input_currency = sides.input_currency;
    input_value = float.format_v sides.input_value;
    output_currency = sides.output_currency;
    output_value = float.format_v sides.output_value;
    rate = price;
    net = net;
  }

  -- The wallet service by its method WatchScript; address.ToOutputScript; the format of times.
  module _ {World : Type 0} (builder : ScriptBuilder) (tap : Taproot)
      (asset_hash_to_bytes : String → Option (List ℕ))
      (taproot_address : tap.Payment → Option String) (to_output_script : String → Option (List ℕ))
      (watch_script : String → Call World (Unit {0})) (format_time : ℕ → String) where
    -- The part after the order is made.
    unfoldable pub publish : Order → Handler float World (Response float)
    publish order = do
      u ← or_reply (on_store (save_order format_time order)) failed
      script ← pure (or_error (to_output_script order.address) address_failed) failed
      v ← or_reply (on_world (watch_script (encode_to_string script))) failed
      reply (redirect 303 (text_append "/offer/" order.id))

    -- POST /trade, on a network, with the identifier and the time that NewOrder draws
    unfoldable pub post_trade :
        Kraken Float → Option Network → String → ℕ → Form → Handler float World (Response float)
    post_trade kc net id now form = do
      u ← require_form form
      amount ← pure (or_error (float.parse form.amount) bad_number) λ e. answer 400 invalid_input
      mkt ← market_named float (get_markets float) form.pair
      price ←
          pure (market_price float kc mkt.base_asset mkt.quote_asset)
            λ e. answer 500 (price_error e)
      order ←
          pure
            (new_order float builder tap asset_hash_to_bytes taproot_address
              (request_of form
                (sides_of mkt form.type amount price
                  (fee_percentage float mkt.base_asset mkt.quote_asset))
                price net)
              id now)
            failed
      publish order
