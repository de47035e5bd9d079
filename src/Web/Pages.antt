-- ===== src/Web/Pages.antt =====
-- The handlers of the pages, and of /address-to-script.
use banco.Prelude.{ℕ, String, List, Option, text_append}
use banco.Prelude.Int.{ℤ}
use banco.App.{get_transactions_for_address}
use banco.Call.{Call}
use banco.Currency.{currency_of}
use banco.Esplora.Client.{Http}
use banco.Float.{Float64}
use banco.Hex.{encode_to_string}
use banco.Market.{get_markets_with_limits}
use banco.Ocean.Service.{Balance}
use banco.Order.{Order}
use banco.Order.New.{input_value, output_value}
use banco.Result.{Error, or_error, address_failed}
use banco.Store.Query.{fetch_order_by_id, fetch_order_id_by_address}
use banco.Watch.Act.{on_store}
use banco.Web.Response.{TxLists, OfferPage, Response, error_page, missing_page, trade_page}
use banco.Web.Response.{
  offer_page, script_hex, error_json, invalid_address, answer, redirect, nothing,
}
use banco.Web.Handler.{Handler, ◌>>=◌, reply, pure, or_reply, on_world}
use banco.Web.Rows.{split_transactions, no_rows}

abbrev internal : {float : Float64} → Error → Response float
internal e = answer 500 (error_page e)

module _ (float : Float64) {World : Type 0} where
  open float use {Float}

  -- GET /
  unfoldable pub get_index :
      (String → Call World Balance) → String → Handler float World (Response float)
  get_index balance network_name =
      or_reply (on_world (get_markets_with_limits float balance)) internal >>= λ markets.
      reply (answer 200 (trade_page markets network_name))

  -- GET /offer/address/:address
  unfoldable pub get_offer_by_address : String → Handler float World (Response float)
  get_offer_by_address addr =
      or_reply (on_store (fetch_order_id_by_address addr)) (λ e. answer 404 missing_page) >>= λ id.
      reply (redirect 303 (text_append "/offer/" id))

  -- GET /offer/:id/status, whose handler is empty
  abbrev get_status : String → Handler float World (Response float)
  get_status id = reply nothing

  module _ (to_output_script : String → Option (List ℕ)) where
    -- GET /address-to-script/:address
    unfoldable pub get_address_to_script : String → Handler float World (Response float)
    get_address_to_script addr =
        pure (or_error (to_output_script addr) address_failed) (λ e. answer 400 invalid_address)
        >>= λ script. reply (answer 200 (script_hex (encode_to_string script)))

    module _ {Prevout : Type 0} (http : Http Prevout World)
        (watch_script : String → Call World (Unit {0})) (format_time : ℕ → String)
        (format_unix : ℤ → String) (parse_time : String → Option ℕ) where
      unfoldable pub offer_page_of : Order → String → TxLists → OfferPage float
      offer_page_of order status transactions = record {
        id = order.id;
        address = order.address;
        input_value = input_value float order;
        input_currency = currency_of order.input.asset;
        output_value = output_value float order;
        output_currency = currency_of order.output.asset;
        transactions = transactions;
        input_asset_hash = order.input.asset;
        input_amount = order.input.amount;
        status = status;
        date = format_time order.timestamp;
      }

      -- The part after the order is found.
      unfoldable pub show_offer : String → Order × String → Handler float World (Response float)
      unfolding offer_page_of
      show_offer network_name (order, status) = do
        script ←
            pure (or_error (to_output_script order.address) address_failed)
              λ e. answer 500 (error_json e)
        u ←
            or_reply (on_world (watch_script (encode_to_string script)))
              λ e. answer 500 (error_json e)
        transactions ←
            or_reply (on_world (get_transactions_for_address http order.address network_name))
              internal
        lists ← pure (split_transactions format_unix network_name transactions no_rows) internal
        reply (answer 200 (offer_page (offer_page_of order status lists)))

      -- GET /offer/:id
      unfoldable pub get_offer : String → String → Handler float World (Response float)
      unfolding show_offer
      get_offer network_name id =
          or_reply (on_store (fetch_order_by_id parse_time id)) (λ e. answer 404 missing_page)
          >>= show_offer network_name
