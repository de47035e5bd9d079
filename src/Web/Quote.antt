-- ===== src/Web/Quote.antt =====
-- The handlers of /pair and of /trade/preview.
use banco.Prelude.{ℕ, String, List, if◌then◌else◌, str_eq}
use banco.Currency.{asset_of}
use banco.Float.{Float64}
use banco.Market.{Market, get_markets, get_trading_pair, get_markets_with_limits}
use banco.Ocean.Service.{Balance}
use banco.Rates.{Kraken, market_price, fee_percentage}
use banco.Call.{Call}
use banco.Result.{or_error, bad_number, unknown_currency}
use banco.Web.Response.{PairBox, RecapBox, Response, you_send, you_receive, error_page}
use banco.Web.Response.{
  pair_box, recap_box, invalid_input, invalid_pair, price_error, answer, nothing,
}
use banco.Web.Handler.{Handler, ◌>>=◌, reply, pure, or_reply, on_world}

module _ (float : Float64) where
  open float use {Float}

  -- `float64(limit) / math.Pow(10, float64(precision))`
  unfoldable pub limit_fractional : ℕ → String → Float
  limit_fractional limit currency =
      float.div (float.of_uint64 limit)
        (float.pow (float.literal 10 0) (float.of_uint64 (asset_of currency).precision))

  -- The limit on the side of the trade.
  unfoldable pub pair_box_of : Market float → String → Float → PairBox float
  unfolding limit_fractional
  pair_box_of mkt trade_type rate =
      if str_eq trade_type "Sell"
      then record {
        limit = limit_fractional mkt.sell_limit mkt.quote_asset;
        currency = mkt.quote_asset;
        rate = rate;
        quote_asset = mkt.quote_asset;
      }
      else record {
        limit = limit_fractional mkt.buy_limit mkt.base_asset;
        currency = mkt.base_asset;
        rate = rate;
        quote_asset = mkt.quote_asset;
      }

  -- The price with the fee: `1 + feePercentage/100` and `1 - feePercentage/100`
  unfoldable pub with_fee : Float → Float → Float
  with_fee value fee =
      float.mul value (float.add (float.literal 1 0) (float.div fee (float.literal 100 0)))

  unfoldable pub without_fee : Float → Float → Float
  without_fee value fee =
      float.mul value (float.sub (float.literal 1 0) (float.div fee (float.literal 100 0)))

  -- Every type of trade but Buy is taken for a sale.
  unfoldable pub recap_box_of : Market float → String → Float → Float → Float → RecapBox float
  unfolding with_fee without_fee
  recap_box_of mkt trade_type rate amount fee =
      let preview_amt = float.mul rate amount in
      if str_eq trade_type "Buy"
      then record {
        action = you_send;
        preview_amt = with_fee preview_amt fee;
        quote_asset = mkt.quote_asset;
      }
      else record {
        action = you_receive;
        preview_amt = without_fee preview_amt fee;
        quote_asset = mkt.quote_asset;
      }

  -- `mkt := getTradingPair(markets, pair); if mkt == nil`
  abbrev pub market_named :
      {World : Type 0} → List (Market float) → String → Handler float World (Market float)
  market_named markets pair =
      pure (or_error (get_trading_pair float markets pair) unknown_currency)
        λ e. answer 400 invalid_pair

  module _ {World : Type 0} (kc : Kraken Float) where
    -- GET /pair. Where there is no price the handler returns without a response.
    unfoldable pub get_pair :
        (String → Call World Balance) → String → String → Handler float World (Response float)
    get_pair balance pair trade_type = do
      markets ←
          or_reply (on_world (get_markets_with_limits float balance)) λ e. answer 500 (error_page e)
      mkt ← market_named markets pair
      rate ← pure (market_price float kc mkt.base_asset mkt.quote_asset) λ e. nothing
      reply (answer 200 (pair_box (pair_box_of mkt trade_type rate)))

    -- GET /trade/preview
    unfoldable pub get_preview : String → String → String → Handler float World (Response float)
    get_preview amount_str pair trade_type = do
      amount ← pure (or_error (float.parse amount_str) bad_number) λ e. answer 400 invalid_input
      mkt ← market_named (get_markets float) pair
      rate ←
          pure (market_price float kc mkt.base_asset mkt.quote_asset)
            λ e. answer 500 (price_error e)
      reply (
          answer 200 (
            recap_box (
              recap_box_of mkt trade_type rate amount
                (fee_percentage float mkt.base_asset mkt.quote_asset))))
