-- ===== src/Market.antt =====
-- The markets of app.go: GetMarkets, GetMarketWithLimits, GetMarketsWithLimits, getTradingPair.
use banco.Prelude.{
  ℕ, String, List, [], ◌∷◌, Option, none, some, str_eq, if◌then◌else◌, lookup, text_append,
}
use banco.Currency.{currency_to_asset}
use banco.Float.{Float64}
use banco.Call.{Call, ◌>>=◌, done}
use banco.Result.{ok, or_error, unknown_currency}
use banco.Ocean.Service.{Balance}
pub mod Pair
pub mod Limits
pub mod Tests

pub record Market (float : Float64) : Type 0 where
  pub base_asset : String
  pub quote_asset : String
  pub buy_percentage_fee : float.Float
  pub sell_percentage_fee : float.Float
  pub buy_limit : ℕ
  pub sell_limit : ℕ

module _ (float : Float64) where
  -- `GetMarkets`
  unfoldable pub get_markets : List (Market float)
  get_markets =
      record {
        base_asset = "L-BTC";
        quote_asset = "L-BTC";
        buy_percentage_fee = float.literal 1 1;
        sell_percentage_fee = float.literal 1 1;
        buy_limit = 0;
        sell_limit = 0;
      }
      ∷ record {
        base_asset = "L-BTC";
        quote_asset = "USDT";
        buy_percentage_fee = float.literal 1 1;
        sell_percentage_fee = float.literal 75 2;
        buy_limit = 0;
        sell_limit = 0;
      }
      ∷ []

  -- `market.BaseAsset+"/"+market.QuoteAsset`
  abbrev pub pair_of : Market float → String
  pair_of market = text_append market.base_asset (text_append "/" market.quote_asset)

  -- `getTradingPair`: none is a nil pointer
  unfoldable pub get_trading_pair : List (Market float) → String → Option (Market float)
  get_trading_pair [] pair = none
  get_trading_pair (market ∷ rest) pair =
      if str_eq (pair_of market) pair then some market else get_trading_pair rest pair

  module _ {World : Type 0} (balance : String → Call World Balance) where
    -- `GetMarketWithLimits`, over the method Balance of the wallet service
    unfoldable pub get_market_with_limits : Market float → Call World (Market float)
    get_market_with_limits market = do
      base_asset ← done (or_error (lookup market.base_asset currency_to_asset) unknown_currency)
      quote_asset ← done (or_error (lookup market.quote_asset currency_to_asset) unknown_currency)
      base_balance ← balance base_asset.asset_hash
      quote_balance ← balance quote_asset.asset_hash
      done (
          ok (record market {
            buy_limit = base_balance.available_balance;
            sell_limit = quote_balance.available_balance;
          }))

    -- The loop of GetMarketsWithLimits, which ends at the first error.
    unfoldable pub with_limits : List (Market float) → Call World (List (Market float))
    unfolding get_market_with_limits
    with_limits [] = done (ok [])
    with_limits (market ∷ rest) = do
      limited ← get_market_with_limits market
      others ← with_limits rest
      done (ok (limited ∷ others))

    -- `GetMarketsWithLimits`
    unfoldable pub get_markets_with_limits : Call World (List (Market float))
    unfolding with_limits get_markets
    get_markets_with_limits = with_limits get_markets
