-- ===== src/Market/Tests.antt =====
-- The markets of a wallet that has eight of everything.
use banco.Prelude.{ℕ, String, List, [], ◌∷◌, none, some, ◌≡◌, ◌↔◌, refl}
use banco.Currency.{currency_to_asset}
use banco.Float.Model.{scaled}
use banco.Call.{Call}
use banco.Result.{ok}
use banco.Ocean.Service.{Balance}
use banco.Market.{Market, get_markets, get_trading_pair, get_market_with_limits, with_limits}
use banco.Market.{get_markets_with_limits}
use banco.Market.Pair.{IsAnswer, get_trading_pair-IsAnswer}
use banco.Market.Limits.{AllLimited, get_markets_with_limits-AllLimited}

abbrev balance : String → Call (Unit {0}) Balance
balance asset w = (ok (record { available_balance = 8; pending_balance = 1 }), w)

abbrev with_eight : String → ℕ → Market scaled
with_eight quote fee = record {
  base_asset = "L-BTC";
  quote_asset = quote;
  buy_percentage_fee = 10_000_000;
  sell_percentage_fee = fee;
  buy_limit = 8;
  sell_limit = 8;
}

abbrev both : List (Market scaled)
both = with_eight "L-BTC" 10_000_000 ∷ with_eight "USDT" 75_000_000 ∷ []

limits : get_markets_with_limits scaled balance tt ≡ (ok both, tt)
unfolding get_markets_with_limits with_limits get_market_with_limits get_markets currency_to_asset
limits = refl

get_markets_with_limits-AllLimited_example : AllLimited scaled balance (get_markets scaled) both
get_markets_with_limits-AllLimited_example =
    get_markets_with_limits-AllLimited scaled balance tt tt both limits

get_trading_pair-IsAnswer_example :
    (get_trading_pair scaled both "L-BTC/USDT" ≡ some (with_eight "USDT" 75_000_000))
    ↔ IsAnswer scaled both "L-BTC/USDT" (some (with_eight "USDT" 75_000_000))
get_trading_pair-IsAnswer_example =
    get_trading_pair-IsAnswer scaled both "L-BTC/USDT" (some (with_eight "USDT" 75_000_000))

second : get_trading_pair scaled both "L-BTC/USDT" ≡ some (with_eight "USDT" 75_000_000)
unfolding get_trading_pair
second = refl

unknown_pair : get_trading_pair scaled both "USDT/L-BTC" ≡ none
unfolding get_trading_pair
unknown_pair = refl
