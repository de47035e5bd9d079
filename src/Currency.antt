-- ===== src/Currency.antt =====
-- currencyutil.go: the assets that are traded.
use banco.Prelude.{ℕ, String, List, [], ◌∷◌, Option, none, some, lookup}

pub record Asset : Type 0 where
  pub asset_hash : String
  pub precision : ℕ
  pub ticker : String
  pub name : String

abbrev usdt : Asset
usdt = record {
  asset_hash = "f3d1ec678811398cd2ae277cbe3849c6f6dbd72c74bc542f7c4b11ff0e820958";
  precision = 8;
  ticker = "USDT";
  name = "Tether USD";
}

abbrev l_btc : Asset
l_btc = record {
  asset_hash = "144c654344aa716d6f3abcc1ca90e5641e4e2a7f633bc09fe3baf64585819a49";
  precision = 8;
  ticker = "L-BTC";
  name = "Liquid Bitcoin";
}

unfoldable pub currency_to_asset : List (String × Asset)
currency_to_asset = ("USDT", usdt) ∷ ("L-BTC", l_btc) ∷ []

unfoldable pub asset_to_currency : List (String × String)
asset_to_currency =
    ("f3d1ec678811398cd2ae277cbe3849c6f6dbd72c74bc542f7c4b11ff0e820958", "USDT")
    ∷ ("144c654344aa716d6f3abcc1ca90e5641e4e2a7f633bc09fe3baf64585819a49", "L-BTC")
    ∷ []

-- The value of a missing key, where the code does not ask whether it is there.
abbrev no_asset : Asset
no_asset = record { asset_hash = ""; precision = 0; ticker = ""; name = "" }

abbrev asset_or_none : Option Asset → Asset
asset_or_none none = no_asset
asset_or_none (some a) = a

-- `currencyToAsset[currency]`
unfoldable pub asset_of : String → Asset
unfolding currency_to_asset
asset_of currency = asset_or_none (lookup currency currency_to_asset)

-- `currencyToAsset["L-BTC"].AssetHash`
unfoldable pub l_btc_hash : String
unfolding asset_of
l_btc_hash = (asset_of "L-BTC").asset_hash

abbrev text_or_empty : Option String → String
text_or_empty none = ""
text_or_empty (some t) = t

-- `assetToCurrency[asset]`
unfoldable pub currency_of : String → String
unfolding asset_to_currency
currency_of asset = text_or_empty (lookup asset asset_to_currency)
