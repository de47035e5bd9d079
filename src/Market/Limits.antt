-- ===== src/Market/Limits.antt =====
-- The limits of the markets, against the balances of the wallet.
use banco.Prelude.{ℕ, String, List, [], ◌∷◌, some, ◌≡◌, refl, ap, lookup, subst}
use banco.Currency.{Asset, currency_to_asset}
use banco.Float.{Float64}
use banco.Call.{Call, >>=_ok, done}
use banco.Result.{ok, or_error, or_error_ok, ok-injective, unknown_currency}
use banco.Ocean.Service.{Balance}
use banco.Market.{Market, get_markets, get_market_with_limits, with_limits, get_markets_with_limits}

module _ (float : Float64) {World : Type 0} (balance : String → Call World Balance) where
  -- A limit is what is available of an asset, when the wallet was asked.
  abbrev pub IsLimit : String → ℕ → Type 0
  IsLimit currency limit =
      (asset : Asset) × (b : Balance) × (w : World) × (lookup currency currency_to_asset
        ≡ some asset)
      × ((balance asset.asset_hash w).0 ≡ ok b)
      × (limit ≡ b.available_balance)

  -- The market as it was, with the limits of its two assets.
  abbrev pub IsLimited : Market float → Market float → Type 0
  IsLimited market limited =
      (limited ≡ record market { buy_limit = limited.buy_limit; sell_limit = limited.sell_limit })
      × IsLimit market.base_asset limited.buy_limit
      × IsLimit market.quote_asset limited.sell_limit

  abbrev pub AllLimited : List (Market float) → List (Market float) → Type 0
  AllLimited [] [] = Unit {0}
  AllLimited (market ∷ rest) (limited ∷ others) = IsLimited market limited × AllLimited rest others
  AllLimited _ _ = ⊥

  limited :
      (market : Market float) (w w' : World) (m : Market float)
      → get_market_with_limits float balance market w ≡ (ok m, w')
      → IsLimited market m
  unfolding get_market_with_limits
  limited market w w' m h =
      let base = lookup market.base_asset currency_to_asset in
      let quote = lookup market.quote_asset currency_to_asset in
      let (a, base_known, h₁) = >>=_ok (done (or_error base unknown_currency)) _ w w' m h in
      let (b, quote_known, h₂) = >>=_ok (done (or_error quote unknown_currency)) _ w w' m h₁ in
      let (x, base_balance, h₃) = >>=_ok (balance a.asset_hash) _ w w' m h₂ in
      let w₁ = (balance a.asset_hash w).1 in
      let (y, quote_balance, h₄) = >>=_ok (balance b.asset_hash) _ w₁ w' m h₃ in
      subst (IsLimited market) (ok-injective (ap (λ q. q.0) h₄)) (
        refl,
        (a, x, w, or_error_ok base unknown_currency base_known, base_balance, refl),
        (b, y, w₁, or_error_ok quote unknown_currency quote_known, quote_balance, refl),
      )

  all_limited :
      (markets : List (Market float)) (w w' : World) (ms : List (Market float))
      → with_limits float balance markets w ≡ (ok ms, w')
      → AllLimited markets ms
  unfolding with_limits
  all_limited [] w w' [] h = tt
  all_limited [] w w' (m ∷ ms) h = absurd (cc (ap (λ q. q.0) h))
  all_limited (market ∷ rest) w w' ms h =
      let (m, one, h₁) = >>=_ok (get_market_with_limits float balance market) _ w w' ms h in
      let w₁ = (get_market_with_limits float balance market w).1 in
      let (others, more, h₂) = >>=_ok (with_limits float balance rest) _ w₁ w' ms h₁ in
      let w₂ = (with_limits float balance rest w₁).1 in
      subst (AllLimited (market ∷ rest)) (ok-injective (ap (λ q. q.0) h₂)) (
        limited market w w₁ m (ap (λ r. (r, w₁)) one),
        all_limited rest w₁ w₂ others (ap (λ r. (r, w₂)) more),
      )

  -- The markets that GetMarketsWithLimits returns are those of GetMarkets, in their order, each with
  -- nothing changed but its limits; its buy limit is what the wallet answered is available of its base
  -- asset, and its sell limit what is available of its quote asset.
  pub get_markets_with_limits-AllLimited :
      (w w' : World) (ms : List (Market float))
      → get_markets_with_limits float balance w ≡ (ok ms, w')
      → AllLimited (get_markets float) ms
  unfolding get_markets_with_limits
  get_markets_with_limits-AllLimited w w' ms h = all_limited (get_markets float) w w' ms h
