-- ===== src/Rates.antt =====
-- rates.go: the prices that come from the ticker of the exchange.
use banco.Prelude.{
  String, List, [], ◌∷◌, Option, none, some, Bool, true, false, lookup, text_append,
}
use banco.Prelude.{str_eq, if◌then◌else◌, ◌≡◌}
use banco.Float.{Float64}
use banco.Result.{Result, ok, err, panic, or_error, price_missing, rpc_failed}
pub mod Lookup
pub mod Feed
pub mod Lag
pub mod Par
pub mod Stale
pub mod Tests

-- An assignment to a key of a map.
unfoldable pub insert {ℓ} : {V : Type ℓ} → String → V → List (String × V) → List (String × V)
insert key value [] = (key, value) ∷ []
insert key value ((k, v) ∷ rest) =
    if str_eq k key then (k, value) ∷ rest else (k, v) ∷ insert key value rest

abbrev pub usdt_pair : String
usdt_pair = "L-BTC/USDT"

abbrev pub par_pair : String
par_pair = "L-BTC/L-BTC"

-- `KrakenClient` with its goroutines. The channels have no buffer: a sender waits until the reader
-- of the channel takes the price, which the reader then writes to LastPrices.
pub record Kraken (Price : Type 0) : Type 0 where
  pub last_prices : List (String × Price)
  -- the goroutine that listens is in its loop; the price that it waits to send
  pub listening : Bool
  pub sending : Option Price
  -- the goroutine that sends 1.00 is in its loop
  pub ticking : Bool
  -- the prices that the two readers took and did not write yet
  pub held_usdt : Option Price
  pub held_par : Option Price

-- NewKraken with Connect, and SubscribeTicker for BTC/USDT.
pub record Websocket (World : Type 0) : Type 0 where
  pub connect : World → Option (Unit {0}) × World
  pub subscribe_ticker : World → Option (Unit {0}) × World

module _ (float : Float64) where
  open float use {Float}

  -- `1.00`
  abbrev pub par : Float
  par = float.literal 100 2

  -- `FeePercentage`
  unfoldable pub fee_percentage : String → String → Float
  fee_percentage base quote = float.literal 1 0

  -- `MarketPrice`
  unfoldable pub market_price : Kraken Float → String → String → Result Float
  market_price kc base quote =
      or_error (lookup (text_append base (text_append "/" quote)) kc.last_prices) price_missing

  abbrev pub quiet_client : Kraken Float
  quiet_client = record {
    last_prices = [];
    listening = false;
    sending = none;
    ticking = false;
    held_usdt = none;
    held_par = none;
  }

  module _ {World : Type 0} (ws : Websocket World) where
    abbrev client_after : Option (Unit {0}) → Result (Kraken Float)
    client_after none = panic
    client_after (some u) = ok quiet_client

    -- `NewKrakenClient`, which ends the process where it cannot connect
    unfoldable pub new_kraken_client : World → Result (Kraken Float) × World
    new_kraken_client w = let (r, w') = ws.connect w in (client_after r, w')

    -- The two goroutines start only after the ticker is subscribed to.
    abbrev subscribed : Option (Unit {0}) → Kraken Float → Result (Unit {0}) × Kraken Float
    subscribed none kc = (err rpc_failed, kc)
    subscribed (some u) kc = (ok tt, record kc { listening = true; ticking = true })

    -- `Subscribe`
    unfoldable pub subscribe : Kraken Float → World → (Result (Unit {0}) × Kraken Float) × World
    subscribe kc w = let (r, w') = ws.subscribe_ticker w in (subscribed r kc, w')
