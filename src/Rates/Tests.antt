-- ===== src/Rates/Tests.antt =====
-- A run of the goroutines: two prices are heard and one is written, then the exchange sends a message
-- of another kind.
use banco.Prelude.{ℕ, ◌≤◌, List, [], ◌∷◌, ◌++◌, none, some, true, false, ◌≡◌, ◌⊎◌, refl}
use banco.Prelude.{length}
use banco.Float.Model.{scaled}
use banco.Result.{ok, err, or_error, price_missing}
use banco.Rates.{Kraken, Websocket, insert, quiet_client, market_price, fee_percentage, subscribe}
use banco.Rates.{new_kraken_client, par}
use banco.Rates.Feed.{Run, stopped, after, heard, misheard, taken, written, ticked, par_written}
use banco.Rates.Par.{market_price-par}
use banco.Rates.Lag.{last, market_price_lag}
use banco.Rates.Stale.{market_price_stale}

-- An exchange that answers.
abbrev ws : Websocket (Unit {0})
ws = record { connect = λ w. (some tt, w); subscribe_ticker = λ w. (some tt, w) }

abbrev begun : Kraken ℕ
begun = record {
  last_prices = [];
  listening = true;
  sending = none;
  ticking = true;
  held_usdt = none;
  held_par = none;
}

made : new_kraken_client scaled ws tt ≡ (ok (quiet_client scaled), tt)
unfolding new_kraken_client
made = refl

listens : subscribe scaled ws (quiet_client scaled) tt ≡ ((ok tt, begun), tt)
unfolding subscribe
listens = refl

one_percent : fee_percentage scaled "L-BTC" "USDT" ≡ 100_000_000
unfolding fee_percentage
one_percent = refl

-- The first price is written, 1.00 is written, and the second is still to be written.
abbrev busy : Kraken ℕ
busy = record {
  last_prices = ("L-BTC/USDT", 5) ∷ ("L-BTC/L-BTC", 100_000_000) ∷ [];
  listening = true;
  sending = some 6;
  ticking = true;
  held_usdt = none;
  held_par = none;
}

two_prices : Run scaled begun (5 ∷ 6 ∷ []) busy
unfolding insert
two_prices =
    let r₀ : Run scaled begun [] begun = stopped in
    let r₁ = after r₀ (heard begun 5 refl refl) in
    let k₁ : Kraken ℕ = record begun { sending = some 5 } in
    let r₂ = after r₁ (taken k₁ 5 refl refl) in
    let k₂ : Kraken ℕ = record k₁ { sending = none; held_usdt = some 5 } in
    let r₃ = after r₂ (written k₂ 5 refl) in
    let k₃ : Kraken ℕ = record k₂ { last_prices = ("L-BTC/USDT", 5) ∷ []; held_usdt = none } in
    let r₄ = after r₃ (misheard k₃ refl refl) in
    let r₅ = after r₄ (ticked k₃ refl refl) in
    let k₅ : Kraken ℕ = record k₃ { held_par = some 100_000_000 } in
    let r₆ = after r₅ (heard k₅ 6 refl refl) in
    let k₆ : Kraken ℕ = record k₅ { sending = some 6 } in after r₆ (par_written k₆ 100_000_000 refl)

market_price-par_example :
    (market_price scaled busy "L-BTC" "L-BTC" ≡ err price_missing)
    ⊎ (market_price scaled busy "L-BTC" "L-BTC" ≡ ok (par scaled))
market_price-par_example = market_price-par scaled begun busy (5 ∷ 6 ∷ []) refl refl two_prices

market_price_lag_example :
    (stored : List ℕ) × (waiting : List ℕ) × ((5 ∷ 6 ∷ []) ≡ stored ++ waiting)
    × (length waiting ≤ 2)
    × (market_price scaled busy "L-BTC" "USDT" ≡ or_error (last stored) price_missing)
market_price_lag_example = market_price_lag scaled begun busy (5 ∷ 6 ∷ []) refl refl refl two_prices

abbrev over : Kraken ℕ
over = record {
  last_prices = ("L-BTC/USDT", 6) ∷ [];
  listening = false;
  sending = none;
  ticking = true;
  held_usdt = none;
  held_par = none;
}

abbrev later : Kraken ℕ
later = record over { held_par = some 100_000_000 }

ticks_on : Run scaled over [] later
ticks_on = let r₀ : Run scaled over [] over = stopped in after r₀ (ticked over refl refl)

market_price_stale_example :
    (◌≡◌ {A = List ℕ} [] [])
    × (market_price scaled later "L-BTC" "USDT" ≡ market_price scaled over "L-BTC" "USDT")
market_price_stale_example = market_price_stale scaled over later [] refl refl refl ticks_on

no_price : market_price scaled begun "L-BTC" "USDT" ≡ err price_missing
unfolding market_price
no_price = refl
