-- ===== src/Watch/Coins.antt =====
-- coinsAreMoreThan of app.go.
use banco.Prelude.{ℕ, ◌+◌, ◌%◌, ◌^◌, ◌≤◌, ◌<◌, ◌≡◌, ◌↔◌, ◌∙◌, Bool, true, List, [], ◌∷◌, leb, arith}
use banco.Trade.Types.{Utxo}

-- The loop over the coins, on a uint64.
unfoldable pub total_value : {Prevout : Type 0} → ℕ → List (Utxo Prevout) → ℕ
total_value total [] = total
total_value total (utxo ∷ rest) = total_value ((total + utxo.value) % 2 ^ 64) rest

unfoldable pub coins_are_more_than : {Prevout : Type 0} → List (Utxo Prevout) → ℕ → Bool
unfolding total_value
coins_are_more_than utxos amount = leb amount (total_value 0 utxos)

-- What the coins are worth together.
unfoldable pub worth : {Prevout : Type 0} → List (Utxo Prevout) → ℕ
worth [] = 0
worth (utxo ∷ rest) = utxo.value + worth rest

total_value_wraps :
    {Prevout : Type 0} (total : ℕ) (utxos : List (Utxo Prevout))
    → total < 2 ^ 64
    → total_value total utxos ≡ (total + worth utxos) % 2 ^ 64
unfolding total_value worth
total_value_wraps total [] h = omega arith
total_value_wraps total (utxo ∷ rest) h =
    total_value_wraps ((total + utxo.value) % 2 ^ 64) rest (omega arith) ∙ omega arith

-- Coins that are worth less than 2 ^ 64 together are enough exactly if they are worth the amount or
-- more.
pub coins_are_more_than-worth :
    {Prevout : Type 0} (utxos : List (Utxo Prevout)) (amount : ℕ)
    → worth utxos < 2 ^ 64
    → (coins_are_more_than utxos amount ≡ true) ↔ (amount ≤ worth utxos)
unfolding coins_are_more_than
coins_are_more_than-worth utxos amount small =
    let wraps : total_value 0 utxos ≡ worth utxos =
      total_value_wraps 0 utxos (omega arith) ∙ omega arith in
    (λ h. ground arith, λ h. ground arith)

pub coins_are_more_than-enough :
    {Prevout : Type 0} (utxos : List (Utxo Prevout)) (amount : ℕ)
    → coins_are_more_than utxos amount ≡ true
    → amount ≤ worth utxos % 2 ^ 64
unfolding coins_are_more_than
coins_are_more_than-enough utxos amount h =
    let wraps : total_value 0 utxos ≡ worth utxos % 2 ^ 64 =
      total_value_wraps 0 utxos (omega arith) ∙ omega arith in
    ground arith
