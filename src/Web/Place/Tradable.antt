-- ===== src/Web/Place/Tradable.antt =====
-- From the form that is posted to the trade that the watcher makes of the stored order.
use banco.Prelude.{ℕ, String, List, Option, some, ◌≡◌}
use banco.Float.{Float64}
use banco.Offer.Builder.{ScriptBuilder}
use banco.Offer.Funding.{Taproot}
use banco.Order.{Order}
use banco.Trade.Types.{Utxo, Trade, funded, from_funded_order}
use banco.Call.{Call}
use banco.Result.{ok}

module _ (float : Float64) {World : Type 0} (builder : ScriptBuilder) (tap : Taproot)
    (asset_hash_to_bytes : String → Option (List ℕ)) (taproot_address : tap.Payment → Option String)
    (to_output_script : String → Option (List ℕ)) (watch_script : String → Call World (Unit {0}))
    (format_time : ℕ → String) (parse_time : String → Option ℕ) where
  open float use {Float}

  -- A coin makes a funded trade of the order, whose payment has the order's address.
  abbrev pub IsTradable : {Prevout : Type 0} → Order → Utxo Prevout → Type 0
  IsTradable {Prevout} order u =
      (t : Trade Prevout tap.Payment) × (payment : tap.Payment) × (from_funded_order tap order
          (some u)
        ≡ ok t)
      × (t.status ≡ funded)
      × (t.funding_payment ≡ some payment)
      × (taproot_address payment ≡ some order.address)
