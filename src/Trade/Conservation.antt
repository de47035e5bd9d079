-- ===== src/Trade/Conservation.antt =====
-- No value is lost in a fulfil transaction: what is not paid out as change goes to the fee.
use banco.Prelude.{ℕ, ◌+◌, ◌≤◌, ◌<◌, ◌≡◌, ap, sym, ◌∙◌, Bool, inl, inr, Bool-cases, arith}
use banco.Prelude.{String, List, [], ◌∷◌, ◌++◌, append_assoc, All, if◌then◌else◌, str_eq, eq_iff}
use banco.Currency.{l_btc_hash}
use banco.Order.{Order}
use banco.Offer.Funding.{Taproot}
use banco.Trade.Types.{Trade}
use banco.Trade.Libs.{PsetLib, OutputArgs}
use banco.Trade.Laws.{PsetLaws}
use banco.Trade.Prepare.{fee_amount, Supplies, swap_outputs, prepare_fulfill_transaction}
use banco.Trade.Outputs.{change_output, to_fee, is_trade_dust, is_fee_dust, total_fee}
use banco.Trade.Outputs.{
  trade_to_fee_small, fee_to_fee_small, trade_change_output, fee_change_output, fulfil_outputs,
  outputs-prepare,
}
use banco.Result.{ok}

-- The amount if the asset is the one that is counted.
abbrev pub when_asset : String → String → ℕ → ℕ
when_asset asset counted amount = if str_eq asset counted then amount else 0

-- How much of an asset a list of outputs pays.
unfoldable pub total : String → List OutputArgs → ℕ
total counted [] = 0
total counted (o ∷ os) = when_asset o.asset counted o.amount + total counted os

total-append :
    (counted : String) (xs ys : List OutputArgs)
    → total counted (xs ++ ys) ≡ total counted xs + total counted ys
unfolding total
total-append counted [] ys = omega arith
total-append counted (x ∷ xs) ys = omega (arith, total-append counted xs ys)

-- A change counts as an output or in the fee.
total-change_output :
    (dust : Bool) (asset counted : String) (script : List ℕ) (change : ℕ)
    → total counted (change_output dust asset script change)
        + when_asset asset counted (to_fee dust change)
      ≡ when_asset asset counted change
unfolding total
total-change_output dust asset counted script change = ground arith

-- Only L-BTC goes to the fee.
dust_is_l_btc :
    (order : Order) (counted : String) (change : ℕ)
    → when_asset order.output.asset counted (to_fee (is_trade_dust order change) change)
      ≡ when_asset l_btc_hash counted (to_fee (is_trade_dust order change) change)
dust_is_l_btc order counted change = elim (Bool-cases (str_eq order.output.asset l_btc_hash)) [
  | inl same ↦ rw ((eq_iff order.output.asset l_btc_hash).0 same)
  | inr other ↦ rw other (ground arith)
]

when_asset_add :
    (asset counted : String) (a b : ℕ)
    → when_asset asset counted (a + b) ≡ when_asset asset counted a + when_asset asset counted b
when_asset_add asset counted a b = ground arith

last_apart : (q a b c : List OutputArgs) → q ++ (a ++ (b ++ c)) ≡ (q ++ (a ++ b)) ++ c
last_apart q a b c = ap (λ os. q ++ os) (sym (append_assoc a b c)) ∙ sym (append_assoc q (a ++ b) c)

total-four :
    (counted : String) (q a b c : List OutputArgs)
    → total counted (q ++ (a ++ (b ++ c)))
      ≡ total counted q + (total counted a + (total counted b + total counted c))
total-four counted q a b c = omega (
  arith,
  total-append counted q (a ++ (b ++ c)),
  total-append counted a (b ++ c),
  total-append counted b c,
)

module _ {Prevout : Type 0} (order : Order) (s : Supplies Prevout) (counted : String) where
  -- What is to be paid of an asset.
  abbrev pub owed : ℕ
  owed =
      when_asset order.output.asset counted order.output.amount
      + when_asset order.input.asset counted order.input.amount
      + when_asset l_btc_hash counted fee_amount
      + when_asset order.output.asset counted s.trade_change
      + when_asset l_btc_hash counted s.fee_change

  fee_parts :
      when_asset l_btc_hash counted (total_fee order s)
      ≡ when_asset l_btc_hash counted fee_amount
        + when_asset l_btc_hash counted (to_fee (is_trade_dust order s.trade_change) s.trade_change)
        + when_asset l_btc_hash counted (to_fee (is_fee_dust s.fee_change) s.fee_change)
  unfolding total_fee
  fee_parts =
      when_asset_add l_btc_hash counted _ _
      ∙ ap (λ n. n + when_asset l_btc_hash counted (to_fee (is_fee_dust s.fee_change) s.fee_change))
          (when_asset_add l_btc_hash counted _ _)

  total-swaps :
      total counted (swap_outputs order s.provider_script)
      ≡ when_asset order.output.asset counted order.output.amount
        + when_asset order.input.asset counted order.input.amount
  unfolding total
  total-swaps = omega arith

  total-fee_output :
      (fee : ℕ)
      → total counted (record { asset = l_btc_hash; amount = fee; script = [] } ∷ [])
        ≡ when_asset l_btc_hash counted fee
  unfolding total
  total-fee_output fee = omega arith

  total-fulfil_outputs : total counted (fulfil_outputs order s) ≡ owed
  unfolding fulfil_outputs
  total-fulfil_outputs = omega (
    arith,
    total-four counted (swap_outputs order s.provider_script) (trade_change_output order s)
        (fee_change_output order s)
        (record { asset = l_btc_hash; amount = total_fee order s; script = [] } ∷ []),
    total-swaps,
    total-fee_output (total_fee order s),
    fee_parts,
    total-change_output (is_trade_dust order s.trade_change) order.output.asset counted
        s.trade_change_script s.trade_change,
    total-change_output (is_fee_dust s.fee_change) l_btc_hash counted s.fee_change_script
        s.fee_change,
    dust_is_l_btc order counted s.trade_change,
  )

module _ (tap : Taproot) (lib : PsetLib tap) (laws : PsetLaws tap lib) where
  open lib use {Pset, Prevout}
  open laws use {outputs, Accepted}

  -- Of each asset, the outputs of the transaction that is prepared pay what the order's output, the
  -- order's input, the fee of 500 and both changes are together, when the library accepts the
  -- outputs: a change that is too little for an output is in the fee, and is counted once.
  pub total-prepare :
      (t : Trade Prevout tap.Payment) (s : Supplies Prevout) (counted : String) (p : Pset)
      → prepare_fulfill_transaction tap lib t s ≡ ok p
      → All Accepted (fulfil_outputs t.order s)
      → total counted (outputs p) ≡ owed t.order s counted
  total-prepare t s counted p e h =
      ap (total counted) (outputs-prepare tap lib laws t s p e h)
      ∙ total-fulfil_outputs t.order s counted

  -- The last output of the transaction that is prepared is the fee, of at least 500 and less than 1499,
  -- when the library accepts the outputs.
  pub fee_output_bounds :
      (t : Trade Prevout tap.Payment) (s : Supplies Prevout) (p : Pset)
      → prepare_fulfill_transaction tap lib t s ≡ ok p
      → All Accepted (fulfil_outputs t.order s)
      → (before : List OutputArgs) × (fee : ℕ) × (outputs p
          ≡ before ++ (record { asset = l_btc_hash; amount = fee; script = [] } ∷ []))
        × (500 ≤ fee)
        × (fee < 1499)
  unfolding fulfil_outputs total_fee
  fee_output_bounds t s p e h = (
    swap_outputs t.order s.provider_script
        ++ (trade_change_output t.order s ++ fee_change_output t.order s),
    total_fee t.order s,
    outputs-prepare tap lib laws t s p e h
        ∙ last_apart (swap_outputs t.order s.provider_script) (trade_change_output t.order s)
            (fee_change_output t.order s) _,
    omega arith,
    omega (arith, trade_to_fee_small t.order s.trade_change, fee_to_fee_small s.fee_change),
  )
