-- ===== src/Order/Contract.antt =====
-- The contract of a new order, and the trade that is made of it once its address is funded.
use banco.Prelude.{ℕ, String, List, Option, some, ◌≡◌, refl, ap, ◌∙◌, ◌↔◌, drop, [], ◌∷◌, subst}
use banco.Float.{Float64}
use banco.Buffer.ByteOrder.{le_encode}
use banco.Offer.Builder.{ScriptBuilder}
use banco.Offer.Engine.{Output, Engine, true_bytes}
use banco.Offer.Covenant.{Pays}
use banco.Offer.Contract.{version_bytes, fulfill_script_covenant, refund_script_covenant}
use banco.Offer.Funding.{testnet, Taproot, create_funding_output}
use banco.Order.{Order}
use banco.Order.New.{Request, new_order}
use banco.Order.Placed.{new_order-IsPlaced}
use banco.Trade.Types.{Utxo, Trade, funded, from_funded_order}
use banco.Result.{ok}

-- The spending transaction's first output pays the trader's script the amount of an asset.
abbrev pub PaysTrader : Order → List ℕ → ℕ → Output → Type 0
PaysTrader o asset_bytes amount out =
    Pays (version_bytes o.trader_script) (drop 2 o.trader_script) (drop 1 asset_bytes)
      (le_encode 8 amount) out

module _ (float : Float64) (builder : ScriptBuilder) (tap : Taproot)
    (asset_hash_to_bytes : String → Option (List ℕ))
    (taproot_address : tap.Payment → Option String) where
  open float use {Float}

  -- The scripts of an order that NewOrder returns bind whoever spends its funding output: by the
  -- fulfill script, run by the engine, the first output pays the trader the order's output, and by the
  -- refund script it pays the trader the order's input back, each exactly.
  pub new_order-covenant :
      (engine : Engine builder) (r : Request Float) (id : String) (now : ℕ) (o : Order)
      (out : Output) (outs : List Output)
      → new_order float builder tap asset_hash_to_bytes taproot_address r id now ≡ ok o
      → (output_bytes : List ℕ) × (input_bytes : List ℕ) × (asset_hash_to_bytes o.output.asset
          ≡ some output_bytes)
        × (asset_hash_to_bytes o.input.asset ≡ some input_bytes)
        × ((engine.run (out ∷ outs) o.fulfill_script [] ≡ some (true_bytes ∷ []))
            ↔ PaysTrader o output_bytes o.output.amount out)
        × ((engine.run (out ∷ outs) o.refund_script [] ≡ some (true_bytes ∷ []))
            ↔ PaysTrader o input_bytes o.input.amount out)
  new_order-covenant engine r id now o out outs e =
      let p =
        (new_order-IsPlaced float asset_hash_to_bytes builder tap taproot_address r id now o e).0 in
      (
        p.out.asset_bytes,
        p.inp.asset_bytes,
        ap asset_hash_to_bytes p.output_asset ∙ p.out_side.bytes_eq,
        ap asset_hash_to_bytes p.input_asset ∙ p.inp_side.bytes_eq,
        fulfill_script_covenant builder engine o.trader_script o.output.amount p.out.asset_bytes
            o.fulfill_script out outs p.fulfill,
        refund_script_covenant builder engine o.trader_script o.input.amount p.inp.asset_bytes
            o.refund_script out outs p.refund,
      )

  made :
      {Prevout : Type 0} (o : Order) (u : Utxo Prevout) (payment : tap.Payment)
      → create_funding_output tap o.fulfill_script o.refund_script (some testnet) ≡ ok payment
      → from_funded_order tap o (some u)
        ≡ ok (record {
          status = funded;
          order = o;
          funding_unspent = some u;
          funding_payment = some payment;
        })
  unfolding from_funded_order
  made o u payment e = rw e refl

  -- On the test network, FromFundedOrder makes a funded trade of an order that NewOrder returned and
  -- of any coin, and the payment that it spends has the address that the order shows.
  pub from_funded_order-new_order :
      {Prevout : Type 0} (r : Request Float) (id : String) (now : ℕ) (o : Order) (u : Utxo Prevout)
      → r.net ≡ some testnet
      → new_order float builder tap asset_hash_to_bytes taproot_address r id now ≡ ok o
      → (t : Trade Prevout tap.Payment) × (payment : tap.Payment) × (from_funded_order tap o
            (some u)
          ≡ ok t)
        × (t.status ≡ funded)
        × (t.order ≡ o)
        × (t.funding_payment ≡ some payment)
        × (taproot_address payment ≡ some o.address)
  from_funded_order-new_order r id now o u net e =
      let p =
        (new_order-IsPlaced float asset_hash_to_bytes builder tap taproot_address r id now o e).0 in
      let on_testnet =
        subst (λ n. create_funding_output tap o.fulfill_script o.refund_script n ≡ ok p.payment) net
          p.funding in
      (_, p.payment, made o u p.payment on_testnet, refl, refl, refl, p.address_eq)
