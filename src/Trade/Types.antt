-- ===== src/Trade/Types.antt =====
-- The types of trade.go, and the UTXO of ocean.go.
use banco.Prelude.{ℕ, String, Bool, Option, none, some}
use banco.Offer.Funding.{Taproot, testnet, create_funding_output}
use banco.Order.{Order}
use banco.Result.{Result, ok, ◌>>=◌}

-- A previous output is a value of the transaction library.
pub record Utxo (Prevout : Type 0) : Type 0 where
  pub txid : String
  pub index : ℕ
  pub value : ℕ
  pub prevout : Prevout
  pub confirmed : Bool

pub data TradeStatus : Type 0 where
  pending funded executed cancelled : TradeStatus

-- `t.Status < Funded` compares the constants, numbered from 0 by `iota`.
abbrev pub is_below_funded : TradeStatus → Bool
is_below_funded pending = Bool.true
is_below_funded funded = Bool.false
is_below_funded executed = Bool.false
is_below_funded cancelled = Bool.false

-- `none` is a nil pointer. The wallet service of the struct is a parameter of its methods.
pub record Trade (Prevout Payment : Type 0) : Type 0 where
  pub status : TradeStatus
  pub order : Order
  pub funding_unspent : Option (Utxo Prevout)
  pub funding_payment : Option Payment

module _ (tap : Taproot) {Prevout : Type 0} where
  unfoldable pub from_pending_order : Order → Trade Prevout tap.Payment
  from_pending_order order = record {
    status = pending;
    order = order;
    funding_unspent = none;
    funding_payment = none;
  }

  -- The payment is made for the test network, whatever the order's network is.
  unfoldable pub from_funded_order :
      Order → Option (Utxo Prevout) → Result (Trade Prevout tap.Payment)
  unfolding from_pending_order
  from_funded_order order none = ok (from_pending_order order)
  from_funded_order order (some unspent) = do
    payment ← create_funding_output tap order.fulfill_script order.refund_script (some testnet)
    ok (record {
      status = funded;
      order = order;
      funding_unspent = some unspent;
      funding_payment = some payment;
    })

  -- `CancelTrade`
  unfoldable pub cancel_trade : Trade Prevout tap.Payment → Trade Prevout tap.Payment
  cancel_trade t = record t { status = cancelled }
