-- ===== src/Order.antt =====
-- The orders of order.go.
pub mod New
pub mod Placed
pub mod Contract
pub mod Tests
use banco.Prelude.{ℕ, String, List, Option}
use banco.Offer.Funding.{Network}

-- One side of an order: the anonymous struct of `Input` and `Output`.
pub record Leg : Type 0 where
  pub asset : String
  pub amount : ℕ

-- A time is the nanoseconds since the epoch.
pub record Order : Type 0 where
  pub id : String
  pub timestamp : ℕ
  pub address : String
  pub network : Option Network
  pub fulfill_script : List ℕ
  pub refund_script : List ℕ
  pub trader_script : List ℕ
  pub input : Leg
  pub output : Leg
