-- ===== src/Trade.antt =====
-- trade.go: the trades that fulfil funded orders.
pub mod Libs
pub mod Types
pub mod Prepare
pub mod Stages
pub mod Laws
pub mod Outputs
pub mod Conservation
pub mod Step
pub mod Witness
pub mod Execute
pub mod Sends
pub mod Quiet
pub mod Fulfils
pub mod Broadcast
pub mod Frees
pub mod Outcome
pub mod Model
pub mod Tests
