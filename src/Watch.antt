-- ===== src/Watch.antt =====
-- The part of app.go that watches an order: coinsAreMoreThan, executeTrades, watchForTrades.
pub mod Coins
pub mod Execute
pub mod Sends
pub mod Act
pub mod Order
pub mod Frees
pub mod Only
pub mod Settles
pub mod Tests
