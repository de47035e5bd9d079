-- ===== src/Offer.antt =====
-- offer.go: the scripts of a trade contract and its funding output. The script builder of txscript
-- and the taproot library are parameters.
pub mod Builder
pub mod Scripts
pub mod Engine
pub mod Covenant
pub mod Contract
pub mod Funding
pub mod Model
mod Tests
