-- ===== src/Esplora.antt =====
-- esplora.go: the client of the block explorer.
pub mod Client
pub mod Panics
pub mod Unspents
pub mod Tests
