-- ===== src/Ocean.antt =====
-- ocean.go: the wallet service, over the clients that the gRPC library generates.
pub mod Client
pub mod Service
pub mod Start
pub mod Notify
pub mod Broadcasts
pub mod Answers
pub mod Ready
pub mod Tests
