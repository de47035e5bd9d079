-- ===== src/Store.antt =====
-- db.go: the orders and their statuses in the database.
pub mod Rows
pub mod Sql
pub mod Init
pub mod Save
pub mod Query
pub mod Atomic
pub mod Matched
pub mod Settled
pub mod RoundTrip
pub mod Update
pub mod View
pub mod Tests
