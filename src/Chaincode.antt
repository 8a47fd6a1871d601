-- ===== src/Chaincode.antt =====
-- The event ledger on the Fabric network, chaincode/finix/main.go. A transaction reads and writes
-- the world state at once. The stub's clock and transaction id are arguments; SHA-256, JSON
-- validity, durations and the formatting of numbers and times are the fields of `Runtime`. What is
-- stored as JSON is modelled as the value itself, and errors of the peer are left out.
pub mod Events
pub mod Rules
pub mod Contract
pub mod Order
pub mod Chain
pub mod Log
pub mod Queries
pub mod Enforcement
pub mod Window
