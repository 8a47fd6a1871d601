-- ===== src/Blockchain.antt =====
-- The hash chain of audit events of backend/internal/domain/blockchain/ledger.go, with its smart
-- contract rules. The mutex makes each method one step. SHA-256 and the formatting of numbers,
-- times and lists of violations are the fields of `Host`; the clock is an argument. An attached
-- Fabric network is the function that answers one `RecordEvent` call.
pub mod Events
pub mod Writes
pub mod Checks
pub mod Chain
pub mod Violations
pub mod Merkle
pub mod Tampering
