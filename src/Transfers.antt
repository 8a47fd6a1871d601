-- ===== src/Transfers.antt =====
-- Transactions of backend/internal/domain/platform/service.go: initiation, override after step-up,
-- validation by the risk worker, and the freeze. The service lock makes each call one step. No
-- database is attached (`s.db` is nil) and no signing key (`s.dilithium` is nil); goroutines that
-- publish to event streams, the texts of explanations and the log are left out.
pub mod State
pub mod Idempotency
pub mod Cap
pub mod Recording
pub mod Signals
pub mod Steps
pub mod Initiate
pub mod Override
pub mod Validate
pub mod Freeze
pub mod Effects
pub mod Assessed
pub mod Outcomes
pub mod Cached
pub mod Kept
pub mod DoubleDebit
pub mod Failures
pub mod Final
pub mod Risky
pub mod Overrides
pub mod Verdicts
pub mod Frozen
