-- ===== src/Examples.antt =====
-- Concrete runs: each theorem that has conditions is applied where they hold.
pub mod Setup
mod Money
mod Ledgers
mod Controls
mod Payees
mod Network
mod Lending
mod Logins
mod Gates
