-- ===== src/Lib.antt =====
-- A verification library for the Go backend of the Finix banking service.
--
-- The backend keeps its state in one `Service` (backend/internal/domain/platform/service.go) under
-- one lock, and calls domain packages beside it. A transfer asks the risk engine for an assessment
-- and the adaptive authentication for a decision, records the transaction, puts a decision event
-- into the outbox, writes the event chain strictly, posts a double entry and debits the accounts.
-- Transactions that wait for a step-up are released by an override with a one-time password; the
-- risk worker may change their status afterwards; a freeze holds them all back. Requests reach the
-- service through the guards of the middleware, under a session that a PIN login has opened. Where
-- a Fabric network is attached, the events go to its chaincode, which enforces the rules itself.
--
-- The files and the code they model, each state an explicit record and each operation a function
-- from the state before to the state after with its result:
--   Base: shared names, tests, lists, texts, maps, int64 as bit patterns, float64 as an interface.
--   Accounts: balances and the debit across accounts
--     (backend/internal/domain/platform/service.go, `totalBalanceLocked`,
--     `applyDebitToFirstAccountLocked`).
--   AccountingLedger: the double-entry book
--     (backend/internal/domain/platform/ledger_accounting.go).
--   Blockchain: events and rules, writes, checks (backend/internal/domain/blockchain/ledger.go).
--   Outbox, CircuitBreaker: backend/internal/domain/platform/infrastructure.go, with the worker of
--     backend/internal/domain/platform/service.go (`startOutboxWorker`).
--   AdaptiveAuth: backend/internal/domain/security/adaptive_auth.go.
--   ThreatResponse: backend/internal/domain/security/threat_response.go.
--   RiskEngine: backend/internal/domain/transaction (safety.go, heuristic.go, risk_engine.go).
--   SimBinding: backend/internal/domain/security/sim_binding.go.
--   Payments: backend/internal/domain/platform/service_payment.go.
--   Otp: one-time passwords (backend/internal/domain/platform/service_expansion.go, `GenerateOTP`,
--     `VerifyOTPToken`).
--   Transfers: `InitiateTransaction`, `OverrideTransaction`, `ValidateRisk`, `EmergencyFreeze` and
--     `Unfreeze` of backend/internal/domain/platform/service.go. State holds the state, Steps and
--     Initiate the call put together from its steps, the other children one operation or one group
--     of results each.
--   Debt: amortisation (backend/internal/domain/debt/amortisation.go), with Debt/Prepay and
--     Debt/Waterfall for prepayments, foreclosure, repricing and the waterfalls over several loans
--     (backend/internal/domain/debt/optimise.go).
--   Chaincode: the ledger contract on the Fabric network (chaincode/finix/main.go). Events holds
--     the key-value store with its range scans, Rules the enforced rules, Contract the
--     transactions; Order, Chain, Log, Queries, Enforcement and Window one group of results each.
--   Login: PIN login and sessions (backend/internal/domain/platform/auth_pin.go and
--     `AuthenticateToken`, `invalidateAllSessionsLocked` of
--     backend/internal/domain/platform/service.go).
--   Middleware: guards in front of the handlers (backend/internal/api/middleware). RateLimit,
--     Replay and Roles model rate_limit.go, idempotency.go and rbac.go, Bearer the check of tokens
--     of auth.go, Gates the gates of single routes.
--   Examples: the conditions of the results are met at concrete inputs.
--
-- Conventions. An int64 is its two's complement bit pattern in ℕ, with the wrap-around written out.
-- Times are nanoseconds in ℕ; each call takes one reading of the clock, AuthenticateToken
-- two. A Go map is a function, or a list of entries where its size or its iteration matters.
-- float64 is the interface `Floats`: what a result needs of it is among its conditions. Hashing, JSON, formatting, the served model,
-- the fraud graph, the attached ledger network and random draws are parameters.
--
-- Fuel. `merkle_loop` runs on the number of hashes, which is enough since each level is shorter;
-- `evict` runs on the number of cached results, since each round takes one away
-- (Transfers/Cap). `prepay_loop` and `waterfall_loop` run on the 1,200 months of `monthCap`, and
-- `schedule_loop` on the months that are left, as the source's loops do. All other loops are by
-- recursion on their list.
--
-- Not modelled: the database (no handle is attached), signing keys, event streams to clients, logs
-- and explanation texts; HTTP routes, certificates and the shared rate limits; registration, the
-- list of revoked tokens, goals, taxes, scores, the fraud graph's propagation, errors of the
-- Fabric peer and the assistant.
pub mod Base
pub mod Accounts
pub mod AccountingLedger
pub mod Blockchain
pub mod Outbox
pub mod CircuitBreaker
pub mod AdaptiveAuth
pub mod ThreatResponse
pub mod RiskEngine
pub mod Otp
pub mod SimBinding
pub mod Payments
pub mod Transfers
pub mod Debt
pub mod Chaincode
pub mod Login
pub mod Middleware
pub mod Examples
