-- ===== src/CircuitBreaker/Trials.antt =====
-- The half-open state: recovery by one caller, and trials in flight at the same time
-- (infrastructure.go, `Execute`).
use hybrid_quantum_banking_b.Base.{ℕ, zero, suc, ◌+◌, ◌<◌, ◌≡◌, ◌⊎◌, false, arith}
use hybrid_quantum_banking_b.Base.Int64.{sign_bit}
use hybrid_quantum_banking_b.CircuitBreaker.{
  Breaker, closed, open_, half_open, admitted, execute, admit,
}
use hybrid_quantum_banking_b.CircuitBreaker.States.{repeat}

-- Between the calls of one caller the in-flight count of a half-open breaker is 0 or -1.
record Trial (n : ℕ) (cb cb' : Breaker) : Type 0 where
  half : cb'.state ≡ half_open
  passed : cb'.success_count ≡ n
  kept : cb'.success_threshold ≡ cb.success_threshold
  idle : (cb'.half_open_count ≡ 0) ⊎ (cb'.half_open_count ≡ 4294967295)

-- The open breaker, as its timeout passes and the first trial succeeds.
Trial-first :
    (now : ℕ) (cb : Breaker)
    → cb.state ≡ open_
    → cb.last_state_change + cb.reset_timeout < now
    → cb.half_open_count ≡ 0
    → 1 < cb.success_threshold
    → cb.success_threshold < sign_bit
    → Trial 1 cb (execute now false cb).0
unfolding execute
Trial-first now cb o t z h w = ground arith

Trial-suc :
    (now n : ℕ) (cb c : Breaker)
    → cb.success_threshold < sign_bit
    → suc n < cb.success_threshold
    → Trial n cb c
    → Trial (suc n) cb (execute now false c).0
unfolding execute
Trial-suc now n cb c w h k = ground arith

Trial-close :
    (now n : ℕ) (cb c : Breaker)
    → suc n < sign_bit
    → cb.success_threshold ≡ suc n
    → Trial n cb c
    → (execute now false c).0.state ≡ closed
unfolding execute
Trial-close now n cb c w h k = ground arith

repeat-Trial :
    (at : ℕ → ℕ) (n : ℕ) (cb : Breaker)
    → cb.state ≡ open_
    → cb.last_state_change + cb.reset_timeout < at 0
    → cb.half_open_count ≡ 0
    → cb.success_threshold < sign_bit
    → suc n < cb.success_threshold
    → Trial (suc n) cb (repeat false at (suc n) cb)
repeat-Trial at zero cb o t z w h = Trial-first (at 0) cb o t z h w
repeat-Trial at (suc n) cb o t z w h =
    Trial-suc (at (suc n)) (suc n) cb (repeat false at (suc n) cb) w h
      (repeat-Trial at n cb o t z w (omega arith))

-- Once its timeout has passed, an open breaker with no trial in flight closes after exactly as
-- many successful calls in a row as its success threshold asks for, two or more.
pub successes_close :
    (at : ℕ → ℕ) (n : ℕ) (cb : Breaker)
    → cb.state ≡ open_
    → cb.last_state_change + cb.reset_timeout < at 0
    → cb.half_open_count ≡ 0
    → cb.success_threshold ≡ suc (suc n)
    → suc (suc n) < sign_bit
    → ((repeat false at (suc n) cb).state ≡ half_open)
      × ((repeat false at (suc (suc n)) cb).state ≡ closed)
successes_close at n cb o t z e w =
    let k = repeat-Trial at n cb o t z (omega arith) (omega arith) in
    (k.half, Trial-close (at (suc n)) (suc n) cb (repeat false at (suc n) cb) w e k)

-- The limit of one trial at a time does not hold. When the timeout of an open breaker has passed,
-- two calls that arrive before either returns are both let through; and after a first trial alone
-- has succeeded, with more successes wanted, the count stands at -1, so that two calls at a time
-- are let through again.
pub two_trials_in_flight :
    (t u v w : ℕ) (cb : Breaker)
    → cb.state ≡ open_
    → cb.last_state_change + cb.reset_timeout < t
    → cb.half_open_count ≡ 0
    → 1 < cb.success_threshold
    → cb.success_threshold < sign_bit
    → ((admit t cb).1 ≡ admitted)
      × ((admit u (admit t cb).0).1 ≡ admitted)
      × (let c = (execute t false cb).0 in
          ((admit v c).1 ≡ admitted) × ((admit w (admit v c).0).1 ≡ admitted))
unfolding execute
two_trials_in_flight t u v w cb o h z k l = ground arith
