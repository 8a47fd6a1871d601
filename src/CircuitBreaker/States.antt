-- ===== src/CircuitBreaker/States.antt =====
-- The states of one caller at a time (infrastructure.go, `Execute`).
use hybrid_quantum_banking_b.Base.{ℕ, zero, suc, ◌+◌, ◌≤◌, ◌<◌, ◌≡◌, refl, Bool, true, arith}
use hybrid_quantum_banking_b.Base.Int64.{sign_bit}
use hybrid_quantum_banking_b.CircuitBreaker.{
  Breaker, closed, open_, half_open, refused, execute, settle,
}

-- While the timeout has not passed, an open breaker runs no call and does not change.
pub open-execute :
    (now : ℕ) (failed : Bool) (cb : Breaker)
    → cb.state ≡ open_
    → now ≤ cb.last_state_change + cb.reset_timeout
    → execute now failed cb ≡ (cb, refused)
unfolding execute
open-execute now failed cb o h = ground arith

-- A failing trial of a half-open breaker opens it, whatever its thresholds are.
pub half_open-settle_failure :
    (now : ℕ) (cb : Breaker)
    → cb.state ≡ half_open
    → ((settle now true cb).state ≡ open_) × ((settle now true cb).last_state_change ≡ now)
unfolding settle
half_open-settle_failure now cb h = ground arith

-- `n` calls one after the other, at the times given by `at`, that all fail or all succeed.
abbrev pub repeat : Bool → (ℕ → ℕ) → ℕ → Breaker → Breaker
repeat failed at zero cb = cb
repeat failed at (suc n) cb = (execute (at n) failed (repeat failed at n cb)).0

record Counts (n : ℕ) (cb cb' : Breaker) : Type 0 where
  still_closed : cb'.state ≡ closed
  counted : cb'.failure_count ≡ n
  kept : cb'.failure_threshold ≡ cb.failure_threshold

Counts-suc :
    (now n : ℕ) (cb c : Breaker)
    → cb.failure_threshold < sign_bit
    → suc n < cb.failure_threshold
    → Counts n cb c
    → Counts (suc n) cb (execute now true c).0
unfolding execute
Counts-suc now n cb c w h k = ground arith

Counts-open :
    (now n : ℕ) (cb c : Breaker)
    → suc n < sign_bit
    → cb.failure_threshold ≡ suc n
    → Counts n cb c
    → (execute now true c).0.state ≡ open_
unfolding execute
Counts-open now n cb c w h k = ground arith

repeat-Counts :
    (at : ℕ → ℕ) (n : ℕ) (cb : Breaker)
    → cb.state ≡ closed
    → cb.failure_count ≡ 0
    → cb.failure_threshold < sign_bit
    → n < cb.failure_threshold
    → Counts n cb (repeat true at n cb)
repeat-Counts at zero cb s z w h = record { still_closed = s; counted = z; kept = refl }
repeat-Counts at (suc n) cb s z w h =
    Counts-suc (at n) n cb (repeat true at n cb) w h (repeat-Counts at n cb s z w (omega arith))

-- A closed breaker with no failure counted stays closed until the failures in a row reach the
-- threshold, and the call that reaches it opens the breaker.
pub failures_open :
    (at : ℕ → ℕ) (n : ℕ) (cb : Breaker)
    → cb.state ≡ closed
    → cb.failure_count ≡ 0
    → cb.failure_threshold ≡ suc n
    → suc n < sign_bit
    → ((repeat true at n cb).state ≡ closed) × ((repeat true at (suc n) cb).state ≡ open_)
failures_open at n cb s z t w =
    let k = repeat-Counts at n cb s z (omega arith) (omega arith) in
    (k.still_closed, Counts-open (at n) n cb (repeat true at n cb) w t k)
