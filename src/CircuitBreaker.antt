-- ===== src/CircuitBreaker.antt =====
-- The circuit breaker of backend/internal/domain/platform/infrastructure.go. `Execute` holds the
-- mutex before and after the call of `fn`, not during it: `admit` is the first critical section
-- and `settle` the second, and calls in flight at the same time interleave these. Each section
-- reads the clock once here. Counters are int (64 bits) and int32 bit patterns.
pub mod States
pub mod Trials
use hybrid_quantum_banking_b.Base.{
  ℕ, ◌+◌, ◌-◌, ◌%◌, Bool, true, false, not, ltb, ◌==◌, ◌&&◌, if◌then◌else◌,
}
use hybrid_quantum_banking_b.Base.Int64.{add64, le64}

-- `CircuitState`
pub data CircuitState : Type 0 where
  closed open_ half_open : CircuitState

-- `CircuitBreaker`; times and the timeout in nanoseconds.
pub record Breaker : Type 0 where
  pub state : CircuitState
  pub failure_count : ℕ
  pub success_count : ℕ
  pub failure_threshold : ℕ
  pub success_threshold : ℕ
  pub reset_timeout : ℕ
  pub last_failure : ℕ
  pub last_state_change : ℕ
  pub half_open_count : ℕ

-- `NewCircuitBreaker`
unfoldable pub new_breaker : ℕ → ℕ → ℕ → ℕ → Breaker
new_breaker failure_threshold success_threshold reset_timeout now = record {
  state = closed;
  failure_count = 0;
  success_count = 0;
  failure_threshold = failure_threshold;
  success_threshold = success_threshold;
  reset_timeout = reset_timeout;
  last_failure = 0;
  last_state_change = now;
  half_open_count = 0;
}

abbrev pub int32_modulus : ℕ
int32_modulus = 4294967296

-- `n > 0` for an int32.
abbrev pub positive32 : ℕ → Bool
positive32 n = ltb 0 n && ltb n 2147483648

abbrev pub is_half_open : CircuitState → Bool
is_half_open half_open = true
is_half_open _ = false

-- What the caller of `Execute` meets before `fn` runs: it runs, or `ErrCircuitOpen`.
pub data Admission : Type 0 where
  admitted refused : Admission

admit_in : CircuitState → ℕ → Breaker → Breaker × Admission
admit_in closed now cb = (cb, admitted)
admit_in open_ now cb =
    if ltb (cb.last_state_change + cb.reset_timeout) now
    then (record cb { state = half_open; success_count = 0; last_state_change = now }, admitted)
    else (cb, refused)
admit_in half_open now cb =
    if positive32 cb.half_open_count
    then (cb, refused)
    else (record cb { half_open_count = (cb.half_open_count + 1) % int32_modulus }, admitted)

-- The part of `Execute` before `fn`.
unfoldable pub admit : ℕ → Breaker → Breaker × Admission
unfolding admit_in
admit now cb = admit_in cb.state now cb

-- The in-flight count as `fn` returns.
leave : Breaker → Breaker
leave cb =
    if is_half_open cb.state
    then record cb { half_open_count = (cb.half_open_count + int32_modulus - 1) % int32_modulus }
    else cb

settle_failure : ℕ → Breaker → Breaker
settle_failure now cb =
    let c = record cb { failure_count = add64 cb.failure_count 1; last_failure = now } in
    let d =
      if le64 c.failure_threshold c.failure_count
      then record c { state = open_; last_state_change = now }
      else c in
    if is_half_open d.state then record d { state = open_; last_state_change = now } else d

settle_success : ℕ → Breaker → Breaker
settle_success now cb =
    let c = record cb { failure_count = 0 } in
    if is_half_open c.state
    then (let d = record c { success_count = add64 c.success_count 1 } in
        if le64 d.success_threshold d.success_count
        then record d { state = closed; last_state_change = now }
        else d)
    else c

-- The part of `Execute` after `fn`; `failed` is `err != nil`.
unfoldable pub settle : ℕ → Bool → Breaker → Breaker
unfolding leave settle_failure settle_success
settle now failed cb =
    if failed then settle_failure now (leave cb) else settle_success now (leave cb)

-- `Execute` with no other call in between: the breaker after it, and whether `fn` ran.
unfoldable pub execute : ℕ → Bool → Breaker → Breaker × Admission
unfolding admit settle
execute now failed cb =
    let (cb', a) = admit now cb in
    elim a [ admitted ↦ (settle now failed cb', admitted) | refused ↦ (cb', refused) ]
