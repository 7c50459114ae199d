-- ===== src/Resilience/Invariant.antt =====
-- The states of the circuit breaker over any sequence of operations (core/resilience.py).
use csp_lib.Base.{ℕ, ◌+◌, ◌-◌, ◌≤◌, ◌<◌, ◌≡◌, List, [], ◌∷◌, arith}
use csp_lib.Resilience.{
  closed, opened, half_open, CircuitBreaker, new, state_at, record_success, record_failure, reset,
}

-- What holds of a breaker between two operations, if its threshold is at least 1.
pub record IsConsistent (cb : CircuitBreaker) : Type 0 where
  pub positive : 1 ≤ cb.threshold
  pub closed_below : cb.state ≡ closed → cb.failure_count < cb.threshold
  pub open_reached : cb.state ≡ opened → cb.threshold ≤ cb.failure_count
  pub half_open_reached : cb.state ≡ half_open → cb.threshold ≤ cb.failure_count
  -- The truncated difference: 0 below the threshold.
  pub openings : cb.consecutive_failures ≡ cb.failure_count + 1 - cb.threshold

pub data Operation : Type 0 where
  read : ℕ → Operation
  succeed : Operation
  fail : (now draw : ℕ) → Operation
  reset_all : Operation

unfoldable pub apply : Operation → CircuitBreaker → CircuitBreaker
apply (read now) cb = state_at now cb
apply succeed cb = record_success cb
apply (fail now draw) cb = record_failure now draw cb
apply reset_all cb = reset cb

pub apply-IsConsistent :
    (op : Operation) (cb : CircuitBreaker) → IsConsistent cb → IsConsistent (apply op cb)
unfolding apply state_at record_success record_failure reset
apply-IsConsistent (read now) cb c = ground arith
apply-IsConsistent succeed cb c = ground arith
apply-IsConsistent (fail now draw) cb c = ground arith
apply-IsConsistent reset_all cb c = ground arith

pub run_breaker : List Operation → CircuitBreaker → CircuitBreaker
run_breaker [] cb = cb
run_breaker (op ∷ ops) cb = run_breaker ops (apply op cb)

run_breaker-keeps :
    (ops : List Operation) (cb : CircuitBreaker)
    → IsConsistent cb
    → IsConsistent (run_breaker ops cb)
unfolding run_breaker
run_breaker-keeps [] cb c = c
run_breaker-keeps (op ∷ ops) cb c = run_breaker-keeps ops (apply op cb) (apply-IsConsistent op cb c)

-- After any operations on a new breaker with a threshold of at least 1, it is closed only below
-- the threshold of consecutive failures, open or half open only at it or above, and the count
-- of its openings is the number of failures from the threshold on.
pub run_breaker-IsConsistent :
    (ops : List Operation) (threshold cooldown max_cooldown backoff : ℕ)
    → 1 ≤ threshold
    → IsConsistent (run_breaker ops (new threshold cooldown max_cooldown backoff))
unfolding new
run_breaker-IsConsistent ops threshold cooldown max_cooldown backoff h =
    run_breaker-keeps ops _ (record {
      positive = h;
      closed_below = λ e. h;
      open_reached = λ e. cc;
      half_open_reached = λ e. cc;
      openings = omega arith;
    })

-- A failure in the half-open state opens the breaker again; a success closes it.
pub half_open_decides :
    (now draw : ℕ) (cb : CircuitBreaker)
    → IsConsistent cb
    → cb.state ≡ half_open
    → ((record_failure now draw cb).state ≡ opened) × ((record_success cb).state ≡ closed)
unfolding record_failure record_success
half_open_decides now draw cb c h = ground arith
