-- ===== src/Resilience/Cooldown.antt =====
-- When the circuit breaker opens, and for how long (core/resilience.py).
use csp_lib.Base.{
  ℕ, ◌+◌, ◌-◌, ◌*◌, ◌^◌, ◌≤◌, ◌<◌, ◌≡◌, true, false, List, [], ◌∷◌, arith, leb, if◌then◌else◌,
  length, min,
}
use native.Mathlib.Nat.{one-le-pow}
use csp_lib.Resilience.{
  CircuitState, opened, half_open, CircuitBreaker, record_failure, allows_request, base_cooldown,
  compute_cooldown,
}

-- Consecutive failures at the given times, with the random draws.
pub failures : List (ℕ × ℕ) → CircuitBreaker → CircuitBreaker
failures [] cb = cb
failures (f ∷ fs) cb = failures fs (record_failure f.0 f.1 cb)

-- Whether so many failures reach the threshold.
abbrev pub reaches : ℕ → CircuitBreaker → CircuitState → CircuitState
reaches n cb before = if leb cb.threshold n then opened else before

failure_step :
    (now draw : ℕ) (cb : CircuitBreaker)
    → ((record_failure now draw cb).threshold ≡ cb.threshold)
      × ((record_failure now draw cb).failure_count ≡ cb.failure_count + 1)
      × ((record_failure now draw cb).state ≡ reaches (cb.failure_count + 1) cb cb.state)
unfolding record_failure
failure_step now draw cb = ground arith

-- A first failure and any more of them, with no success between: the breaker opens exactly when
-- the count has reached the threshold, and stays as it was before that.
pub failures_open :
    (f : ℕ × ℕ) (fs : List (ℕ × ℕ)) (cb : CircuitBreaker)
    → (failures (f ∷ fs) cb).state ≡ reaches (cb.failure_count + length (f ∷ fs)) cb cb.state
unfolding failures
failures_open f [] cb = ground (arith, failure_step f.0 f.1 cb)
failures_open f (g ∷ fs) cb =
    ground (arith, failure_step f.0 f.1 cb, failures_open g fs (record_failure f.0 f.1 cb))

-- What a failure that reaches the threshold leaves.
opens :
    (failed draw : ℕ) (cb : CircuitBreaker)
    → cb.threshold ≤ cb.failure_count + 1
    → let cb' = record_failure failed draw cb in
      (cb'.state ≡ opened)
      × (cb'.last_failure_time ≡ failed)
      × (cb'.current_cooldown ≡ base_cooldown cb' * (8000 + 4 * draw))
unfolding record_failure compute_cooldown base_cooldown
opens failed draw cb h = ground arith

jitter_bounds :
    (base draw : ℕ)
    → draw < 1000
    → (base * 8000 ≤ base * (8000 + 4 * draw)) × (base * (8000 + 4 * draw) ≤ base * 12000)
jitter_bounds base draw d = (grind arith, grind arith)

window :
    (failed now base draw : ℕ) (cb : CircuitBreaker)
    → draw < 1000
    → cb.state ≡ opened
    → cb.last_failure_time ≡ failed
    → cb.current_cooldown ≡ base * (8000 + 4 * draw)
    → ((now - failed) * 10 < base * 8 → (allows_request now cb).1 ≡ false)
      × (base * 12 ≤ (now - failed) * 10
          → ((allows_request now cb).1 ≡ true) × ((allows_request now cb).0.state ≡ half_open))
unfolding allows_request
window failed now base draw cb d o l c =
    let j = jitter_bounds base draw d in
    ((λ early. ground (arith, o, l, c, j, early)), (λ late. ground (arith, o, l, c, j, late)))

-- A failure that reaches the threshold keeps requests out for 0.8 times the base cooldown, and
-- lets them in again, half open, from 1.2 times the base cooldown on, for every random draw.
pub cooldown_window :
    (failed draw now : ℕ) (cb : CircuitBreaker)
    → draw < 1000
    → cb.threshold ≤ cb.failure_count + 1
    → let cb' = record_failure failed draw cb in
      ((now - failed) * 10 < base_cooldown cb' * 8 → (allows_request now cb').1 ≡ false)
      × (base_cooldown cb' * 12 ≤ (now - failed) * 10
          → ((allows_request now cb').1 ≡ true) × ((allows_request now cb').0.state ≡ half_open))
cooldown_window failed draw now cb d h =
    let (o, l, c) = opens failed draw cb h in
    window failed now (base_cooldown (record_failure failed draw cb)) draw
      (record_failure failed draw cb) d o l c

at_least_once : (a b : ℕ) → 1 ≤ b → a ≤ a * b
at_least_once a b h = grind arith

-- The base cooldown never passes the maximum, and, with a backoff factor of at least 1, it is at
-- least the smaller of the configured cooldown and the maximum.
pub base_cooldown_bounds :
    (cb : CircuitBreaker)
    → 1 ≤ cb.backoff_factor
    → (base_cooldown cb ≤ cb.max_cooldown) × (min cb.cooldown cb.max_cooldown ≤ base_cooldown cb)
unfolding base_cooldown
base_cooldown_bounds cb h =
    let grows : cb.cooldown ≤ cb.cooldown * cb.backoff_factor ^ min cb.consecutive_failures 5 =
      at_least_once cb.cooldown _
        (one-le-pow (min cb.consecutive_failures 5) cb.backoff_factor h) in
    omega arith
