-- ===== src/Resilience.antt =====
-- The circuit breaker and the retry policy, csp_lib/core/resilience.py. Times are natural numbers
-- of milliseconds, and the readings of `time.monotonic`, which never fall, are arguments. `random.random` gives a
-- number of thousandths below 1000, also an argument, so a cooldown is exact in ten-thousandths.
pub mod Invariant
pub mod Cooldown
mod Tests
use csp_lib.Base.{ℕ, ◌+◌, ◌-◌, ◌*◌, ◌^◌, Bool, true, false, not, min, leb, if◌then◌else◌}

pub data CircuitState : Type 0 where
  closed opened half_open : CircuitState

pub record CircuitBreaker : Type 0 where
  pub threshold : ℕ
  pub cooldown : ℕ
  pub max_cooldown : ℕ
  pub backoff_factor : ℕ
  pub state : CircuitState
  pub failure_count : ℕ
  pub consecutive_failures : ℕ
  pub last_failure_time : ℕ
  -- In ten-thousandths of a millisecond.
  pub current_cooldown : ℕ

-- `__init__`.
unfoldable pub new : (threshold cooldown max_cooldown backoff_factor : ℕ) → CircuitBreaker
new threshold cooldown max_cooldown backoff_factor = record {
  threshold = threshold;
  cooldown = cooldown;
  max_cooldown = max_cooldown;
  backoff_factor = backoff_factor;
  state = closed;
  failure_count = 0;
  consecutive_failures = 0;
  last_failure_time = 0;
  current_cooldown = cooldown * 10000;
}

-- The cooldown before the jitter.
unfoldable pub base_cooldown : CircuitBreaker → ℕ
base_cooldown cb =
    min (cb.cooldown * cb.backoff_factor ^ min cb.consecutive_failures 5) cb.max_cooldown

-- `_compute_cooldown`: the factor 0.8 + 0.4 * random.
unfoldable pub compute_cooldown : ℕ → CircuitBreaker → ℕ
compute_cooldown draw cb = base_cooldown cb * (8000 + 4 * draw)

-- The cooldown after the last failure is over.
abbrev pub is_cooled : ℕ → CircuitBreaker → Bool
is_cooled now cb = leb cb.current_cooldown ((now - cb.last_failure_time) * 10000)

-- The property `state`, which turns an open breaker half open after its cooldown.
read_state : ℕ → CircuitState → CircuitBreaker → CircuitBreaker
read_state now opened cb = if is_cooled now cb then record cb { state = half_open } else cb
read_state now closed cb = cb
read_state now half_open cb = cb

unfoldable pub state_at : ℕ → CircuitBreaker → CircuitBreaker
unfolding read_state
state_at now cb = read_state now cb.state cb

unfoldable pub record_success : CircuitBreaker → CircuitBreaker
record_success cb = record cb { failure_count = 0; consecutive_failures = 0; state = closed }

-- The threshold is reached: the breaker opens for a cooldown computed once.
open_circuit : ℕ → CircuitBreaker → CircuitBreaker
open_circuit draw cb =
    let counted = record cb { consecutive_failures = cb.consecutive_failures + 1 } in
    record counted { current_cooldown = compute_cooldown draw counted; state = opened }

unfoldable pub record_failure : (now draw : ℕ) → CircuitBreaker → CircuitBreaker
unfolding open_circuit
record_failure now draw cb =
    let failed = record cb { failure_count = cb.failure_count + 1; last_failure_time = now } in
    if leb failed.threshold failed.failure_count then open_circuit draw failed else failed

unfoldable pub reset : CircuitBreaker → CircuitBreaker
reset cb = record cb {
  failure_count = 0;
  consecutive_failures = 0;
  state = closed;
  last_failure_time = 0;
}

abbrev pub is_open : CircuitState → Bool
is_open opened = true
is_open closed = false
is_open half_open = false

-- `allows_request`, with the breaker that reading the state leaves.
unfoldable pub allows_request : ℕ → CircuitBreaker → CircuitBreaker × Bool
unfolding state_at
allows_request now cb = let cb' = state_at now cb in (cb', not (is_open cb'.state))

pub record RetryPolicy : Type 0 where
  pub max_retries : ℕ
  pub base_delay : ℕ
  pub exponential_base : ℕ

unfoldable pub get_delay : ℕ → RetryPolicy → ℕ
get_delay attempt p = p.base_delay * p.exponential_base ^ attempt
