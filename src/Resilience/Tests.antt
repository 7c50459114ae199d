-- ===== src/Resilience/Tests.antt =====
-- Runs of the circuit breaker, and its theorems at them.
use csp_lib.Base.{List, [], ◌∷◌, arith}
use csp_lib.Resilience.{half_open, CircuitBreaker, new}
use csp_lib.Resilience.Invariant.{
  IsConsistent, Operation, read, succeed, fail, reset_all, run_breaker, run_breaker-IsConsistent,
}

abbrev operations : List Operation
operations = fail 1 500 ∷ fail 2 0 ∷ read 90000 ∷ fail 90001 999 ∷ succeed ∷ reset_all ∷ []

run_breaker-IsConsistent_example : IsConsistent (run_breaker operations (new 2 30000 300000 2))
run_breaker-IsConsistent_example =
    run_breaker-IsConsistent operations 2 30000 300000 2 (omega arith)

abbrev probing : CircuitBreaker
probing = record {
  threshold = 2;
  cooldown = 30000;
  max_cooldown = 300000;
  backoff_factor = 2;
  state = half_open;
  failure_count = 2;
  consecutive_failures = 1;
  last_failure_time = 5;
  current_cooldown = 480000000;
}

probing-IsConsistent : IsConsistent probing
probing-IsConsistent = record {
  positive = omega arith;
  closed_below = λ e. cc;
  open_reached = λ e. cc;
  half_open_reached = λ e. omega arith;
  openings = omega arith;
}
