-- ===== src/RequestQueue/Tests.antt =====
-- Runs of the request queue, and its theorems at them.
use csp_lib.Base.{ℕ, refl, true, none, some, List, [], ◌∷◌, nat_equality, eqb, if◌then◌else◌}
use csp_lib.RequestQueue.{
  RequestQueueConfig, write, read, ModbusRequest, ModbusRequestQueue, raised, new, Future, pending,
  cancelled,
}
use csp_lib.RequestQueue.Submit.{IsValid}
use csp_lib.RequestQueue.Dequeue.{dequeue}
use csp_lib.RequestQueue.Choice.{offer}
use csp_lib.RequestQueue.Least.{Outcome, dequeue-Outcome}
use csp_lib.RequestQueue.Life.{
  Event, submitted, timed_out, dequeued, begun, finished, started, stop_requested, cleared_out,
  run_events, run_events-IsValid,
}

abbrev config : RequestQueueConfig
config = record {
  default_timeout = 5000;
  circuit_breaker_threshold = 5;
  circuit_breaker_cooldown = 30000;
  max_queue_size = 3;
  drain_timeout = 10000;
}

abbrev request : (unit seq : ℕ) → ModbusRequest
request unit seq = record {
  priority = read;
  unit_id = unit;
  coroutine_factory = seq;
  timeout = none;
  enqueue_time = 10;
  sequence = seq;
}

abbrev events : List Event
events =
    started
    ∷ submitted 10 1 read 1 none
    ∷ submitted 10 2 write 2 (some 900)
    ∷ submitted 11 1 read 3 none
    ∷ submitted 12 1 read 4 none
    ∷ timed_out 1
    ∷ dequeued 20
    ∷ begun 20 (request 2 2)
    ∷ finished 30 0 (raised 8) (request 2 2)
    ∷ dequeued 31
    ∷ stop_requested
    ∷ cleared_out
    ∷ []

run_events-IsValid_example : IsValid (run_events events (new config))
run_events-IsValid_example = run_events-IsValid events config

abbrev cancelled_first : ℕ → Future
cancelled_first k = if eqb k 1 then cancelled else pending

-- Unit 1 reads, unit 2 writes; the first request of unit 1 is done.
abbrev waiting : ModbusRequestQueue
waiting = record {
  config = config;
  unit_queues =
      (1, request 1 1 ∷ request 1 3 ∷ [])
      ∷ (
        2,
        record {
          priority = write;
          unit_id = 2;
          coroutine_factory = 2;
          timeout = none;
          enqueue_time = 10;
          sequence = 2;
        }
            ∷ [],
      )
      ∷ [];
  round_robin = 1 ∷ 2 ∷ [];
  circuit_breakers = [];
  sequence = 3;
  total_size = 3;
  running = true;
  futures = cancelled_first;
}

dequeue-Outcome_example :
    Outcome
      (offer 20 config waiting.futures waiting.unit_queues waiting.circuit_breakers)
      waiting.round_robin
      (dequeue 20 waiting).1
dequeue-Outcome_example = dequeue-Outcome 20 waiting (refl, (refl, tt))
