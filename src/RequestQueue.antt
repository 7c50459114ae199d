-- ===== src/RequestQueue.antt =====
-- The Modbus request queue, csp_lib/modbus/clients/queue.py: its data and the two ends of a
-- request, `submit` and the worker's handling. Taking a request out is in RequestQueue/Dequeue.
-- A future is found by its request's sequence number; a coroutine factory, a result and an
-- exception are numbers for the objects. A heap is the list of its requests in the order in
-- which `heappop` gives them, so its first element is `queue[0]`.
pub mod Dequeue
pub mod Structure
pub mod Submit
pub mod Scanning
pub mod Taking
pub mod Choice
pub mod Least
pub mod Life
mod Tests
use csp_lib.Base.{
  ℕ, ◌+◌, ◌-◌, Bool, true, false, not, ◌&&◌, Option, none, some, List, [], ◌∷◌, ◌++◌, ltb, leb, eqb,
  max, if◌then◌else◌, nat_equality, length, is_some,
}
use csp_lib.Base.Dict.{Dict, lookup, member, insert}
use csp_lib.Resilience.{CircuitBreaker, allows_request, record_success, record_failure}
use csp_lib.Resilience

pub record RequestQueueConfig : Type 0 where
  pub default_timeout : ℕ
  pub circuit_breaker_threshold : ℕ
  pub circuit_breaker_cooldown : ℕ
  pub max_queue_size : ℕ
  pub drain_timeout : ℕ

-- `RequestPriority`, an `IntEnum`.
pub data RequestPriority : Type 0 where
  write read : RequestPriority

abbrev pub rank : RequestPriority → ℕ
rank write = 0
rank read = 1

pub record ModbusRequest : Type 0 where
  pub priority : RequestPriority
  pub unit_id : ℕ
  pub coroutine_factory : ℕ
  pub timeout : Option ℕ
  pub enqueue_time : ℕ
  pub sequence : ℕ

-- `ModbusRequest.__lt__`.
abbrev pub less : ModbusRequest → ModbusRequest → Bool
less r s =
    if eqb (rank r.priority) (rank s.priority)
    then ltb r.sequence s.sequence
    else ltb (rank r.priority) (rank s.priority)

-- `heappush`.
unfoldable pub heap_push : ModbusRequest → List ModbusRequest → List ModbusRequest
heap_push r [] = r ∷ []
heap_push r (x ∷ xs) = if less r x then r ∷ x ∷ xs else x ∷ heap_push r xs

pub data Failure : Type 0 where
  breaker_open : ℕ → Failure
  exception : ℕ → Failure

pub data Future : Type 0 where
  pending cancelled : Future
  result : ℕ → Future
  failure : Failure → Future

-- `future.done()`, which holds of a cancelled future too.
abbrev pub is_done : Future → Bool
is_done pending = false
is_done cancelled = true
is_done (result v) = true
is_done (failure f) = true

pub record ModbusRequestQueue : Type 0 where
  pub config : RequestQueueConfig
  pub unit_queues : Dict ℕ (List ModbusRequest)
  pub round_robin : List ℕ
  pub circuit_breakers : Dict ℕ CircuitBreaker
  pub sequence : ℕ
  pub total_size : ℕ
  pub running : Bool
  pub futures : ℕ → Future

-- `__init__`.
unfoldable pub new : RequestQueueConfig → ModbusRequestQueue
new config = record {
  config = config;
  unit_queues = [];
  round_robin = [];
  circuit_breakers = [];
  sequence = 0;
  total_size = 0;
  running = false;
  futures = λ seq. pending;
}

abbrev pub set_future : ℕ → Future → (ℕ → Future) → ℕ → Future
set_future seq f futures k = if eqb k seq then f else futures k

-- `_get_circuit_breaker`, by the entry that the dict has for the unit. The largest cooldown and
-- the backoff factor are the defaults of `CircuitBreaker`.
unfoldable pub breaker_of : RequestQueueConfig → Option CircuitBreaker → CircuitBreaker
breaker_of config none =
    Resilience.new config.circuit_breaker_threshold config.circuit_breaker_cooldown 300000 2
breaker_of config (some cb) = cb

abbrev pub queue_of : Option (List ModbusRequest) → List ModbusRequest
queue_of none = []
queue_of (some q) = q

pub data Submission : Type 0 where
  accepted : ℕ → Submission
  not_running queue_full : Submission
  circuit_open : ℕ → Submission

-- `max_queue_size > 0 and total_size >= max_queue_size`.
abbrev pub is_full : ModbusRequestQueue → Bool
is_full q = ltb 0 q.config.max_queue_size && leb q.config.max_queue_size q.total_size

-- The part of `submit` under the lock, after the test for a full queue.
unfoldable pub enqueue :
    (now unit_id : ℕ)
    → RequestPriority
    → (factory : ℕ) → Option ℕ
    → ModbusRequestQueue
    → ModbusRequestQueue
enqueue now unit_id priority factory timeout q =
    let seq = q.sequence + 1 in
    let request : ModbusRequest = record {
      priority = priority;
      unit_id = unit_id;
      coroutine_factory = factory;
      timeout = timeout;
      enqueue_time = now;
      sequence = seq;
    } in
    record q {
      sequence = seq;
      futures = set_future seq pending q.futures;
      unit_queues =
          insert unit_id (heap_push request (queue_of (lookup unit_id q.unit_queues)))
            q.unit_queues;
      round_robin =
          if member unit_id q.unit_queues then q.round_robin else q.round_robin ++ unit_id ∷ [];
      total_size = q.total_size + 1;
    }

-- `submit` up to its wait for the future. What the wait then does is `wait_timeout`.
unfoldable pub submit :
    (now unit_id : ℕ)
    → RequestPriority
    → (factory : ℕ) → Option ℕ
    → ModbusRequestQueue
    → ModbusRequestQueue × Submission
submit now unit_id priority factory timeout q =
    let (cb, allowed) =
      allows_request now (breaker_of q.config (lookup unit_id q.circuit_breakers)) in
    let q' = record q { circuit_breakers = insert unit_id cb q.circuit_breakers } in
    if not q.running
    then (q, not_running)
    else if not allowed
    then (q', circuit_open unit_id)
    else if is_full q'
    then (q', queue_full)
    else (enqueue now unit_id priority factory timeout q', accepted (q'.sequence + 1))

-- The wait of `submit` times out: `future.cancel()`, which does nothing to a done future.
unfoldable pub wait_timeout : ℕ → ModbusRequestQueue → ModbusRequestQueue
wait_timeout seq q =
    if is_done (q.futures seq) then q else record q { futures = set_future seq cancelled q.futures }

-- `start`.
unfoldable pub start : ModbusRequestQueue → ModbusRequestQueue
start q = record q { running = true }

-- `stop` up to its wait for the worker.
unfoldable pub request_stop : ModbusRequestQueue → ModbusRequestQueue
request_stop q = record q { running = false }

abbrev cancel_request : ModbusRequest → (ℕ → Future) → ℕ → Future
cancel_request r futures =
    if is_done (futures r.sequence) then futures else set_future r.sequence cancelled futures

unfoldable pub cancel_queue : List ModbusRequest → (ℕ → Future) → ℕ → Future
cancel_queue [] futures = futures
cancel_queue (r ∷ rs) futures = cancel_queue rs (cancel_request r futures)

unfoldable pub cancel_queues : Dict ℕ (List ModbusRequest) → (ℕ → Future) → ℕ → Future
cancel_queues [] futures = futures
cancel_queues (e ∷ queues) futures = cancel_queues queues (cancel_queue e.1 futures)

-- The end of `stop`, when the worker is gone: what is left is cancelled.
unfoldable pub clear_queues : ModbusRequestQueue → ModbusRequestQueue
unfolding cancel_queues
clear_queues q = record q {
  futures = cancel_queues q.unit_queues q.futures;
  unit_queues = [];
  round_robin = [];
  total_size = 0;
}

-- What the worker does with a request that it took out.
pub data Decision : Type 0 where
  skip refuse : Decision
  run_for : ℕ → Decision

abbrev or_default : Option ℕ → ℕ → ℕ
or_default none d = d
or_default (some t) d = t

-- The worker before it runs the coroutine: the timeout left is at least half a second.
unfoldable pub begin : ℕ → ModbusRequest → ModbusRequestQueue → ModbusRequestQueue × Decision
begin now r q =
    let (cb, allowed) =
      allows_request now (breaker_of q.config (lookup r.unit_id q.circuit_breakers)) in
    let q' = record q { circuit_breakers = insert r.unit_id cb q.circuit_breakers } in
    if is_done (q.futures r.sequence)
    then (q, skip)
    else if not allowed
    then (
      record q' { futures = set_future r.sequence (failure (breaker_open r.unit_id)) q'.futures },
      refuse,
    )
    else (
      q',
      run_for (max (or_default r.timeout q.config.default_timeout - (now - r.enqueue_time)) 500),
    )

-- The coroutine's result, or an exception, a timeout among them.
pub data Reply : Type 0 where
  returned raised : ℕ → Reply

abbrev settle : ℕ → Future → (ℕ → Future) → ℕ → Future
settle seq f futures = if is_done (futures seq) then futures else set_future seq f futures

-- The worker when the coroutine is over.
unfoldable pub finish :
    (now draw : ℕ) → Reply → ModbusRequest → ModbusRequestQueue → ModbusRequestQueue
finish now draw (returned v) r q =
    let cb = breaker_of q.config (lookup r.unit_id q.circuit_breakers) in
    record q {
      circuit_breakers = insert r.unit_id (record_success cb) q.circuit_breakers;
      futures = settle r.sequence (result v) q.futures;
    }
finish now draw (raised x) r q =
    let cb = breaker_of q.config (lookup r.unit_id q.circuit_breakers) in
    record q {
      circuit_breakers = insert r.unit_id (record_failure now draw cb) q.circuit_breakers;
      futures = settle r.sequence (failure (exception x)) q.futures;
    }
