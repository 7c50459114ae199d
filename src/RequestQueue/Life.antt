-- ===== src/RequestQueue/Life.antt =====
-- Every event in the life of the queue keeps its structure (modbus/clients/queue.py).
use csp_lib.Base.{ℕ, ◌≡◌, refl, Option, List, [], ◌∷◌, arith, nat_equality}
use csp_lib.RequestQueue.{
  ModbusRequest, ModbusRequestQueue, RequestQueueConfig, RequestPriority, submit, wait_timeout,
  start, request_stop, clear_queues, begin, finish, Reply, returned, raised, new,
}
use csp_lib.RequestQueue.Structure.{total_of}
use csp_lib.RequestQueue.Dequeue.{dequeue}
use csp_lib.RequestQueue.Submit.{IsValid, submit-IsValid}
use csp_lib.RequestQueue.Taking.{dequeue-IsValid}

-- What happens to the queue: a call, a wait that times out, or a step of the worker.
pub data Event : Type 0 where
  submitted : (now unit_id : ℕ) → RequestPriority → (factory : ℕ) → Option ℕ → Event
  timed_out : ℕ → Event
  dequeued : ℕ → Event
  begun : ℕ → ModbusRequest → Event
  finished : (now draw : ℕ) → Reply → ModbusRequest → Event
  started stop_requested cleared_out : Event

pub step : Event → ModbusRequestQueue → ModbusRequestQueue
step (submitted now u p factory timeout) q = (submit now u p factory timeout q).0
step (timed_out seq) q = wait_timeout seq q
step (dequeued now) q = (dequeue now q).0
step (begun now r) q = (begin now r q).0
step (finished now draw reply r) q = finish now draw reply r q
step started q = start q
step stop_requested q = request_stop q
step cleared_out q = clear_queues q

-- An operation that leaves the heaps, the round robin, the size and the configuration alone.
record Leaves (q q' : ModbusRequestQueue) : Type 0 where
  heaps : q'.unit_queues ≡ q.unit_queues
  turns : q'.round_robin ≡ q.round_robin
  size : q'.total_size ≡ q.total_size
  numbers : q'.sequence ≡ q.sequence
  configured : q'.config ≡ q.config

Leaves-IsValid : (q q' : ModbusRequestQueue) → Leaves q q' → IsValid q → IsValid q'
Leaves-IsValid q q' l v = record {
  fits = rw (l.heaps, l.turns, l.size, l.numbers) v.fits;
  bounded = rw (l.size, l.configured) v.bounded;
}

wait_timeout-Leaves : (seq : ℕ) (q : ModbusRequestQueue) → Leaves q (wait_timeout seq q)
unfolding wait_timeout
wait_timeout-Leaves seq q = ground arith

begin-Leaves : (now : ℕ) (r : ModbusRequest) (q : ModbusRequestQueue) → Leaves q (begin now r q).0
unfolding begin
begin-Leaves now r q = ground arith

finish-Leaves :
    (now draw : ℕ) (reply : Reply) (r : ModbusRequest) (q : ModbusRequestQueue)
    → Leaves q (finish now draw reply r q)
unfolding finish
finish-Leaves now draw (returned v) r q = ground arith
finish-Leaves now draw (raised x) r q = ground arith

clear_queues-IsValid : (q : ModbusRequestQueue) → IsValid (clear_queues q)
unfolding clear_queues total_of
clear_queues-IsValid q = record {
  fits = record {
    one_each = tt;
    turns_distinct = tt;
    turns_queued = tt;
    queues_turned = tt;
    counted = refl;
    heaps = tt;
  };
  bounded = λ h. omega arith;
}

step-IsValid : (e : Event) (q : ModbusRequestQueue) → IsValid q → IsValid (step e q)
unfolding step start request_stop
step-IsValid (submitted now u p factory timeout) q v = submit-IsValid now u p factory timeout q v
step-IsValid (timed_out seq) q v = Leaves-IsValid q _ (wait_timeout-Leaves seq q) v
step-IsValid (dequeued now) q v = dequeue-IsValid now q v
step-IsValid (begun now r) q v = Leaves-IsValid q _ (begin-Leaves now r q) v
step-IsValid (finished now draw reply r) q v =
    Leaves-IsValid q _ (finish-Leaves now draw reply r q) v
step-IsValid started q v = record { fits = v.fits; bounded = v.bounded }
step-IsValid stop_requested q v = record { fits = v.fits; bounded = v.bounded }
step-IsValid cleared_out q v = clear_queues-IsValid q

pub run_events : List Event → ModbusRequestQueue → ModbusRequestQueue
run_events [] q = q
run_events (e ∷ es) q = run_events es (step e q)

run_events-keeps :
    (es : List Event) (q : ModbusRequestQueue) → IsValid q → IsValid (run_events es q)
unfolding run_events
run_events-keeps [] q v = v
run_events-keeps (e ∷ es) q v = run_events-keeps es (step e q) (step-IsValid e q v)

-- After any sequence of events on a new queue the size counts the requests in the heaps and is
-- within the bound, if there is one; the round robin has each unit with a heap once, and no
-- other; and every heap holds the requests of its own unit, in the order of `__lt__`.
pub run_events-IsValid :
    (es : List Event) (config : RequestQueueConfig) → IsValid (run_events es (new config))
unfolding new clear_queues
run_events-IsValid es config = run_events-keeps es _ (clear_queues-IsValid (new config))
