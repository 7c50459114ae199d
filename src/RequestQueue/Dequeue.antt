-- ===== src/RequestQueue/Dequeue.antt =====
-- `ModbusRequestQueue._dequeue` (modbus/clients/queue.py).
use csp_lib.Base.{
  ℕ, ◌-◌, Option, none, some, List, [], ◌∷◌, ◌++◌, ltb, if◌then◌else◌, nat_equality, length, remove,
}
use csp_lib.Base.Dict.{Dict, lookup, insert, erase}
use csp_lib.Resilience.{CircuitBreaker, allows_request}
use csp_lib.RequestQueue.{
  RequestQueueConfig, ModbusRequest, ModbusRequestQueue, Future, rank, is_done, breaker_of,
}

-- The loop that clears finished requests from the top of the heap.
unfoldable pub drop_done : (ℕ → Future) → List ModbusRequest → List ModbusRequest
drop_done futures [] = []
drop_done futures (r ∷ rs) = if is_done (futures r.sequence) then drop_done futures rs else r ∷ rs

-- The best request so far, with its unit.
abbrev pub Best : Type 0
Best = Option (ModbusRequest × ℕ)

-- The variables of the loop over the round robin.
pub record Scan : Type 0 where
  pub unit_queues : Dict ℕ (List ModbusRequest)
  pub circuit_breakers : Dict ℕ CircuitBreaker
  pub total_size : ℕ
  pub best : Best
  pub stale : List ℕ

abbrev pub consider : ℕ → ModbusRequest → Best → Best
consider u r none = some (r, u)
consider u r (some (b, v)) =
    if ltb (rank r.priority) (rank b.priority) then some (r, u) else some (b, v)

module _ (now : ℕ) (config : RequestQueueConfig) (futures : ℕ → Future) where
  abbrev mark_stale : ℕ → Scan → Scan
  mark_stale u s = record s { stale = s.stale ++ u ∷ [] }

  -- After the clearing: an empty heap, or a first request.
  unfoldable pub scan_head : ℕ → List ModbusRequest → Scan → Scan
  scan_head u [] s = mark_stale u s
  scan_head u (r ∷ rs) s =
      let (cb, allowed) = allows_request now (breaker_of config (lookup u s.circuit_breakers)) in
      record s {
        circuit_breakers = insert u cb s.circuit_breakers;
        best = if allowed then consider u r s.best else s.best;
      }

  unfoldable pub scan_queue : ℕ → List ModbusRequest → Scan → Scan
  scan_queue u [] s = mark_stale u s
  scan_queue u (r ∷ rs) s =
      let q = drop_done futures (r ∷ rs) in
      scan_head u q (record s {
        unit_queues = insert u q s.unit_queues;
        total_size = s.total_size - (length (r ∷ rs) - length q);
      })

  unfoldable pub scan_unit : ℕ → Scan → Scan
  scan_unit u s = elim (lookup u s.unit_queues) [
    | none ↦ mark_stale u s
    | some q ↦ scan_queue u q s
  ]

  unfoldable pub scan : List ℕ → Scan → Scan
  scan [] s = s
  scan (u ∷ us) s = scan us (scan_unit u s)

abbrev pub start_scan : ModbusRequestQueue → Scan
start_scan q = record {
  unit_queues = q.unit_queues;
  circuit_breakers = q.circuit_breakers;
  total_size = q.total_size;
  best = none;
  stale = [];
}

abbrev pub after_scan : Scan → ModbusRequestQueue → ModbusRequestQueue
after_scan s q = record q {
  unit_queues = s.unit_queues;
  circuit_breakers = s.circuit_breakers;
  total_size = s.total_size;
}

-- The loop over the stale units. Erasing or removing what is absent changes nothing.
unfoldable pub remove_stale : List ℕ → ModbusRequestQueue → ModbusRequestQueue
remove_stale [] q = q
remove_stale (u ∷ us) q =
    remove_stale us
      (record q { unit_queues = erase u q.unit_queues; round_robin = remove u q.round_robin })

-- The rest of the unit's heap: the unit leaves the round robin, or goes to its end.
abbrev pub put_back : ℕ → List ModbusRequest → ModbusRequestQueue → ModbusRequestQueue
put_back u [] q = record q {
  unit_queues = erase u q.unit_queues;
  round_robin = remove u q.round_robin;
  total_size = q.total_size - 1;
}
put_back u (r ∷ rs) q = record q {
  unit_queues = insert u (r ∷ rs) q.unit_queues;
  round_robin = remove u q.round_robin ++ u ∷ [];
  total_size = q.total_size - 1;
}

-- `heappop` of an empty heap would raise; the chosen unit's heap has the request at its top.
unfoldable pub pop_from : ℕ → List ModbusRequest → ModbusRequestQueue → ModbusRequestQueue
pop_from u [] q = q
pop_from u (r ∷ rs) q = put_back u rs q

unfoldable pub pop_best : Best → ModbusRequestQueue → ModbusRequestQueue × Option ModbusRequest
unfolding pop_from
pop_best none q = (q, none)
pop_best (some (r, u)) q = elim (lookup u q.unit_queues) [
  | none ↦ (q, some r)
  | some queue ↦ (pop_from u queue q, some r)
]

-- `_dequeue`. With an empty round robin nothing is scanned, and nothing changes.
unfoldable pub dequeue : ℕ → ModbusRequestQueue → ModbusRequestQueue × Option ModbusRequest
dequeue now q =
    let s = scan now q.config q.futures q.round_robin (start_scan q) in
    pop_best s.best (remove_stale s.stale (after_scan s q))
