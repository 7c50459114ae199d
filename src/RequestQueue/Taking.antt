-- ===== src/RequestQueue/Taking.antt =====
-- `_dequeue` keeps the structure of the queue (modbus/clients/queue.py).
use csp_lib.Base.{
  ℕ, ◌-◌, ◌≤◌, ◌≡◌, refl, ap, none, some, List, [], ◌∷◌, arith, nat_equality, length, remove, All,
  All-map, Option-cases, inl, inr,
}
use csp_lib.Base.Dict.{lookup, erase, lookup-erase, All-lookup}
use csp_lib.RequestQueue.{ModbusRequest, ModbusRequestQueue, RequestQueueConfig, queue_of}
use csp_lib.RequestQueue.Structure.{Fits, IsHeap, IsTurn, total_of-erase}
use csp_lib.RequestQueue.Dequeue.{
  scan, start_scan, after_scan, remove_stale, pop_from, pop_best, Best, dequeue,
}
use csp_lib.RequestQueue.Scanning.{replace-Fits, drop-Fits, rotate-Fits, scan-ScanFits}
use csp_lib.RequestQueue.Submit.{IsValid}

-- The fit of a queue's parts, with its size at most `total`, and its configuration.
record FitsWithin (config : RequestQueueConfig) (total : ℕ) (q : ModbusRequestQueue) : Type 0 where
  fits : Fits q.unit_queues q.round_robin q.total_size q.sequence
  within : q.total_size ≤ total
  kept : q.config ≡ config

still_empty :
    (u v : ℕ) (q : ModbusRequestQueue)
    → Fits q.unit_queues q.round_robin q.total_size q.sequence
    → queue_of (lookup v q.unit_queues) ≡ []
    → queue_of (lookup v (erase u q.unit_queues)) ≡ []
still_empty u v q f h = ground (arith, h, lookup-erase v u q.unit_queues f.one_each)

remove_stale-FitsWithin :
    (us : List ℕ) (config : RequestQueueConfig) (total : ℕ) (q : ModbusRequestQueue)
    → All (λ u. queue_of (lookup u q.unit_queues) ≡ []) us
    → FitsWithin config total q
    → FitsWithin config total (remove_stale us q)
unfolding remove_stale
remove_stale-FitsWithin [] config total q h f = f
remove_stale-FitsWithin (u ∷ us) config total q h f =
    remove_stale-FitsWithin us config total _ (All-map us (λ v k. still_empty u v q f.fits k) h.1)
      (record { fits = dropped; within = f.within; kept = f.kept })
  where
    no_less : q.total_size - 0 ≡ q.total_size
    no_less = omega arith

    dropped : Fits (erase u q.unit_queues) (remove u q.round_robin) q.total_size q.sequence
    dropped =
        rw no_less at
          (rw h.0 at (drop-Fits q.unit_queues q.round_robin q.total_size q.sequence f.fits u))

pop_from-FitsWithin :
    (config : RequestQueueConfig) (u total : ℕ) (queue : List ModbusRequest)
    (q : ModbusRequestQueue)
    → lookup u q.unit_queues ≡ some queue
    → FitsWithin config total q
    → FitsWithin config total (pop_from u queue q)
unfolding pop_from
pop_from-FitsWithin config u total [] q found f = f
pop_from-FitsWithin config u total (r ∷ []) q found f = record {
  fits = rw found at (drop-Fits q.unit_queues q.round_robin q.total_size q.sequence f.fits u);
  within = omega (arith, f.within);
  kept = f.kept;
}
pop_from-FitsWithin config u total (r ∷ x ∷ xs) q found f =
    let heap = All-lookup (IsHeap q.sequence) u (r ∷ x ∷ xs) q.unit_queues f.fits.heaps found in
    let size : length (r ∷ x ∷ xs) ≤ q.total_size = omega (
      arith,
      f.fits.counted,
      total_of-erase u q.unit_queues,
      ap (λ o. length (queue_of o)) found,
    ) in
    let kept =
      replace-Fits q.unit_queues q.round_robin q.total_size q.sequence f.fits u (q.total_size - 1)
        (r ∷ x ∷ xs) (x ∷ xs) found (heap.0.1, heap.1.1) (omega (arith, size)) in
    record {
      fits = rotate-Fits _ q.round_robin (q.total_size - 1) q.sequence kept u (
          All-lookup (IsTurn q.round_robin) u (r ∷ x ∷ xs) q.unit_queues f.fits.queues_turned
            found);
      within = omega (arith, f.within);
      kept = f.kept;
    }

pop_best-FitsWithin :
    (b : Best) (config : RequestQueueConfig) (total : ℕ) (q : ModbusRequestQueue)
    → FitsWithin config total q
    → FitsWithin config total (pop_best b q).0
unfolding pop_best
pop_best-FitsWithin none config total q f = f
pop_best-FitsWithin (some (r, u)) config total q f = elim (Option-cases (lookup u q.unit_queues)) [
  | inl missing ↦ rw (missing, pop_best) f
  | inr (queue, found) ↦ rw (found, pop_best) (pop_from-FitsWithin config u total queue q found f)
]

dequeue-FitsWithin :
    (now : ℕ) (q : ModbusRequestQueue)
    → IsValid q
    → FitsWithin q.config q.total_size (dequeue now q).0
unfolding dequeue
dequeue-FitsWithin now q v =
    let s = scan now q.config q.futures q.round_robin (start_scan q) in
    let scanned =
      scan-ScanFits now q.config q.futures q.round_robin q.sequence q.total_size q.round_robin
        (start_scan q) (record { fits = v.fits; shrinks = omega arith; empty = tt }) in
    pop_best-FitsWithin s.best q.config q.total_size (remove_stale s.stale (after_scan s q)) (
      remove_stale-FitsWithin s.stale q.config q.total_size (after_scan s q) scanned.empty
        (record { fits = scanned.fits; within = scanned.shrinks; kept = refl }))

-- `_dequeue` keeps the queue valid.
pub dequeue-IsValid : (now : ℕ) (q : ModbusRequestQueue) → IsValid q → IsValid (dequeue now q).0
dequeue-IsValid now q v =
    let f = dequeue-FitsWithin now q v in
    let same = ap (λ c. c.max_queue_size) f.kept in
    record { fits = f.fits; bounded = λ h. omega (arith, f.within, v.bounded (rw same at h), same) }
