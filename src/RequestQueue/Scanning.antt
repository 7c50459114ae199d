-- ===== src/RequestQueue/Scanning.antt =====
-- The scan over the units keeps the structure of the queue (modbus/clients/queue.py).
use csp_lib.Base.{
  ℕ, ◌+◌, ◌-◌, ◌≤◌, ◌≡◌, refl, ap, true, Option, none, some, List, [], ◌∷◌, ◌++◌, arith, eqb_iff,
  nat_equality, ◌==◌, ==_refl, length, remove, contains, All, All-map, All-zip, All-append,
  All-remove, All-contains, All_but, contains-append, contains-remove_self, contains-remove_ne,
  remove-Distinct, append_one-Distinct, Bool-cases, inl, inr,
}
use csp_lib.Base.Dict.{
  Dict, lookup, insert, erase, lookup-insert, lookup-erase_ne, insert-Distinct, erase-Distinct,
  All-insert, All-lookup, All-erase, erase-All_ne,
}
use csp_lib.RequestQueue.{ModbusRequest, queue_of, Future, is_done, RequestQueueConfig}
use csp_lib.RequestQueue.Structure.{
  Fits, IsHeap, IsFor, IsOrdered, IsTurn, IsQueued, total_of-insert_old, total_of-erase,
}
use csp_lib.RequestQueue.Dequeue.{drop_done, Scan, scan_head, scan_queue, scan_unit, scan}

module _ (queues : Dict ℕ (List ModbusRequest)) (turns : List ℕ) (total seq : ℕ)
    (f : Fits queues turns total seq) where
  -- Another heap for a unit that has one.
  pub replace-Fits :
      (u total' : ℕ) (q q' : List ModbusRequest)
      → lookup u queues ≡ some q
      → IsHeap seq (u, q')
      → total' + length q ≡ total + length q'
      → Fits (insert u q' queues) turns total' seq
  replace-Fits u total' q q' found heap size = record {
    one_each = insert-Distinct u q' queues f.one_each;
    turns_distinct = f.turns_distinct;
    turns_queued =
        All-map turns (λ v h. ground (arith, h, lookup-insert v u q' queues)) f.turns_queued;
    queues_turned =
        All-insert (IsTurn turns) u q' queues
          (All-lookup (IsTurn turns) u q queues f.queues_turned found) f.queues_turned;
    counted = omega (arith, f.counted, total_of-insert_old u q q' queues found);
    heaps = All-insert (IsHeap seq) u q' queues heap f.heaps;
  }

  -- A unit leaves the queue.
  pub drop-Fits :
      (u : ℕ)
      → Fits (erase u queues) (remove u turns) (total - length (queue_of (lookup u queues))) seq
  drop-Fits u = record {
    one_each = erase-Distinct u queues f.one_each;
    turns_distinct = remove-Distinct u turns f.turns_distinct;
    turns_queued =
        All_but (IsQueued queues) (IsQueued (erase u queues)) u (remove u turns)
          (λ v ne h. rw (lookup-erase_ne v u queues ne) h)
          (contains-remove_self u turns f.turns_distinct)
          (All-remove (IsQueued queues) u turns f.turns_queued);
    queues_turned =
        All-zip (erase u queues) (λ e ne h. rw (contains-remove_ne e.0 u turns ne) h)
          (erase-All_ne u queues f.one_each) (All-erase (IsTurn turns) u queues f.queues_turned);
    counted = omega (arith, f.counted, total_of-erase u queues);
    heaps = All-erase (IsHeap seq) u queues f.heaps;
  }

  -- A unit goes to the end of the round robin.
  pub rotate-Fits :
      (u : ℕ) → contains u turns ≡ true → Fits queues (remove u turns ++ u ∷ []) total seq
  rotate-Fits u h = record {
    one_each = f.one_each;
    turns_distinct =
        append_one-Distinct u (remove u turns) (remove-Distinct u turns f.turns_distinct)
          (contains-remove_self u turns f.turns_distinct);
    turns_queued =
        All-append (IsQueued queues) (remove u turns) (u ∷ [])
          (All-remove (IsQueued queues) u turns f.turns_queued)
          (All-contains (IsQueued queues) u turns f.turns_queued h, tt);
    queues_turned = All-map queues (λ e k. moved e.0 k) f.queues_turned;
    counted = f.counted;
    heaps = f.heaps;
  }
    where
      moved : (v : ℕ) → contains v turns ≡ true → contains v (remove u turns ++ u ∷ []) ≡ true
      moved v k = elim (Bool-cases (v == u)) [
        | inl t ↦ ground (arith, t, contains-append v (remove u turns) (u ∷ []))
        | inr n ↦
            ground (
              arith,
              k,
              contains-append v (remove u turns) (u ∷ []),
              contains-remove_ne v u turns n,
            )
      ]

drop_done-All :
    (P : ModbusRequest → Type 0) (futures : ℕ → Future) (q : List ModbusRequest)
    → All P q
    → All P (drop_done futures q)
unfolding drop_done
drop_done-All P futures [] h = h
drop_done-All P futures (r ∷ rs) h = elim (Bool-cases (is_done (futures r.sequence))) [
  | inl t ↦ rw t (drop_done-All P futures rs h.1)
  | inr n ↦ rw n h
]

drop_done-IsOrdered :
    (futures : ℕ → Future) (q : List ModbusRequest) → IsOrdered q → IsOrdered (drop_done futures q)
unfolding drop_done
drop_done-IsOrdered futures [] h = h
drop_done-IsOrdered futures (r ∷ rs) h = elim (Bool-cases (is_done (futures r.sequence))) [
  | inl t ↦ rw t (drop_done-IsOrdered futures rs h.1)
  | inr n ↦ rw n h
]

pub length-drop_done :
    (futures : ℕ → Future) (q : List ModbusRequest) → length (drop_done futures q) ≤ length q
unfolding drop_done
length-drop_done futures [] = omega arith
length-drop_done futures (r ∷ rs) = ground (arith, length-drop_done futures rs)

-- The parts of a scan fit together, and the size has not grown.
pub record ScanFits (turns : List ℕ) (seq total : ℕ) (s : Scan) : Type 0 where
  pub fits : Fits s.unit_queues turns s.total_size seq
  pub shrinks : s.total_size ≤ total
  -- The units found empty have no request.
  pub empty : All (λ u. queue_of (lookup u s.unit_queues) ≡ []) s.stale

module _ (now : ℕ) (config : RequestQueueConfig) (futures : ℕ → Future) (turns : List ℕ)
    (seq total : ℕ) where
  scan_head-ScanFits :
      (u : ℕ) (q : List ModbusRequest) (s : Scan)
      → lookup u s.unit_queues ≡ some q
      → ScanFits turns seq total s
      → ScanFits turns seq total (scan_head now config futures u q s)
  unfolding scan_head
  scan_head-ScanFits u [] s found f = record {
    fits = f.fits;
    shrinks = f.shrinks;
    empty = All-append _ s.stale (u ∷ []) f.empty (ap queue_of found, tt);
  }
  scan_head-ScanFits u (r ∷ rs) s found f = record {
    fits = f.fits;
    shrinks = f.shrinks;
    empty = f.empty;
  }

  cleared :
      (u : ℕ) (r : ModbusRequest) (rs : List ModbusRequest) (s : Scan)
      → lookup u s.unit_queues ≡ some (r ∷ rs)
      → ScanFits turns seq total s
      → let q = drop_done futures (r ∷ rs) in
        ScanFits turns seq total (record s {
          unit_queues = insert u q s.unit_queues;
          total_size = s.total_size - (length (r ∷ rs) - length q);
        })
  cleared u r rs s found f =
      let q = drop_done futures (r ∷ rs) in
      let heap = All-lookup (IsHeap seq) u (r ∷ rs) s.unit_queues f.fits.heaps found in
      let size : length (r ∷ rs) ≤ s.total_size = omega (
        arith,
        f.fits.counted,
        total_of-erase u s.unit_queues,
        ap (λ o. length (queue_of o)) found,
      ) in
      let shorter = length-drop_done futures (r ∷ rs) in
      record {
        fits =
            replace-Fits s.unit_queues turns s.total_size seq f.fits u
              (s.total_size - (length (r ∷ rs) - length q)) (r ∷ rs) q found
              (
                drop_done-All (IsFor seq u) futures (r ∷ rs) heap.0,
                drop_done-IsOrdered futures (r ∷ rs) heap.1,
              )
              (omega (arith, size, shorter));
        shrinks = omega (arith, f.shrinks);
        empty =
            All-map s.stale
              (λ v h. ground (arith, h, found, eqb_iff v u, lookup-insert v u q s.unit_queues))
              f.empty;
      }

  scan_unit-ScanFits :
      (u : ℕ) (s : Scan)
      → ScanFits turns seq total s
      → ScanFits turns seq total (scan_unit now config futures u s)
  unfolding scan_unit scan_queue
  scan_unit-ScanFits u s f = at (lookup u s.unit_queues) refl
    where
      stale :
          queue_of (lookup u s.unit_queues) ≡ []
          → ScanFits turns seq total (record s { stale = s.stale ++ u ∷ [] })
      stale h = record {
        fits = f.fits;
        shrinks = f.shrinks;
        empty = All-append _ s.stale (u ∷ []) f.empty (h, tt);
      }

      at :
          (o : Option (List ModbusRequest))
          → lookup u s.unit_queues ≡ o
          → ScanFits turns seq total (scan_unit now config futures u s)
      at none e = rw (e, scan_unit) (stale (ap queue_of e))
      at (some []) e = rw (e, scan_unit) (stale (ap queue_of e))
      at (some (r ∷ rs)) e =
          rw (e, scan_unit)
            (scan_head-ScanFits u (drop_done futures (r ∷ rs)) _ (rw (lookup-insert, ==_refl u))
              (cleared u r rs s e f))

  pub scan-ScanFits :
      (us : List ℕ) (s : Scan)
      → ScanFits turns seq total s
      → ScanFits turns seq total (scan now config futures us s)
  unfolding scan
  scan-ScanFits [] s f = f
  scan-ScanFits (u ∷ us) s f =
      scan-ScanFits us (scan_unit now config futures u s) (scan_unit-ScanFits u s f)
