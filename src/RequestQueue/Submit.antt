-- ===== src/RequestQueue/Submit.antt =====
-- `submit` keeps the structure of the queue and its bound (modbus/clients/queue.py).
use csp_lib.Base.{
  ℕ, ◌+◌, ◌≤◌, ◌<◌, ◌≡◌, refl, true, false, Option, List, [], ◌∷◌, ◌++◌, arith, if◌then◌else◌,
  nat_equality, ==_refl, contains, Distinct, All, All-map, All-append, All-contains,
  contains-append, append_one-Distinct, Option-cases, Bool-cases, inl, inr,
}
use csp_lib.Base.Dict.{
  Dict, lookup, member, insert, lookup-insert, insert-Distinct, All-insert, All-lookup,
}
use csp_lib.Resilience.{allows_request}
use csp_lib.RequestQueue.{
  RequestPriority, ModbusRequest, ModbusRequestQueue, heap_push, queue_of, enqueue, submit, is_full,
  breaker_of,
}
use csp_lib.RequestQueue.Structure.{
  Fits, IsHeap, IsFor, IsTurn, IsQueued, total_of, total_of-insert_old, total_of-insert_new,
  heap_push-All, heap_push-IsOrdered, length-heap_push,
}

module _ (r : ModbusRequest) (queues : Dict ℕ (List ModbusRequest)) (turns : List ℕ) (total seq : ℕ)
    (next : r.sequence ≡ seq + 1) (f : Fits queues turns total seq) where
  abbrev old : List ModbusRequest
  old = queue_of (lookup r.unit_id queues)

  abbrev turns' : List ℕ
  turns' = if member r.unit_id queues then turns else turns ++ r.unit_id ∷ []

  abbrev queues' : Dict ℕ (List ModbusRequest)
  queues' = insert r.unit_id (heap_push r old) queues

  old-IsHeap : IsHeap seq (r.unit_id, old)
  old-IsHeap = elim (Option-cases (lookup r.unit_id queues)) [
    | inl missing ↦ rw missing (tt, tt)
    | inr (q, found) ↦ rw found (All-lookup (IsHeap seq) r.unit_id q queues f.heaps found)
  ]

  absent_turn : member r.unit_id queues ≡ false → contains r.unit_id turns ≡ false
  absent_turn m = elim (Bool-cases (contains r.unit_id turns)) [
    | inl t ↦
        absurd (ground (arith, m, All-contains (IsQueued queues) r.unit_id turns f.turns_queued t))
    | inr n ↦ n
  ]

  has_turn : (u : ℕ) → contains u turns ≡ true → contains u turns' ≡ true
  has_turn u h = elim (Bool-cases (member r.unit_id queues)) [
    | inl t ↦ rw t h
    | inr n ↦ rw n (rw (contains-append, h))
  ]

  own_turn : contains r.unit_id turns' ≡ true
  own_turn = elim (Option-cases (lookup r.unit_id queues)) [
    | inl missing ↦
        ground (arith, missing, contains-append r.unit_id turns (r.unit_id ∷ []), ==_refl r.unit_id)
    | inr (q, found) ↦ rw found (All-lookup (IsTurn turns) r.unit_id q queues f.queues_turned found)
  ]

  IsQueued-still : (u : ℕ) → IsQueued queues u → IsQueued queues' u
  IsQueued-still u h = ground (arith, lookup-insert u r.unit_id (heap_push r old) queues)

  turns'-Distinct : Distinct turns'
  turns'-Distinct = elim (Bool-cases (member r.unit_id queues)) [
    | inl t ↦ rw t f.turns_distinct
    | inr n ↦ rw n (append_one-Distinct r.unit_id turns f.turns_distinct (absent_turn n))
  ]

  turns'-IsQueued : All (IsQueued queues') turns'
  turns'-IsQueued =
      let before = All-map turns IsQueued-still f.turns_queued in
      elim (Bool-cases (member r.unit_id queues)) [
        | inl t ↦ rw t before
        | inr n ↦ rw n (All-append (IsQueued queues') turns (r.unit_id ∷ []) before (own, tt))
      ]
    where
      own : IsQueued queues' r.unit_id
      own = rw (lookup-insert, ==_refl r.unit_id)

  counted' : total + 1 ≡ total_of queues'
  counted' = elim (Option-cases (lookup r.unit_id queues)) [
    | inl missing ↦ rw missing (
        omega (
          arith,
          f.counted,
          total_of-insert_new r.unit_id (heap_push r []) queues missing,
          length-heap_push r [],
        ))
    | inr (q, found) ↦ rw found (
        omega (
          arith,
          f.counted,
          total_of-insert_old r.unit_id q (heap_push r q) queues found,
          length-heap_push r q,
        ))
  ]

  later : (e : ℕ × List ModbusRequest) → IsHeap seq e → IsHeap (seq + 1) e
  later e h = (All-map e.1 (λ x k. (k.0, omega arith)) h.0, h.1)

  new-IsHeap : IsHeap (seq + 1) (r.unit_id, heap_push r old)
  new-IsHeap = (
    heap_push-All (IsFor (seq + 1) r.unit_id) r old (refl, omega arith) (later _ old-IsHeap).0,
    heap_push-IsOrdered r old (All-map old (λ x k. omega (arith, k.1)) old-IsHeap.0) old-IsHeap.1,
  )

  pub push-Fits : Fits queues' turns' (total + 1) (seq + 1)
  push-Fits = record {
    one_each = insert-Distinct r.unit_id (heap_push r old) queues f.one_each;
    turns_distinct = turns'-Distinct;
    turns_queued = turns'-IsQueued;
    queues_turned =
        All-insert (IsTurn turns') r.unit_id (heap_push r old) queues own_turn
          (All-map queues (λ e h. has_turn e.0 h) f.queues_turned);
    counted = counted';
    heaps =
        All-insert (IsHeap (seq + 1)) r.unit_id (heap_push r old) queues new-IsHeap
          (All-map queues later f.heaps);
  }

-- The queue's parts fit together, and its size is within the bound, if there is one.
pub record IsValid (q : ModbusRequestQueue) : Type 0 where
  pub fits : Fits q.unit_queues q.round_robin q.total_size q.sequence
  pub bounded : 0 < q.config.max_queue_size → q.total_size ≤ q.config.max_queue_size

-- A submission keeps the queue valid, accepted or not.
pub submit-IsValid :
    (now unit_id : ℕ) (p : RequestPriority) (factory : ℕ) (timeout : Option ℕ)
    (q : ModbusRequestQueue)
    → IsValid q
    → IsValid (submit now unit_id p factory timeout q).0
unfolding submit enqueue
submit-IsValid now unit_id p factory timeout q v =
    let request : ModbusRequest = record {
      priority = p;
      unit_id = unit_id;
      coroutine_factory = factory;
      timeout = timeout;
      enqueue_time = now;
      sequence = q.sequence + 1;
    } in
    let pushed =
      push-Fits request q.unit_queues q.round_robin q.total_size q.sequence refl v.fits in
    let allowed =
      (allows_request now (breaker_of q.config (lookup unit_id q.circuit_breakers))).1 in
    elim (Bool-cases q.running) [
      | inr stopped ↦ simp stopped v
      | inl running ↦ elim (Bool-cases allowed) [
        | inr refused ↦ simp (running, refused) (record { fits = v.fits; bounded = v.bounded })
        | inl let_in ↦ elim (Bool-cases (is_full q)) [
          | inl full ↦ simp (running, let_in, full) (record { fits = v.fits; bounded = v.bounded })
          | inr room ↦
              simp (running, let_in, room)
                (record { fits = pushed; bounded = λ h. ground (arith, room, v.bounded h) })
        ]
      ]
    ]
