-- ===== src/RequestQueue/Structure.antt =====
-- What holds between the heaps, the round robin and the size, and that submitting keeps it
-- (modbus/clients/queue.py).
use csp_lib.Base.{
  ℕ, ◌+◌, ◌≤◌, ◌<◌, ◌≡◌, refl, ap, true, false, none, some, List, [], ◌∷◌, arith, nat_equality,
  ◌==◌, length, contains, Distinct, All, All-map, Bool-cases, inl, inr,
}
use csp_lib.Base.Dict.{Dict, lookup, member, insert, erase, keys}
use csp_lib.RequestQueue.{ModbusRequest, less, heap_push, queue_of}

-- The number of requests in the heaps.
unfoldable pub total_of : Dict ℕ (List ModbusRequest) → ℕ
total_of [] = 0
total_of (e ∷ queues) = length e.1 + total_of queues

-- Each request stands before those that it is less than, so the heap gives them in this order.
abbrev pub IsOrdered : List ModbusRequest → Type 0
IsOrdered [] = Unit
IsOrdered (r ∷ rs) = All (λ x. less r x ≡ true) rs × IsOrdered rs

-- A request of the unit, with a sequence number that was given out.
abbrev pub IsFor : ℕ → ℕ → ModbusRequest → Type 0
IsFor seq u r = (r.unit_id ≡ u) × (r.sequence ≤ seq)

abbrev pub IsHeap : ℕ → ℕ × List ModbusRequest → Type 0
IsHeap seq e = All (IsFor seq e.0) e.1 × IsOrdered e.1

abbrev pub IsTurn : List ℕ → ℕ × List ModbusRequest → Type 0
IsTurn turns e = contains e.0 turns ≡ true

abbrev pub IsQueued : Dict ℕ (List ModbusRequest) → ℕ → Type 0
IsQueued queues u = member u queues ≡ true

-- The heaps, the round robin, the size and the last sequence number fit together.
pub record Fits (queues : Dict ℕ (List ModbusRequest)) (turns : List ℕ) (total seq : ℕ)
    : Type 0 where
  pub one_each : Distinct (keys queues)
  pub turns_distinct : Distinct turns
  pub turns_queued : All (IsQueued queues) turns
  pub queues_turned : All (IsTurn turns) queues
  pub counted : total ≡ total_of queues
  pub heaps : All (IsHeap seq) queues

pub total_of-insert_old :
    (u : ℕ) (q q' : List ModbusRequest) (queues : Dict ℕ (List ModbusRequest))
    → lookup u queues ≡ some q
    → total_of (insert u q' queues) + length q ≡ total_of queues + length q'
unfolding total_of
total_of-insert_old u q q' [] h = cc
total_of-insert_old u q q' (e ∷ queues) h = elim (Bool-cases (u == e.0)) [
  | inl t ↦ let same : e.1 ≡ q = ground (arith, t, h) in rw t (omega (arith, ap length same))
  | inr f ↦ rw f (omega (arith, total_of-insert_old u q q' queues (rw f at h)))
]

pub total_of-insert_new :
    (u : ℕ) (q : List ModbusRequest) (queues : Dict ℕ (List ModbusRequest))
    → lookup u queues ≡ none
    → total_of (insert u q queues) ≡ total_of queues + length q
unfolding total_of
total_of-insert_new u q [] h = omega arith
total_of-insert_new u q (e ∷ queues) h = elim (Bool-cases (u == e.0)) [
  | inl t ↦ ground (arith, t, h)
  | inr f ↦ rw f (omega (arith, total_of-insert_new u q queues (rw f at h)))
]

pub total_of-erase :
    (u : ℕ) (queues : Dict ℕ (List ModbusRequest))
    → total_of (erase u queues) + length (queue_of (lookup u queues)) ≡ total_of queues
unfolding total_of
total_of-erase u [] = refl
total_of-erase u (e ∷ queues) = elim (Bool-cases (u == e.0)) [
  | inl t ↦ rw t (omega arith)
  | inr f ↦ rw f (omega (arith, total_of-erase u queues))
]

less_trans : (r x y : ModbusRequest) → less r x ≡ true → less x y ≡ true → less r y ≡ true
less_trans r x y h k = ground arith

less_total : (r x : ModbusRequest) → x.sequence < r.sequence → less r x ≡ false → less x r ≡ true
less_total r x h k = ground arith

pub heap_push-All :
    (P : ModbusRequest → Type 0) (r : ModbusRequest) (q : List ModbusRequest)
    → P r
    → All P q
    → All P (heap_push r q)
unfolding heap_push
heap_push-All P r [] p h = (p, tt)
heap_push-All P r (x ∷ xs) p h = elim (Bool-cases (less r x)) [
  | inl t ↦ rw t (p, h)
  | inr f ↦ rw f (h.0, heap_push-All P r xs p h.1)
]

pub heap_push-IsOrdered :
    (r : ModbusRequest) (q : List ModbusRequest)
    → All (λ x. x.sequence < r.sequence) q
    → IsOrdered q
    → IsOrdered (heap_push r q)
unfolding heap_push
heap_push-IsOrdered r [] h o = (tt, tt)
heap_push-IsOrdered r (x ∷ xs) h o = elim (Bool-cases (less r x)) [
  | inl t ↦ rw t ((t, All-map xs (λ y k. less_trans r x y t k) o.0), o)
  | inr f ↦ rw f (
    heap_push-All (λ y. less x y ≡ true) r xs (less_total r x h.0 f) o.0,
    heap_push-IsOrdered r xs h.1 o.1,
  )
]

pub length-heap_push :
    (r : ModbusRequest) (q : List ModbusRequest) → length (heap_push r q) ≡ length q + 1
unfolding heap_push
length-heap_push r [] = refl
length-heap_push r (x ∷ xs) = ground (arith, length-heap_push r xs)
