-- ===== src/RequestQueue/Choice.antt =====
-- Which request `_dequeue` takes (modbus/clients/queue.py).
use csp_lib.Base.{
  ℕ, ◌≤◌, ◌≡◌, refl, ◌∙◌, true, false, Option, none, some, List, [], ◌∷◌, arith, if◌then◌else◌,
  nat_equality, contains, Distinct, All, All-map, Option-cases, inl, inr, eqb,
}
use csp_lib.Base.Dict.{Dict, lookup, lookup-insert}
use csp_lib.Resilience.{CircuitBreaker, allows_request}
use csp_lib.RequestQueue.{ModbusRequest, RequestQueueConfig, rank, queue_of, Future, breaker_of}
use csp_lib.RequestQueue.Dequeue.{
  Scan, drop_done, consider, scan_head, scan_queue, scan_unit, scan, Best,
}

drop_done-nil : (futures : ℕ → Future) → drop_done futures [] ≡ []
unfolding drop_done
drop_done-nil futures = refl

-- The first offer of the least rank, in the order of the units, from the best so far.
unfoldable pub choose : (ℕ → Option ModbusRequest) → List ℕ → Best → Best
choose offers [] best = best
choose offers (u ∷ us) best = elim (offers u) [
  | none ↦ choose offers us best
  | some r ↦ choose offers us (consider u r best)
]

choose-agree :
    (f g : ℕ → Option ModbusRequest) (us : List ℕ) (best : Best)
    → All (λ v. f v ≡ g v) us
    → choose f us best ≡ choose g us best
unfolding choose
choose-agree f g [] best h = refl
choose-agree f g (u ∷ us) best h = elim (Option-cases (g u)) [
  | inl missing ↦ ground (arith, h.0, missing, choose-agree f g us best h.1)
  | inr (r, found) ↦ ground (arith, h.0, found, choose-agree f g us (consider u r best) h.1)
]

apart_from : (u : ℕ) (us : List ℕ) → contains u us ≡ false → All (λ v. eqb v u ≡ false) us
apart_from u [] h = tt
apart_from u (v ∷ us) h = (ground (arith, h), apart_from u us (ground (arith, h)))

module _ (now : ℕ) (config : RequestQueueConfig) (futures : ℕ → Future) where
  -- The first request of a heap, if the unit's breaker lets it through.
  abbrev head_if_allowed : List ModbusRequest → Option CircuitBreaker → Option ModbusRequest
  head_if_allowed [] cb = none
  head_if_allowed (r ∷ rs) cb =
      if (allows_request now (breaker_of config cb)).1 then some r else none

  -- The request that a unit offers: the first that is still waited for, if the breaker allows.
  unfoldable pub offer :
      Dict ℕ (List ModbusRequest) → Dict ℕ CircuitBreaker → ℕ → Option ModbusRequest
  offer queues breakers u =
      head_if_allowed (drop_done futures (queue_of (lookup u queues))) (lookup u breakers)

  abbrev considered : ℕ → Option ModbusRequest → Best → Best
  considered u none best = best
  considered u (some r) best = consider u r best

  scan_unit-best :
      (u : ℕ) (s : Scan)
      → (scan_unit now config futures u s).best
        ≡ considered u (offer s.unit_queues s.circuit_breakers u) s.best
  unfolding scan_unit scan_queue scan_head offer
  scan_unit-best u s = at (lookup u s.unit_queues) refl
    where
      at :
          (o : Option (List ModbusRequest))
          → lookup u s.unit_queues ≡ o
          → (scan_unit now config futures u s).best
            ≡ considered u (offer s.unit_queues s.circuit_breakers u) s.best
      at none e = ground (arith, e, drop_done-nil futures)
      at (some []) e = ground (arith, e, drop_done-nil futures)
      at (some (r ∷ rs)) e = ground (arith, e)

  -- What the scan does to one unit is not seen at another.
  scan_unit_apart :
      (u v : ℕ) (s : Scan)
      → eqb v u ≡ false
      → (lookup v (scan_unit now config futures u s).unit_queues ≡ lookup v s.unit_queues)
        × (lookup v (scan_unit now config futures u s).circuit_breakers
            ≡ lookup v s.circuit_breakers)
  unfolding scan_unit scan_queue scan_head
  scan_unit_apart u v s apart = at (lookup u s.unit_queues) refl
    where
      after_head :
          (q : List ModbusRequest) (s' : Scan)
          → lookup v s'.unit_queues ≡ lookup v s.unit_queues
          → lookup v s'.circuit_breakers ≡ lookup v s.circuit_breakers
          → (lookup v (scan_head now config futures u q s').unit_queues ≡ lookup v s.unit_queues)
            × (lookup v (scan_head now config futures u q s').circuit_breakers
                ≡ lookup v s.circuit_breakers)
      after_head [] s' h k = (h, k)
      after_head (r ∷ rs) s' h k = (h, rw (lookup-insert, apart) k)

      at :
          (o : Option (List ModbusRequest))
          → lookup u s.unit_queues ≡ o
          → (lookup v (scan_unit now config futures u s).unit_queues ≡ lookup v s.unit_queues)
            × (lookup v (scan_unit now config futures u s).circuit_breakers
                ≡ lookup v s.circuit_breakers)
      at none e = rw (e, scan_unit) (refl, refl)
      at (some []) e = rw (e, scan_unit) (refl, refl)
      at (some (r ∷ rs)) e =
          rw (e, scan_unit)
            (after_head (drop_done futures (r ∷ rs)) _ (rw (lookup-insert, apart)) refl)

  pub scan-best :
      (us : List ℕ) (s : Scan)
      → Distinct us
      → (scan now config futures us s).best
        ≡ choose (offer s.unit_queues s.circuit_breakers) us s.best
  unfolding scan choose
  scan-best [] s d = refl
  scan-best (u ∷ us) s d =
      let s' = scan_unit now config futures u s in
      scan-best us s' d.1
      ∙ choose-agree (offer s'.unit_queues s'.circuit_breakers)
          (offer s.unit_queues s.circuit_breakers) us s'.best
          (All-map us (λ v apart. same_offer v apart) (apart_from u us d.0))
      ∙ first (offer s.unit_queues s.circuit_breakers u) refl
    where
      same_offer :
          (v : ℕ)
          → eqb v u ≡ false
          → offer
              (scan_unit now config futures u s).unit_queues
              (scan_unit now config futures u s).circuit_breakers
              v
            ≡ offer s.unit_queues s.circuit_breakers v
      same_offer v apart = let (a, b) = scan_unit_apart u v s apart in unfold offer in rw (a, b)

      first :
          (o : Option ModbusRequest)
          → offer s.unit_queues s.circuit_breakers u ≡ o
          → choose
              (offer s.unit_queues s.circuit_breakers)
              us
              (scan_unit now config futures u s).best
            ≡ choose (offer s.unit_queues s.circuit_breakers) (u ∷ us) s.best
      first none e = rw (scan_unit-best, e) (rw (e, choose))
      first (some r) e = rw (scan_unit-best, e) (rw (e, choose))

-- The request is offered by one of the units, and no unit offers one of a lower rank.
pub record IsLeast (offers : ℕ → Option ModbusRequest) (us : List ℕ) (r : ModbusRequest)
    : Type 0 where
  pub unit : ℕ
  pub in_turn : contains unit us ≡ true
  pub offered : offers unit ≡ some r
  pub least :
      All (λ v. (x : ModbusRequest) → offers v ≡ some x → rank r.priority ≤ rank x.priority) us
