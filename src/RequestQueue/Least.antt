-- ===== src/RequestQueue/Least.antt =====
-- `_dequeue` takes a request of the least rank (modbus/clients/queue.py).
use csp_lib.Base.{
  ℕ, ◌≤◌, ◌≡◌, refl, sym, ap, ◌∙◌, true, Option, none, some, List, [], ◌∷◌, arith, ltb,
  nat_equality, ==_refl, contains, Distinct, All, Option-cases, Bool-cases, inl, inr, ◌⊎◌,
}
use csp_lib.Base.Dict.{lookup}
use csp_lib.RequestQueue.{ModbusRequest, ModbusRequestQueue, rank}
use csp_lib.RequestQueue.Dequeue.{
  scan, start_scan, pop_best, Best, dequeue, after_scan, remove_stale,
}
use csp_lib.RequestQueue.Choice.{choose, IsLeast, offer, scan-best}

abbrev Offered : (ℕ → Option ModbusRequest) → List ℕ → ModbusRequest → Type 0
Offered offers us r = (u : ℕ) × (contains u us ≡ true) × (offers u ≡ some r)

abbrev NoneBelow : (ℕ → Option ModbusRequest) → List ℕ → ModbusRequest → Type 0
NoneBelow offers us r =
    All (λ v. (x : ModbusRequest) → offers v ≡ some x → rank r.priority ≤ rank x.priority) us

-- The choice from a best request so far.
record Chosen (offers : ℕ → Option ModbusRequest) (us : List ℕ) (b : ModbusRequest) (w : ℕ)
    : Type 0 where
  request : ModbusRequest
  unit : ℕ
  result : choose offers us (some (b, w)) ≡ some (request, unit)
  origin : (request ≡ b) ⊎ Offered offers us request
  at_most : rank request.priority ≤ rank b.priority
  least : NoneBelow offers us request

later :
    (offers : ℕ → Option ModbusRequest) (u : ℕ) (us : List ℕ) (r b : ModbusRequest)
    → (r ≡ b) ⊎ Offered offers us r
    → (r ≡ b) ⊎ Offered offers (u ∷ us) r
later offers u us r b (inl e) = inl e
later offers u us r b (inr (v, at, e)) = inr (v, ground (arith, at), e)

chosen_first :
    (offers : ℕ → Option ModbusRequest) (u : ℕ) (us : List ℕ) (r x : ModbusRequest)
    → offers u ≡ some x
    → (r ≡ x) ⊎ Offered offers us r
    → Offered offers (u ∷ us) r
chosen_first offers u us r x found (inl e) = (u, ground (arith, ==_refl u), found ∙ ap some (sym e))
chosen_first offers u us r x found (inr (v, at, e)) = (v, ground (arith, at), e)

choose-Chosen :
    (offers : ℕ → Option ModbusRequest) (us : List ℕ) (b : ModbusRequest) (w : ℕ)
    → Chosen offers us b w
unfolding choose
choose-Chosen offers [] b w = record {
  request = b;
  unit = w;
  result = refl;
  origin = inl refl;
  at_most = omega arith;
  least = tt;
}
choose-Chosen offers (u ∷ us) b w = elim (Option-cases (offers u)) [
  | inl missing ↦
      let c = choose-Chosen offers us b w in
      record {
        request = c.request;
        unit = c.unit;
        result = rw (missing, choose) c.result;
        origin = later offers u us c.request b c.origin;
        at_most = c.at_most;
        least = ((λ x e. cc missing), c.least);
      }
  | inr (x, found) ↦ elim (Bool-cases (ltb (rank x.priority) (rank b.priority))) [
    | inl below ↦
        let c = choose-Chosen offers us x u in
        record {
          request = c.request;
          unit = c.unit;
          result = ground (arith, found, below, c.result);
          origin = inr (chosen_first offers u us c.request x found c.origin);
          at_most = ground (arith, below, c.at_most);
          least = ((λ y e. ground (arith, found, e, c.at_most)), c.least);
        }
    | inr above ↦
        let c = choose-Chosen offers us b w in
        record {
          request = c.request;
          unit = c.unit;
          result = ground (arith, found, above, c.result);
          origin = later offers u us c.request b c.origin;
          at_most = c.at_most;
          least = ((λ y e. ground (arith, found, e, above, c.at_most)), c.least);
        }
  ]
]

abbrev request_of : Best → Option ModbusRequest
request_of none = none
request_of (some (r, u)) = some r

-- Nothing is offered and nothing taken, or the request taken is a least offer.
pub data Outcome (offers : ℕ → Option ModbusRequest) (us : List ℕ)
    : Option ModbusRequest → Type 0 where
  nothing : All (λ u. offers u ≡ none) us → Outcome offers us none
  taken : {r : ModbusRequest} → IsLeast offers us r → Outcome offers us (some r)

skip_unit :
    (offers : ℕ → Option ModbusRequest) (u : ℕ) (us : List ℕ) (o : Option ModbusRequest)
    → offers u ≡ none
    → Outcome offers us o
    → Outcome offers (u ∷ us) o
skip_unit offers u us none missing (nothing h) = nothing (missing, h)
skip_unit offers u us (some r) missing (taken l) = taken (record {
  unit = l.unit;
  in_turn = ground (arith, l.in_turn);
  offered = l.offered;
  least = ((λ x e. cc missing), l.least);
})

choose-Outcome :
    (offers : ℕ → Option ModbusRequest) (us : List ℕ)
    → Outcome offers us (request_of (choose offers us none))
unfolding choose
choose-Outcome offers [] = nothing tt
choose-Outcome offers (u ∷ us) = elim (Option-cases (offers u)) [
  | inl missing ↦ rw (missing, choose) (skip_unit offers u us _ missing (choose-Outcome offers us))
  | inr (x, found) ↦
      let c = choose-Chosen offers us x u in
      let at = chosen_first offers u us c.request x found c.origin in
      rw (found, choose)
        (rw c.result (
          taken (record {
            unit = at.0;
            in_turn = at.1;
            offered = at.2;
            least = ((λ y e. ground (arith, found, e, c.at_most)), c.least);
          })))
]

pop_best-request : (b : Best) (q : ModbusRequestQueue) → (pop_best b q).1 ≡ request_of b
unfolding pop_best
pop_best-request none q = refl
pop_best-request (some (r, u)) q = elim (Option-cases (lookup u q.unit_queues)) [
  | inl missing ↦ ground (arith, missing)
  | inr (queue, found) ↦ ground (arith, found)
]

-- `_dequeue` returns a request that some unit in the round robin offers (the first of its heap
-- that is not done, its circuit breaker allowing), of a rank that no other offer is below, so a
-- write is never passed over for a read; it returns none only when no unit offers one. The round
-- robin has no unit twice.
pub dequeue-Outcome :
    (now : ℕ) (q : ModbusRequestQueue)
    → Distinct q.round_robin
    → Outcome
        (offer now q.config q.futures q.unit_queues q.circuit_breakers)
        q.round_robin
        (dequeue now q).1
unfolding dequeue
dequeue-Outcome now q d =
    let s = scan now q.config q.futures q.round_robin (start_scan q) in
    let same =
      pop_best-request s.best (remove_stale s.stale (after_scan s q))
      ∙ ap request_of (scan-best now q.config q.futures q.round_robin (start_scan q) d) in
    rw same (choose-Outcome _ q.round_robin)
