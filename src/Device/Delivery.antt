-- ===== src/Device/Delivery.antt =====
-- What becomes of the events (csp_lib/equipment/device/events.py).
use csp_lib.Base.{
  ℕ, String, Bool, true, false, not, ◌&&◌, ◌≡◌, refl, sym, ap, ◌∙◌, subst, Option, none, some, List,
  [], ◌∷◌, ◌++◌, length, ltb, if◌then◌else◌, string_equality, arith, Bool-cases, inl, inr,
}
use mathlib.Core.List.{append_assoc, append-nil}
use csp_lib.Base.Dict.{member}
use csp_lib.Device.Emitter.{
  Item, event, sentinel, Worker, no_worker, serving, draining, Emitter, handlers_of, start, put,
  request_stop, cancel_worker, on, cancel, clear, is_empty, accepts, emit, process_event, Sent,
  taken, work, Calls, Delivered, cut, interrupted, emit_await,
}

-- A call of a method, the end of a wait that timed out, or a round of the worker, whole or cut, while
-- some handlers are alive.
pub data Step : Type 0 where
  started stopping timed_out : Step
  registered unregistered : String → ℕ → Step
  cleared : Option String → Step
  emitted : String → ℕ → Step
  worked : (ℕ → Bool) → Step
  cut_off : (ℕ → Bool) → ℕ → Step
  awaited : (ℕ → Bool) → String → ℕ → Step

pub record Stepped : Type 0 where
  pub emitter : Emitter
  pub accepted : Sent
  pub processed : Sent
  pub calls : Calls

abbrev pub plain : Emitter → Stepped
plain s = record { emitter = s; accepted = []; processed = []; calls = [] }

abbrev pub of_round : Emitter × Delivered → Stepped
of_round (s, d) = record { emitter = s; accepted = []; processed = d.events; calls = d.calls }

unfoldable pub step : ℕ → Step → Emitter → Stepped
step size started s = plain (start s)
step size stopping s = plain (request_stop size s)
step size timed_out s = plain (cancel_worker s)
step size (registered name h) s = plain (on name h s)
step size (unregistered name h) s = plain (cancel name h s)
step size (cleared name) s = plain (clear name s)
step size (emitted name payload) s = record {
  emitter = emit size name payload s;
  accepted = if accepts size name s then (name, payload) ∷ [] else [];
  processed = [];
  calls = [];
}
step size (worked alive) s = of_round (work alive s)
step size (cut_off alive n) s = of_round (interrupted alive n s)
step size (awaited alive name payload) s = record {
  emitter = (emit_await alive name payload s).0;
  accepted = [];
  processed = [];
  calls = (emit_await alive name payload s).1;
}

unfoldable pub run : ℕ → List Step → Emitter → Stepped
run size [] s = plain s
run size (x ∷ xs) s =
    let a = step size x s in
    let b = run size xs a.emitter in
    record {
      emitter = b.emitter;
      accepted = a.accepted ++ b.accepted;
      processed = a.processed ++ b.processed;
      calls = a.calls ++ b.calls;
    }

-- The events that wait in a queue.
abbrev pub waiting : List Item → Sent
waiting [] = []
waiting (sentinel ∷ queue) = waiting queue
waiting (event name payload ∷ queue) = (name, payload) ∷ waiting queue

waiting-append : (q r : List Item) → waiting (q ++ r) ≡ waiting q ++ waiting r
waiting-append [] r = refl
waiting-append (sentinel ∷ q) r = waiting-append q r
waiting-append (event n p ∷ q) r = ap (λ x. (n, p) ∷ x) (waiting-append q r)

-- A step hands on the events that it processed from the front of the queue, and puts the accepted
-- one at its end.
abbrev IsFifo : Emitter → Stepped → Type 0
IsFifo s a = a.processed ++ waiting a.emitter.queue ≡ waiting s.queue ++ a.accepted

put-waiting : (size : ℕ) (q : List Item) → waiting (put size sentinel q) ≡ waiting q
put-waiting size q = elim (Bool-cases (ltb (length q) size)) [
  | inl t ↦ rw t (waiting-append q (sentinel ∷ []) ∙ append-nil (waiting q))
  | inr f ↦ rw f refl
]

same_queue :
    (alive : ℕ → Bool) (n : String) (p : ℕ) (s : Emitter)
    → (process_event alive n p s).0.queue ≡ s.queue
unfolding process_event
same_queue alive n p s = elim (Bool-cases (member n s.handlers)) [
  | inl t ↦ rw t refl
  | inr f ↦ rw f refl
]

taken-IsFifo :
    (alive : ℕ → Bool) (w : Worker) (q : List Item) (s : Emitter)
    → s.queue ≡ q
    → (taken alive w q s).1.events ++ waiting (taken alive w q s).0.queue ≡ waiting q
taken-IsFifo alive no_worker q s e = ap waiting e
taken-IsFifo alive serving [] s e = ap waiting e
taken-IsFifo alive serving (sentinel ∷ q) s e = elim (Bool-cases s.running) [
  | inl t ↦ rw t refl
  | inr f ↦ rw f (ap waiting e)
]
taken-IsFifo alive serving (event n p ∷ q) s e = elim (Bool-cases s.running) [
  | inl t ↦
      rw t (
        ap (λ y. (n, p) ∷ waiting y)
          (same_queue alive n p (record s { queue = q; running = true })))
  | inr f ↦ rw f (ap waiting e)
]
taken-IsFifo alive draining [] s e = ap waiting e
taken-IsFifo alive draining (sentinel ∷ q) s e = refl
taken-IsFifo alive draining (event n p ∷ q) s e =
    ap (λ y. (n, p) ∷ waiting y) (same_queue alive n p (record s { queue = q }))

-- A cut leaves the events and the queue.
cut_queue :
    (n : ℕ) (w : Worker) (cs : Calls) (r : Emitter × Delivered)
    → ((cut n w cs r).0.queue ≡ r.0.queue) × ((cut n w cs r).1.events ≡ r.1.events)
cut_queue n w [] (s, d) = (refl, refl)
cut_queue n w (c ∷ cs) (s, d) = (refl, refl)

step-IsFifo : (size : ℕ) (x : Step) (s : Emitter) → IsFifo s (step size x s)
unfolding step start request_stop cancel_worker on cancel clear emit accepts work interrupted
    emit_await
step-IsFifo size started s = elim (Bool-cases s.running) [
  | inl t ↦ rw t (sym (append-nil (waiting s.queue)))
  | inr f ↦ rw f (sym (append-nil (waiting s.queue)))
]
step-IsFifo size stopping s = elim (Bool-cases s.running) [
  | inl t ↦ rw t (put-waiting size s.queue ∙ sym (append-nil (waiting s.queue)))
  | inr f ↦ rw f (sym (append-nil (waiting s.queue)))
]
step-IsFifo size timed_out s = sym (append-nil (waiting s.queue))
step-IsFifo size (registered name h) s = sym (append-nil (waiting s.queue))
step-IsFifo size (unregistered name h) s = elim (Bool-cases (member name s.handlers)) [
  | inl t ↦ rw t (sym (append-nil (waiting s.queue)))
  | inr f ↦ rw f (sym (append-nil (waiting s.queue)))
]
step-IsFifo size (cleared none) s = sym (append-nil (waiting s.queue))
step-IsFifo size (cleared (some name)) s = sym (append-nil (waiting s.queue))
step-IsFifo size (emitted name payload) s =
    elim (Bool-cases (s.running && not (is_empty (handlers_of name s)))) [
      | inr f ↦
          let off : accepts size name s ≡ false = ground (arith, f) in
          subst
            (λ b.
              waiting
                (if s.running && not (is_empty (handlers_of name s))
                  then record s { queue = put size (event name payload) s.queue }
                  else s).queue
              ≡ waiting s.queue ++ (if b then (name, payload) ∷ [] else []))
            (sym off) (rw f (sym (append-nil (waiting s.queue))))
      | inl t ↦ elim (Bool-cases (ltb (length s.queue) size)) [
        | inl l ↦ rw (t, l) (waiting-append s.queue (event name payload ∷ []))
        | inr l ↦ rw (t, l) (sym (append-nil (waiting s.queue)))
      ]
    ]
step-IsFifo size (worked alive) s =
    taken-IsFifo alive s.worker s.queue s refl ∙ sym (append-nil (waiting s.queue))
step-IsFifo size (cut_off alive n) s =
    let r = taken alive s.worker s.queue s in
    let (queue, events) = cut_queue n s.worker r.1.calls r in
    ap (λ es. es ++ waiting (cut n s.worker r.1.calls r).0.queue) events
    ∙ ap (λ q. r.1.events ++ waiting q) queue
    ∙ taken-IsFifo alive s.worker s.queue s refl
    ∙ sym (append-nil (waiting s.queue))
step-IsFifo size (awaited alive name payload) s =
    ap waiting (same_queue alive name payload s) ∙ sym (append-nil (waiting s.queue))

-- From any state, over any calls, rounds of the worker, whole or cut, and stops that time out, the
-- events taken and then those still in the queue are the events that were in the queue and then the
-- accepted ones, in order.
pub run-IsFifo :
    (size : ℕ) (xs : List Step) (s : Emitter)
    → (let r = run size xs s in
        r.processed ++ waiting r.emitter.queue ≡ waiting s.queue ++ r.accepted)
unfolding run
run-IsFifo size [] s = sym (append-nil (waiting s.queue))
run-IsFifo size (x ∷ xs) s =
    let a = step size x s in
    let b = run size xs a.emitter in
    append_assoc a.processed b.processed (waiting b.emitter.queue)
    ∙ ap (λ y. a.processed ++ y) (run-IsFifo size xs a.emitter)
    ∙ sym (append_assoc a.processed (waiting a.emitter.queue) b.accepted)
    ∙ ap (λ y. y ++ b.accepted) (step-IsFifo size x s)
    ∙ append_assoc (waiting s.queue) a.accepted b.accepted
