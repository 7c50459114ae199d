-- ===== src/Device/Heard/Runs.antt =====
-- Which handlers a run of the emitter calls (csp_lib/equipment/device/events.py).
use csp_lib.Base.{
  ℕ, suc, String, ◌≡◌, refl, sym, ap, ◌∙◌, subst, none, some, List, [], ◌∷◌, ◌++◌, filter, remove,
  Distinct, if◌then◌else◌, nat_equality, string_equality, arith, Option-cases, inl, inr,
}
use mathlib.Core.Path.{fun_ext}
use csp_lib.Base.Dict.{keys, lookup, lookup-insert, lookup-erase, insert-Distinct, erase-Distinct}
use csp_lib.Device.Emitter.{
  Emitter, handlers_of, start, request_stop, cancel_worker, on, cancel, clear, emit, or_none, taken,
  work, take, interrupted, emit_await,
}
use csp_lib.Device.Delivery.{
  Step, started, stopping, timed_out, registered, unregistered, cleared, emitted, worked, cut_off,
  awaited, Stepped, plain, waiting, step, run, run-IsFifo,
}
use csp_lib.Device.Heard.{
  calls_each, told, is_named, subscribed, heard, subscribers, process_event_calls,
  process_event_handlers, process_event-Distinct, taken-IsHeard, cut_lem,
}

-- A step makes the calls of its events, and leaves the handlers that it should.
record IsTold (x : Step) (s : Emitter) (a : Stepped) : Type 0 where
  called : a.calls ≡ told x a.processed (subscribers s)
  left :
      (name : String) → handlers_of name a.emitter ≡ subscribed x a.processed (subscribers s) name
  once : Distinct (keys a.emitter.handlers)

same_handlers :
    (x : Step) (s t : Emitter)
    → t.handlers ≡ s.handlers
    → Distinct (keys s.handlers)
    → ((name : String) → subscribed x [] (subscribers s) name ≡ handlers_of name s)
    → [] ≡ told x [] (subscribers s)
    → IsTold x s (plain t)
same_handlers x s t e h same silent = record {
  called = silent;
  left = λ name. ap (λ hs. or_none (lookup name hs)) e ∙ sym (same name);
  once = subst (λ hs. Distinct (keys hs)) (sym e) h;
}

step-IsTold :
    (size : ℕ) (x : Step) (s : Emitter) → Distinct (keys s.handlers) → IsTold x s (step size x s)
unfolding step start request_stop cancel_worker on cancel clear emit work interrupted emit_await
step-IsTold size started s h =
    same_handlers started s (start s) (ground arith) h (λ name. refl) refl
step-IsTold size stopping s h =
    same_handlers stopping s (request_stop size s) (ground arith) h (λ name. refl) refl
step-IsTold size timed_out s h =
    same_handlers timed_out s (cancel_worker s) refl h (λ name. refl) refl
step-IsTold size (registered n k) s h = record {
  called = refl;
  left = λ name. ground (
    arith,
    lookup-insert name n (handlers_of n s ++ (k ∷ [])) s.handlers,
    string_equality.is_equal_iff name n,
  );
  once = insert-Distinct n (handlers_of n s ++ (k ∷ [])) s.handlers h;
}
step-IsTold size (unregistered n k) s h = elim (Option-cases (lookup n s.handlers)) [
  | inl absent ↦ record {
    called = refl;
    left = λ name. ground (arith, absent, string_equality.is_equal_iff name n);
    once = ground (arith, absent, h);
  }
  | inr (hs, e) ↦ record {
    called = refl;
    left = λ name. ground (
      arith,
      e,
      lookup-insert name n (remove k (handlers_of n s)) s.handlers,
      string_equality.is_equal_iff name n,
    );
    once = ground (arith, e, h, insert-Distinct n (remove k (handlers_of n s)) s.handlers h);
  }
]
step-IsTold size (cleared none) s h = record { called = refl; left = λ name. refl; once = tt }
step-IsTold size (cleared (some n)) s h = record {
  called = refl;
  left = λ name. ground (arith, lookup-erase name n s.handlers h);
  once = erase-Distinct n s.handlers h;
}
step-IsTold size (emitted n p) s h =
    let same : (emit size n p s).handlers ≡ s.handlers = ground arith in
    record {
      called = refl;
      left = λ name. ap (λ hs. or_none (lookup name hs)) same;
      once = subst (λ hs. Distinct (keys hs)) (sym same) h;
    }
step-IsTold size (worked alive) s h =
    let r = taken-IsHeard alive s.worker s.queue s h in
    record { called = r.called; left = r.left; once = r.once }
step-IsTold size (cut_off alive n) s h =
    let r = taken-IsHeard alive s.worker s.queue s h in
    let (events, calls, handlers) = cut_lem n s.worker (taken alive s.worker s.queue s) in
    record {
      called =
          calls
          ∙ ap (take (suc n)) r.called
          ∙ ap (λ es. take (suc n) (calls_each alive es (subscribers s))) (sym events);
      left = λ name.
          ap (λ hs. or_none (lookup name hs)) handlers
          ∙ r.left name
          ∙ ap
              (λ es.
                if is_named name es then filter alive (handlers_of name s) else handlers_of name s)
              (sym events);
      once = subst (λ hs. Distinct (keys hs)) (sym handlers) r.once;
    }
step-IsTold size (awaited alive n p) s h = record {
  called = process_event_calls alive n p s;
  left = process_event_handlers alive n p s;
  once = process_event-Distinct alive n p s h;
}

run_calls :
    (size : ℕ) (xs : List Step) (s : Emitter)
    → Distinct (keys s.handlers)
    → (run size xs s).calls ≡ heard size xs s (subscribers s)
unfolding run
run_calls size [] s h = refl
run_calls size (x ∷ xs) s h =
    let a = step size x s in
    let t = step-IsTold size x s h in
    ap (λ cs. cs ++ (run size xs a.emitter).calls) t.called
    ∙ ap (λ cs. told x a.processed (subscribers s) ++ cs)
        (run_calls size xs a.emitter t.once ∙ ap (heard size xs a.emitter) (fun_ext t.left))

pub run_deliveries :
    (size : ℕ) (xs : List Step) (s : Emitter)
    → Distinct (keys s.handlers)
    → (let r = run size xs s in
        (r.processed ++ waiting r.emitter.queue ≡ waiting s.queue ++ r.accepted)
        × (r.calls ≡ heard size xs s (subscribers s)))
run_deliveries size xs s h = (run-IsFifo size xs s, run_calls size xs s h)
