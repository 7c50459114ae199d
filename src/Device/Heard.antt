-- ===== src/Device/Heard.antt =====
-- Which handlers the events reach (csp_lib/equipment/device/events.py).
pub mod Runs
use csp_lib.Base.{
  ℕ, zero, suc, String, Bool, true, false, ◌||◌, ◌≡◌, refl, sym, ap, ◌∙◌, subst, Option, none, some,
  List, [], ◌∷◌, ◌++◌, map, filter, remove, Distinct, if◌then◌else◌, ◌==◌, ==_refl, nat_equality,
  string_equality, arith, Bool-cases, Option-cases, inl, inr,
}
use mathlib.Core.List.{append-nil}
use mathlib.Core.Path.{fun_ext}
use csp_lib.Base.Dict.{
  Dict, keys, lookup, member, insert, erase, lookup-insert, lookup-erase, insert-Distinct,
  erase-Distinct,
}
use csp_lib.Device.Emitter.{
  Item, event, sentinel, Worker, no_worker, serving, draining, Emitter, handlers_of, start,
  request_stop, cancel_worker, on, cancel, clear, emit, process_event, Calls, calls_to, Sent,
  Delivered, processed, or_none, taken, work, take, cut, interrupted, emit_await,
}
use csp_lib.Device.Delivery.{
  Step, started, stopping, timed_out, registered, unregistered, cleared, emitted, worked, cut_off,
  awaited, Stepped, plain, waiting, step, run, run-IsFifo,
}

-- The handlers of each name.
abbrev pub Subscribers : Type 0
Subscribers = String → List ℕ

-- Each event goes to the live handlers of its name, in the order of their registration.
abbrev pub calls_each : (ℕ → Bool) → Sent → Subscribers → Calls
calls_each alive [] f = []
calls_each alive (e ∷ es) f = map (λ h. (h, e.1)) (filter alive (f e.0)) ++ calls_each alive es f

-- The calls of a step that took some events.
abbrev pub told : Step → Sent → Subscribers → Calls
told (worked alive) es f = calls_each alive es f
told (cut_off alive n) es f = take (suc n) (calls_each alive es f)
told (awaited alive name payload) es f = calls_each alive ((name, payload) ∷ []) f
told started es f = []
told stopping es f = []
told timed_out es f = []
told (registered name h) es f = []
told (unregistered name h) es f = []
told (cleared name) es f = []
told (emitted name payload) es f = []

abbrev pub is_named : String → Sent → Bool
is_named name [] = false
is_named name (e ∷ es) = name == e.0 || is_named name es

-- The handlers after a step: those that died leave where an event of their name was taken.
abbrev pub subscribed : Step → Sent → Subscribers → Subscribers
subscribed (registered n h) es f name = if name == n then f name ++ (h ∷ []) else f name
subscribed (unregistered n h) es f name = if name == n then remove h (f name) else f name
subscribed (cleared none) es f name = []
subscribed (cleared (some n)) es f name = if name == n then [] else f name
subscribed (worked alive) es f name = if is_named name es then filter alive (f name) else f name
subscribed (cut_off alive n) es f name = if is_named name es then filter alive (f name) else f name
subscribed (awaited alive n payload) es f name = if name == n then filter alive (f name) else f name
subscribed started es f name = f name
subscribed stopping es f name = f name
subscribed timed_out es f name = f name
subscribed (emitted n payload) es f name = f name

-- All calls of a run, by the handlers that were registered and the events that were taken.
abbrev pub heard : ℕ → List Step → Emitter → Subscribers → Calls
heard size [] s f = []
heard size (x ∷ xs) s f =
    let es = (step size x s).processed in
    told x es f ++ heard size xs (step size x s).emitter (subscribed x es f)

abbrev pub subscribers : Emitter → Subscribers
subscribers s name = handlers_of name s

calls_to-map : (payload : ℕ) (hs : List ℕ) → calls_to payload hs ≡ map (λ h. (h, payload)) hs
calls_to-map payload [] = refl
calls_to-map payload (h ∷ hs) = ap (λ cs. (h, payload) ∷ cs) (calls_to-map payload hs)

process_event_calls :
    (alive : ℕ → Bool) (n : String) (p : ℕ) (s : Emitter)
    → (process_event alive n p s).1 ≡ calls_each alive ((n, p) ∷ []) (subscribers s)
unfolding process_event
process_event_calls alive n p s =
    calls_to-map p (filter alive (handlers_of n s))
    ∙ sym (append-nil (map (λ h. (h, p)) (filter alive (handlers_of n s))))

process_event_handlers :
    (alive : ℕ → Bool) (n : String) (p : ℕ) (s : Emitter) (name : String)
    → handlers_of name (process_event alive n p s).0
      ≡ (if name == n then filter alive (handlers_of name s) else handlers_of name s)
unfolding process_event
process_event_handlers alive n p s name = elim (Option-cases (lookup n s.handlers)) [
  | inl none_there ↦ ground (arith, none_there, string_equality.is_equal_iff name n)
  | inr (hs, e) ↦ ground (
    arith,
    e,
    string_equality.is_equal_iff name n,
    lookup-insert name n (filter alive (handlers_of n s)) s.handlers,
  )
]

process_event-Distinct :
    (alive : ℕ → Bool) (n : String) (p : ℕ) (s : Emitter)
    → Distinct (keys s.handlers)
    → Distinct (keys (process_event alive n p s).0.handlers)
unfolding process_event
process_event-Distinct alive n p s h = elim (Bool-cases (member n s.handlers)) [
  | inl t ↦ rw t (insert-Distinct n (filter alive (handlers_of n s)) s.handlers h)
  | inr f ↦ rw f h
]

-- A round calls the live handlers of the event that it takes, and takes no other handler off.
record IsHeard (alive : ℕ → Bool) (s : Emitter) (r : Emitter × Delivered) : Type 0 where
  called : r.1.calls ≡ calls_each alive r.1.events (subscribers s)
  left :
      (name : String)
      → handlers_of name r.0 ≡ (
          if is_named name r.1.events
          then filter alive (handlers_of name s)
          else handlers_of name s)
  once : Distinct (keys r.0.handlers)

idle :
    (alive : ℕ → Bool) (s : Emitter) (q : List Item) (w : Worker)
    → Distinct (keys s.handlers)
    → IsHeard alive s (record s { queue = q; worker = w }, record { events = []; calls = [] })
idle alive s q w h = record { called = refl; left = λ name. refl; once = h }

processed-IsHeard :
    (alive : ℕ → Bool) (n : String) (p : ℕ) (s : Emitter) (q : List Item)
    → Distinct (keys s.handlers)
    → IsHeard alive s (processed alive n p (record s { queue = q }))
processed-IsHeard alive n p s q h = record {
  called = process_event_calls alive n p (record s { queue = q });
  left = λ name.
      process_event_handlers alive n p (record s { queue = q }) name ∙ either name (name == n);
  once = process_event-Distinct alive n p (record s { queue = q }) h;
}
  where
    either :
        (name : String) (b : Bool)
        → (if b then filter alive (handlers_of name s) else handlers_of name s)
          ≡ (if b || false then filter alive (handlers_of name s) else handlers_of name s)
    either name true = refl
    either name false = refl

taken-IsHeard :
    (alive : ℕ → Bool) (w : Worker) (q : List Item) (s : Emitter)
    → Distinct (keys s.handlers)
    → IsHeard alive s (taken alive w q s)
taken-IsHeard alive no_worker q s h = idle alive s s.queue s.worker h
taken-IsHeard alive serving [] s h =
    idle alive s s.queue (if s.running then serving else draining) h
taken-IsHeard alive serving (sentinel ∷ q) s h = either s.running
  where
    either :
        (b : Bool)
        → IsHeard alive s (
            if b
            then (record s { queue = q; worker = draining }, record { events = []; calls = [] })
            else (record s { worker = draining }, record { events = []; calls = [] }))
    either true = idle alive s q draining h
    either false = idle alive s s.queue draining h
taken-IsHeard alive serving (event n p ∷ q) s h = either s.running
  where
    either :
        (b : Bool)
        → IsHeard alive s (
            if b
            then processed alive n p (record s { queue = q })
            else (record s { worker = draining }, record { events = []; calls = [] }))
    either true = processed-IsHeard alive n p s q h
    either false = idle alive s s.queue draining h
taken-IsHeard alive draining [] s h = idle alive s s.queue no_worker h
taken-IsHeard alive draining (sentinel ∷ q) s h = idle alive s q s.worker h
taken-IsHeard alive draining (event n p ∷ q) s h = processed-IsHeard alive n p s q h

-- What a cut leaves of a round.
cut_lem :
    (n : ℕ) (w : Worker) (r : Emitter × Delivered)
    → ((cut n w r.1.calls r).1.events ≡ r.1.events)
      × ((cut n w r.1.calls r).1.calls ≡ take (suc n) r.1.calls)
      × ((cut n w r.1.calls r).0.handlers ≡ r.0.handlers)
cut_lem n w (s, d) = by_calls d.calls refl
  where
    by_calls :
        (cs : Calls)
        → d.calls ≡ cs
        → ((cut n w cs (s, d)).1.events ≡ d.events)
          × ((cut n w cs (s, d)).1.calls ≡ take (suc n) cs)
          × ((cut n w cs (s, d)).0.handlers ≡ s.handlers)
    by_calls [] e = (refl, e, refl)
    by_calls (c ∷ cs) e = (refl, refl, refl)
