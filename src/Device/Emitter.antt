-- ===== src/Device/Emitter.antt =====
-- `DeviceEventEmitter` (csp_lib/equipment/device/events.py). A payload is a number for the object,
-- and which weakly held handlers are alive is an argument. A handler that raises is one that was
-- called. The worker's steps and the calls alternate in any order; a start comes after the end of the
-- stop before it.
use csp_lib.Base.{
  ℕ, zero, suc, String, Bool, true, false, not, ◌&&◌, Option, none, some, List, [], ◌∷◌, ◌++◌,
  filter, remove, length, ltb, if◌then◌else◌, nat_equality, string_equality,
}
use csp_lib.Base.Dict.{Dict, lookup, insert, erase, member}

-- An entry of the queue: an event with its payload, or the sentinel.
pub data Item : Type 0 where
  event : String → ℕ → Item
  sentinel : Item

-- No task, the loop of `_worker`, or its draining of the queue.
pub data Worker : Type 0 where
  no_worker serving draining : Worker

-- A handler is a number; a weak one is not called once its referent is gone.
pub record Emitter : Type 0 where
  pub handlers : Dict String (List ℕ)
  pub queue : List Item
  pub running : Bool
  pub worker : Worker

-- `__init__`.
unfoldable pub new : Emitter
new = record { handlers = []; queue = []; running = false; worker = no_worker }

abbrev pub or_none : Option (List ℕ) → List ℕ
or_none none = []
or_none (some hs) = hs

abbrev pub handlers_of : String → Emitter → List ℕ
handlers_of name s = or_none (lookup name s.handlers)

-- `start`.
unfoldable pub start : Emitter → Emitter
start s = if s.running then s else record s { running = true; worker = serving }

-- `put_nowait`, of a queue of a size.
abbrev pub put : ℕ → Item → List Item → List Item
put size item queue = if ltb (length queue) size then queue ++ (item ∷ []) else queue

-- `stop`, up to its wait for the worker.
unfoldable pub request_stop : ℕ → Emitter → Emitter
request_stop size s =
    if s.running then record s { running = false; queue = put size sentinel s.queue } else s

-- The end of `stop` where the wait timed out: the cancelled loop goes on to drain, and a cancelled
-- draining ends the task.
abbrev pub cancelled : Worker → Worker
cancelled no_worker = no_worker
cancelled serving = draining
cancelled draining = no_worker

unfoldable pub cancel_worker : Emitter → Emitter
cancel_worker s = record s { worker = cancelled s.worker }

-- `on`, the function that it returns, and `clear`.
unfoldable pub on : String → ℕ → Emitter → Emitter
on name h s = record s { handlers = insert name (handlers_of name s ++ (h ∷ [])) s.handlers }

unfoldable pub cancel : String → ℕ → Emitter → Emitter
cancel name h s =
    if member name s.handlers
    then record s { handlers = insert name (remove h (handlers_of name s)) s.handlers }
    else s

unfoldable pub clear : Option String → Emitter → Emitter
clear none s = record s { handlers = [] }
clear (some name) s = record s { handlers = erase name s.handlers }

abbrev pub is_empty : List ℕ → Bool
is_empty [] = true
is_empty (h ∷ hs) = false

-- Whether `emit` puts the event into the queue.
unfoldable pub accepts : ℕ → String → Emitter → Bool
accepts size name s = s.running && not (is_empty (handlers_of name s)) && ltb (length s.queue) size

-- `emit`.
unfoldable pub emit : ℕ → String → ℕ → Emitter → Emitter
emit size name payload s =
    if s.running && not (is_empty (handlers_of name s))
    then record s { queue = put size (event name payload) s.queue }
    else s

-- A call of a handler with its payload.
abbrev pub Calls : Type 0
Calls = List (ℕ × ℕ)

abbrev pub calls_to : ℕ → List ℕ → Calls
calls_to payload [] = []
calls_to payload (h ∷ hs) = (h, payload) ∷ calls_to payload hs

-- `_process_event`: dead handlers leave; the calls, with their payload. Handlers that come and go,
-- and events that are emitted, while the calls run have the effect that they have after them, since
-- the calls go through a copy.
unfoldable pub process_event : (ℕ → Bool) → String → ℕ → Emitter → Emitter × Calls
process_event alive name payload s = (
  if member name s.handlers
      then record s { handlers = insert name (filter alive (handlers_of name s)) s.handlers }
      else s,
  calls_to payload (filter alive (handlers_of name s)),
)

-- An event with its payload.
abbrev pub Sent : Type 0
Sent = List (String × ℕ)

-- What a round of the worker does: the event that it takes, if any, and its calls.
pub record Delivered : Type 0 where
  pub events : Sent
  pub calls : Calls

abbrev pub nothing : Delivered
nothing = record { events = []; calls = [] }

abbrev pub processed : (ℕ → Bool) → String → ℕ → Emitter → Emitter × Delivered
processed alive name payload s = (
  (process_event alive name payload s).0,
  record { events = (name, payload) ∷ []; calls = (process_event alive name payload s).1 },
)

-- A round of the worker at the front of the queue.
abbrev pub taken : (ℕ → Bool) → Worker → List Item → Emitter → Emitter × Delivered
taken alive no_worker queue s = (s, nothing)
taken alive serving [] s = (record s { worker = if s.running then serving else draining }, nothing)
taken alive serving (sentinel ∷ queue) s =
    if s.running
    then (record s { queue = queue; worker = draining }, nothing)
    else (record s { worker = draining }, nothing)
taken alive serving (event name payload ∷ queue) s =
    if s.running
    then processed alive name payload (record s { queue = queue })
    else (record s { worker = draining }, nothing)
taken alive draining [] s = (record s { worker = no_worker }, nothing)
taken alive draining (sentinel ∷ queue) s = (record s { queue = queue }, nothing)
taken alive draining (event name payload ∷ queue) s =
    processed alive name payload (record s { queue = queue })

-- A round of `_worker`.
unfoldable pub work : (ℕ → Bool) → Emitter → Emitter × Delivered
unfolding process_event
work alive s = taken alive s.worker s.queue s

abbrev pub take : ℕ → Calls → Calls
take n [] = []
take zero (c ∷ cs) = []
take (suc n) (c ∷ cs) = c ∷ take n cs

abbrev pub cut : ℕ → Worker → Calls → Emitter × Delivered → Emitter × Delivered
cut n w [] (s, d) = (s, d)
cut n w (c ∷ cs) (s, d) =
    (record s { worker = cancelled w }, record { events = d.events; calls = c ∷ take n cs })

-- A round in which the task is cancelled while the handler after `n` others runs: the later ones are
-- not called. A round that calls no handler is not cut.
unfoldable pub interrupted : (ℕ → Bool) → ℕ → Emitter → Emitter × Delivered
unfolding work
interrupted alive n s = cut n s.worker (work alive s).1.calls (work alive s)

-- `emit_await`, of a caller that is not cancelled meanwhile.
unfoldable pub emit_await : (ℕ → Bool) → String → ℕ → Emitter → Emitter × Calls
unfolding process_event
emit_await alive name payload s = process_event alive name payload s
