-- ===== src/Aggregator.antt =====
-- `AlarmAggregator` (csp_lib/alarm/aggregator.py): the set of active sources, the observers of the
-- aggregated flag, and the hooks on devices and watchdogs. A callback and a hook are numbers; a
-- device's and a watchdog's own registry of handlers is outside.
pub mod Flags
pub mod Cancelling
mod Tests
use csp_lib.Base.{
  ℕ, suc, String, Bool, true, false, ◌&&◌, not, Option, none, some, List, [], ◌∷◌, ◌++◌, contains,
  remove, eqb, if◌then◌else◌, ◌==◌, nat_equality, string_equality,
}
use csp_lib.Base.Dict.{Dict, lookup, insert, erase}

pub data HookKind : Type 0 where
  device : HookKind
  watchdog : HookKind

-- The closures of one `bind_device` or `bind_watchdog`: they have the source's name, and the
-- watchdog's share the flag `alive`, which `id` names.
pub record Hook : Type 0 where
  pub id : ℕ
  pub kind : HookKind
  pub source : String

pub record AlarmAggregator : Type 0 where
  pub active_sources : List String
  pub observers : List ℕ
  pub unbinders : Dict String Hook
  -- The watchdog hooks whose `alive` is false.
  pub cancelled : List ℕ
  pub next_id : ℕ

-- What a call does outside: the observers it calls, and the device hooks it takes off.
pub data Effect : Type 0 where
  told : ℕ → Bool → Effect
  unsubscribed : Hook → Effect

-- `__init__`.
unfoldable pub new : AlarmAggregator
new = record { active_sources = []; observers = []; unbinders = []; cancelled = []; next_id = 0 }

abbrev is_nonempty : List String → Bool
is_nonempty [] = false
is_nonempty (x ∷ xs) = true

-- The property `active`.
unfoldable pub active : AlarmAggregator → Bool
active s = is_nonempty s.active_sources

-- `set.add` and `set.discard`.
abbrev pub write_source : String → Bool → List String → List String
write_source name true sources = if contains name sources then sources else sources ++ name ∷ []
write_source name false sources = remove name sources

abbrev pub tell : List ℕ → Bool → List Effect
tell [] flag = []
tell (cb ∷ cbs) flag = told cb flag ∷ tell cbs flag

abbrev pub differ : Bool → Bool → Bool
differ true b = not b
differ false b = b

-- `_set_source_active`.
unfoldable pub set_source_active : String → Bool → AlarmAggregator → AlarmAggregator × List Effect
unfolding active
set_source_active name value s =
    let s' = record s { active_sources = write_source name value s.active_sources } in
    (s', if differ (active s) (active s') then tell s.observers (active s') else [])

-- `mark_source`.
unfoldable pub mark_source : String → Bool → AlarmAggregator → AlarmAggregator × List Effect
unfolding set_source_active
mark_source name value s = set_source_active name value s

abbrev pub handle_as : HookKind → Hook → Bool → AlarmAggregator → AlarmAggregator × List Effect
handle_as device hook value s = set_source_active hook.source value s
handle_as watchdog hook value s =
    if contains hook.id s.cancelled then (s, []) else set_source_active hook.source value s

-- The handlers `_on_triggered`, `_on_timeout` (for true) and `_on_cleared`, `_on_recover` of a hook.
unfoldable pub handle : Hook → Bool → AlarmAggregator → AlarmAggregator × List Effect
unfolding set_source_active
handle hook value s = handle_as hook.kind hook value s

abbrev pub run_unbinder : HookKind → Hook → AlarmAggregator → AlarmAggregator × List Effect
run_unbinder device hook s = (s, unsubscribed hook ∷ [])
run_unbinder watchdog hook s = (record s { cancelled = hook.id ∷ s.cancelled }, [])

abbrev pub pop_unbinder : Option Hook → String → AlarmAggregator → AlarmAggregator × List Effect
pop_unbinder none name s = (s, [])
pop_unbinder (some hook) name s =
    run_unbinder hook.kind hook (record s { unbinders = erase name s.unbinders })

-- `unbind`.
unfoldable pub unbind : String → AlarmAggregator → AlarmAggregator × List Effect
unfolding set_source_active
unbind name s =
    let (s₁, es) = pop_unbinder (lookup name s.unbinders) name s in
    let (s₂, fs) = set_source_active name false s₁ in (s₂, es ++ fs)

abbrev unbind_if : Option Hook → String → AlarmAggregator → AlarmAggregator × List Effect
unbind_if none name s = (s, [])
unbind_if (some hook) name s = unbind name s

-- A new hook under a name, once the old one is off.
unfoldable pub bind : HookKind → String → AlarmAggregator → AlarmAggregator × List Effect
unfolding unbind
bind kind name s =
    let (s₁, es) = unbind_if (lookup name s.unbinders) name s in
    let hook : Hook = record { id = s₁.next_id; kind = kind; source = name } in
    (record s₁ { unbinders = insert name hook s₁.unbinders; next_id = suc s₁.next_id }, es)

-- The name of a device's source: the given one, else the device's `device_id`.
abbrev pub source_name : Option String → Option String → Option String
source_name (some name) device_id = some name
source_name none device_id = device_id

-- A bind under a name that is not empty; none is a `ValueError`.
abbrev pub bind_named :
    HookKind → Option String → AlarmAggregator → Option (AlarmAggregator × List Effect)
bind_named kind none s = none
bind_named kind (some name) s = if name == "" then none else some (bind kind name s)

-- `bind_device`, of a device with its `device_id`, if it has one.
unfoldable pub bind_device :
    Option String → Option String → AlarmAggregator → Option (AlarmAggregator × List Effect)
unfolding bind
bind_device device_id name s = bind_named device (source_name name device_id) s

-- `bind_watchdog`.
unfoldable pub bind_watchdog : String → AlarmAggregator → Option (AlarmAggregator × List Effect)
unfolding bind
bind_watchdog name s = bind_named watchdog (some name) s

-- `on_change` and `remove_observer`.
unfoldable pub on_change : ℕ → AlarmAggregator → AlarmAggregator
on_change callback s = record s { observers = s.observers ++ callback ∷ [] }

unfoldable pub remove_observer : ℕ → AlarmAggregator → AlarmAggregator
remove_observer callback s = record s { observers = remove callback s.observers }

pub data Call : Type 0 where
  device_call : Option String → Option String → Call
  watchdog_call : String → Call
  unbind_call : String → Call
  event : Hook → Bool → Call
  mark_call : String → Bool → Call
  observe : ℕ → Call
  unobserve : ℕ → Call

-- A `ValueError` leaves the aggregator as it was.
abbrev pub or_same :
    AlarmAggregator → Option (AlarmAggregator × List Effect) → AlarmAggregator × List Effect
or_same s none = (s, [])
or_same s (some r) = r

unfoldable pub perform : Call → AlarmAggregator → AlarmAggregator × List Effect
unfolding bind_device bind_watchdog unbind handle mark_source on_change remove_observer
perform (device_call device_id name) s = or_same s (bind_device device_id name s)
perform (watchdog_call name) s = or_same s (bind_watchdog name s)
perform (unbind_call name) s = unbind name s
perform (event hook value) s = handle hook value s
perform (mark_call name value) s = mark_source name value s
perform (observe callback) s = (on_change callback s, [])
perform (unobserve callback) s = (remove_observer callback s, [])

-- Calls in a row, with what they did outside.
unfoldable pub run_calls : List Call → AlarmAggregator → AlarmAggregator × List Effect
run_calls [] s = (s, [])
run_calls (c ∷ cs) s = let (s', es) = perform c s in let (t, fs) = run_calls cs s' in (t, es ++ fs)
