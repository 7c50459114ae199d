-- ===== src/Integration/Linked.antt =====
-- The registry and a router that observes its removals (csp_lib/integration/registry.py,
-- command_router.py, command_refresh.py).
pub mod Held
pub mod Reached
use csp_lib.Base.{
  ℕ, String, true, false, ◌||◌, ◌≡◌, refl, sym, ◌∙◌, subst, Option, none, List, [], ◌∷◌, contains,
  ◌++◌, All, Distinct, if◌then◌else◌, ◌==◌, ==_refl, string_equality, arith, Bool-cases, inl, inr,
}
use csp_lib.Base.Dict.{
  Dict, keys, lookup, member, insert, erase, All-erase, erase-Distinct, insert-Distinct,
  contains-keys,
}
use csp_lib.Integration.Registry.{
  Device, Metadata, DeviceRegistry, new, get_device, register, register_with_capabilities,
  unregister, enter, remove_traits, traits_of, only_cap, cap_traits, minus, add_trait, remove_trait,
  refresh_capability_traits, notify_status, on_status_change, on_unregister, remove_status_observer,
  remove_unregister_observer, add_trait_index, remove_trait_index,
}
use csp_lib.Integration.Registry.Indexed.{
  IsIndexed, member-insert, member-erase, add_traits-IsIndexed, remove_traits-IsIndexed,
}
use csp_lib.Integration.Registry.Calls.{
  Call, register_call, capable_call, unregister_call, add_call, remove_call, refresh_call,
  notify_call, status_call, unregister_observer_call, unstatus_call, drop_observer_call, after,
  step, step-IsIndexed, run_registry, run_registry-IsIndexed,
}
use csp_lib.Integration.Registry.Forgotten.{unregister_forgets, enter-IsIndexed, enter-member}
use csp_lib.Integration.Router.{
  Environment, Command, CommandMapping, CapabilityCommandMapping, Desired, Write, Routed, or_new,
  record_written, on_device_unregistered, get_tracked_device_ids, route, route_per_device,
  refresh_once,
}
use csp_lib.Integration.Router.Safety.{IsRouted, IsAllowed, replay, route-IsRouted}
use csp_lib.Integration.Router.Refresh.{
  IsDesired, record_written-IsDesired, refresh_once-IsRefreshed,
}

pub record Linked : Type 0 where
  pub registry : DeviceRegistry
  pub desired : Desired

-- A call of the registry's methods, and `_on_device_unregistered` where one removed a device.
abbrev pub prune : Call → Linked → Desired
prune (unregister_call id) s =
    if member id s.registry.devices then on_device_unregistered id s.desired else s.desired
prune _ s = s.desired

pub data Event : Type 0 where
  called : Call → Event
  routed : Environment → List CommandMapping → List CapabilityCommandMapping → Command → Event
  distributed :
      Environment
      → List CommandMapping
      → List CapabilityCommandMapping
      → Command
      → Dict String Command
      → Event
  refreshed : Environment → Option (List String) → Event

abbrev pub sent : Desired → Routed
sent desired = record { last_written = desired; writes = [] }

unfoldable pub next : Event → Linked → Linked
next (called c) s = record { registry = step c s.registry; desired = prune c s }
next (routed env ms cs command) s = record s {
  desired = (route s.registry env ms cs command (sent s.desired)).last_written;
}
next (distributed env ms cs command commands) s = record s {
  desired = (route_per_device s.registry env ms cs command commands (sent s.desired)).last_written;
}
next (refreshed env device_filter) s = record s {
  desired = (refresh_once s.registry env device_filter (sent s.desired)).last_written;
}

unfoldable pub run_linked : List Event → Linked → Linked
run_linked [] s = s
run_linked (e ∷ es) s = run_linked es (next e s)

-- Every tracked device is registered, each once, and each point of it once.
pub record IsLinked (s : Linked) : Type 0 where
  pub indexed : IsIndexed s.registry
  pub tracked : (id : String) → member id s.desired ≡ true → member id s.registry.devices ≡ true
  pub once : Distinct (keys s.desired)
  pub formed : IsDesired s.desired

abbrev pub fresh : Linked
fresh = record { registry = new; desired = [] }
