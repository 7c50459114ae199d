-- ===== src/Integration/Tests.antt =====
-- Runs of the registry and router models on concrete devices, and their theorems at them.
use csp_lib.Base.{
  ℕ, ◌&&◌, String, ◌≡◌, refl, true, false, none, some, List, [], ◌∷◌, map, contains, if◌then◌else◌,
  ◌==◌, string_equality,
}
use csp_lib.Base.Dict.{lookup, member}
use csp_lib.Base.Sets.{IsAscending, sort_texts}
use csp_lib.Integration.Registry.{
  get_responsive_devices_by_trait, Device, DeviceRegistry, ok, new, ids_of, unregister,
  tell_unregistered, get_device, get_traits, get_devices_by_trait, register, add_traits,
  add_trait_index, on_unregister,
}
use csp_lib.Integration.Registry.Indexed.{IsIndexed}
use csp_lib.Integration.Registry.Calls.{
  Call, register_call, capable_call, unregister_call, add_call, unregister_observer_call, step,
  run_registry, run_registry-IsIndexed, get_devices_by_trait-total,
}
use csp_lib.Integration.Registry.Forgotten.{unregister_forgets}
use csp_lib.Integration.Router.{
  write_trait_broadcast, send, Environment, number, no_change, Command, CommandMapping,
  CapabilityCommandMapping, auto, Desired, Routed, record_written, get_tracked_device_ids, route,
  route_per_device, refresh_once,
}
use csp_lib.Integration.Router.Safety.{IsRouted, route-IsRouted}
use csp_lib.Integration.Router.Refresh.{last}
use csp_lib.Integration.Router.Resent.{was_sent, is_value, passes, is_ready, refresh_once-resends}
use csp_lib.Integration.InFlight
use csp_lib.Integration.InFlight.{Busy, begun, ended, snapped, run_busy, Step}
use csp_lib.Integration.InFlight.Late.{resumes, late_record_tracked, stale_refresh_reverts}
use csp_lib.Integration.Linked.{
  Linked, IsLinked, Event, called, routed, refreshed, next, run_linked, fresh,
}
use csp_lib.Integration.Linked.Reached.{run_linked-IsLinked}

abbrev pcs : Device
pcs = record { device_id = "pcs1"; capabilities = "active_power" ∷ [] }

abbrev bms : Device
bms = record { device_id = "bms1"; capabilities = [] }

abbrev plant : List Call
plant =
    unregister_observer_call 7
    ∷ capable_call pcs ("inverter" ∷ []) []
    ∷ register_call bms ("battery" ∷ []) []
    ∷ add_call "bms1" "inverter"
    ∷ []

abbrev site : DeviceRegistry
site = run_registry plant new

plant-IsIndexed : IsIndexed site
plant-IsIndexed = run_registry-IsIndexed plant

run_registry-IsIndexed_example : IsIndexed (run_registry plant new)
run_registry-IsIndexed_example = run_registry-IsIndexed plant

get_devices_by_trait-total_example :
    let s = run_registry plant new in
    (ds : List Device) × (get_devices_by_trait "inverter" s ≡ some ds)
    × IsAscending (map (λ d. d.device_id) ds)
    × ((id : String)
        → contains id (map (λ d. d.device_id) ds) ≡ contains "inverter" (get_traits id s))
get_devices_by_trait-total_example = get_devices_by_trait-total plant "inverter"

pcs_registered : member "pcs1" site.devices ≡ true
unfolding run_registry step register add_traits add_trait_index on_unregister new
pcs_registered = refl

unregister_forgets_example :
    (s' : DeviceRegistry) × (unregister "pcs1" site
      ≡ ok s' (tell_unregistered site.unregister_observers "pcs1"))
    × ((j : String) → get_device j s' ≡ (if j == "pcs1" then none else get_device j site))
    × ((j u : String)
        → contains u (get_traits j s')
          ≡ (if j == "pcs1" then false else contains u (get_traits j site)))
    × ((u : String) → contains "pcs1" (ids_of u s') ≡ false)
    × (lookup "pcs1" s'.last_responsive ≡ none)
    × IsIndexed s'
unregister_forgets_example = unregister_forgets "pcs1" site pcs_registered plant-IsIndexed

abbrev calm : Environment
calm = record {
  is_responsive = λ id. true;
  is_protected = λ id. id == "bms1";
  resolve_point = λ id capability slot. slot;
  accepts = λ id point value. true;
}

abbrev power : CommandMapping
power = record {
  command_field = "p_target";
  point_name = "p_set";
  is_trait = true;
  target = "inverter";
  transform = none;
}

abbrev limit : CapabilityCommandMapping
limit = record {
  command_field = "q_target";
  capability = "active_power";
  slot = "limit";
  target = auto;
  transform = some (λ v. some v);
}

abbrev run_up : Command
run_up field = if field == "p_target" then some (number 50) else some no_change

route-IsRouted_example :
    let st : Routed = record { last_written = []; writes = [] } in
    IsRouted site calm [] (route site calm (power ∷ []) (limit ∷ []) run_up st)
    × IsRouted site calm [] (route_per_device site calm (power ∷ []) (limit ∷ []) run_up [] st)
route-IsRouted_example =
    route-IsRouted site calm (power ∷ []) (limit ∷ []) run_up [] [] plant-IsIndexed

abbrev wanted : Desired
wanted = ("pcs1", ("p_set", 50) ∷ []) ∷ []

refresh_once-resends_example :
    let st = refresh_once site calm none (record { last_written = wanted; writes = [] }) in
    ((id p : String) → last id p st.last_written ≡ last id p wanted)
    × ((id p : String) (v : ℕ)
        → was_sent id p v st.writes ≡ (
            contains id (get_tracked_device_ids wanted)
            && passes none id
            && is_value v (last id p wanted)
            && is_ready site calm id))
refresh_once-resends_example =
    refresh_once-resends site calm none wanted plant-IsIndexed ((refl, tt), tt)

abbrev day : List Event
day =
    called (capable_call pcs ("inverter" ∷ []) [])
    ∷ routed calm (power ∷ []) [] run_up
    ∷ refreshed calm none
    ∷ called (unregister_call "pcs1")
    ∷ []

run_linked-IsLinked_example : IsLinked (run_linked day fresh)
run_linked-IsLinked_example = run_linked-IsLinked day

abbrev busy : Linked
busy = next (called (capable_call pcs [] [])) fresh

busy-IsLinked : IsLinked busy
unfolding run_linked
busy-IsLinked = run_linked-IsLinked (called (capable_call pcs [] []) ∷ [])

abbrev idle : Busy
idle = record { system = busy; under_way = []; device = ""; snapshot = [] }

busy_ready : is_ready busy.registry calm "pcs1" ≡ true
unfolding next step register add_traits add_trait_index new
busy_ready = refl

late_record_tracked_example :
    let s' =
      run_busy
        (begun calm "pcs1" "p_set" (number 50)
          ∷ InFlight.called (unregister_call "pcs1")
          ∷ ended true
          ∷ [])
        idle in
    (get_device "pcs1" s'.system.registry ≡ none)
    × (contains "pcs1" (get_tracked_device_ids s'.system.desired) ≡ true)
    × (s'.under_way ≡ [])
late_record_tracked_example =
    late_record_tracked idle calm "pcs1" "p_set" 50 busy-IsLinked busy_ready

abbrev told : Linked
told = next (called (capable_call pcs ("inverter" ∷ []) [])) fresh

-- The device once it was set to 50.
abbrev settled : Busy
settled = record idle { system = next (routed calm (power ∷ []) [] run_up) told }

settled-IsLinked : IsLinked settled.system
unfolding run_linked
settled-IsLinked =
    run_linked-IsLinked
      (called (capable_call pcs ("inverter" ∷ []) []) ∷ routed calm (power ∷ []) [] run_up ∷ [])

settled_ready : is_ready settled.system.registry calm "pcs1" ≡ true
unfolding next step register add_traits add_trait_index new
settled_ready = refl

settled_last : last "pcs1" "p_set" settled.system.desired ≡ some 50
unfolding next step register add_traits add_trait_index new route send record_written
    write_trait_broadcast get_responsive_devices_by_trait sort_texts
settled_last = refl

stale_refresh_reverts_example :
    let s₁ =
      run_busy (snapped "pcs1" ∷ begun calm "pcs1" "p_set" (number 70) ∷ ended true ∷ []) settled in
    let s₂ = run_busy (resumes calm s₁.snapshot) s₁ in
    (last "pcs1" "p_set" s₁.system.desired ≡ some 70)
    × (last "pcs1" "p_set" s₂.system.desired ≡ some 50)
    × (s₂.snapshot ≡ [])
stale_refresh_reverts_example =
    stale_refresh_reverts settled calm "pcs1" "p_set" 50 70 settled-IsLinked settled_ready
      settled_last
