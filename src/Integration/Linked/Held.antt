-- ===== src/Integration/Linked/Held.antt =====
-- What a call, and the writes of a route, keep (csp_lib/integration/registry.py,
-- command_router.py).
use csp_lib.Base.{
  ℕ, String, true, ◌||◌, ◌≡◌, sym, subst, List, [], ◌∷◌, ◌++◌, All, Distinct, ◌==◌, string_equality,
  arith, Bool-cases, inl, inr,
}
use csp_lib.Base.Dict.{keys, lookup, member, insert, All-erase, erase-Distinct, insert-Distinct}
use csp_lib.Integration.Registry.{
  Device, Metadata, DeviceRegistry, register, register_with_capabilities, unregister, enter,
  remove_traits, traits_of, only_cap, cap_traits, minus, add_trait, remove_trait,
  refresh_capability_traits, notify_status, on_status_change, on_unregister, remove_status_observer,
  remove_unregister_observer, add_trait_index, remove_trait_index,
}
use csp_lib.Integration.Registry.Indexed.{
  IsIndexed, member-insert, member-erase, add_traits-IsIndexed, remove_traits-IsIndexed,
}
use csp_lib.Integration.Registry.Calls.{
  Call, register_call, capable_call, unregister_call, add_call, remove_call, refresh_call,
  notify_call, status_call, unregister_observer_call, unstatus_call, drop_observer_call, after,
  step,
}
use csp_lib.Integration.Registry.Forgotten.{enter-IsIndexed, enter-member}
use csp_lib.Integration.Router.{
  Environment, Desired, Write, Routed, or_new, record_written, on_device_unregistered,
}
use csp_lib.Integration.Router.Safety.{IsRouted, IsAllowed, replay}
use csp_lib.Integration.Router.Refresh.{IsDesired, record_written-IsDesired}
use csp_lib.Integration.Linked.{Linked, prune, IsLinked}

pub member-record_written :
    (j id p : String) (v : ℕ) (d : Desired)
    → member j (record_written id p v d) ≡ (j == id || member j d)
unfolding record_written
member-record_written j id p v d = member-insert j id (insert p v (or_new (lookup id d))) d

pub record_written-once :
    (id p : String) (v : ℕ) (d : Desired)
    → Distinct (keys d)
    → Distinct (keys (record_written id p v d))
unfolding record_written
record_written-once id p v d h = insert-Distinct id (insert p v (or_new (lookup id d))) d h

-- What holds of the desired state of a linked system, over the registry's devices.
pub record Holds (registry : DeviceRegistry) (d : Desired) : Type 0 where
  pub tracked : (id : String) → member id d ≡ true → member id registry.devices ≡ true
  pub once : Distinct (keys d)
  pub formed : IsDesired d

replay-Holds :
    (registry : DeviceRegistry) (env : Environment) (start : Desired) (ws : List Write)
    (d : Desired)
    → All (IsAllowed registry env start) ws
    → Holds registry d
    → Holds registry (replay ws d)
replay-Holds registry env start [] d a h = h
replay-Holds registry env start (w ∷ ws) d a h = elim (Bool-cases w.accepted) [
  | inr f ↦ rw f (replay-Holds registry env start ws d a.1 h)
  | inl t ↦ rw t (
      replay-Holds registry env start ws (record_written w.device_id w.point_name w.value d) a.1
        (record {
          tracked = λ j k. ground (
            arith,
            k,
            a.0.0,
            h.tracked j,
            member-record_written j w.device_id w.point_name w.value d,
            string_equality.is_equal_iff j w.device_id,
          );
          once = record_written-once w.device_id w.point_name w.value d h.once;
          formed = record_written-IsDesired w.device_id w.point_name w.value d h.formed;
        }))
]

pub after_writes :
    (registry : DeviceRegistry) (env : Environment) (start : Desired) (st : Routed)
    → IsRouted registry env start st
    → Holds registry start
    → Holds registry st.last_written
after_writes registry env start st r h =
    subst (Holds registry) (sym r.desired)
      (replay-Holds registry env start st.writes start r.allowed h)

pub held : (s : Linked) → IsLinked s → Holds s.registry s.desired
held s l = record { tracked = l.tracked; once = l.once; formed = l.formed }

pub linked : (s : Linked) → IsIndexed s.registry → Holds s.registry s.desired → IsLinked s
linked s i h = record { indexed = i; tracked = h.tracked; once = h.once; formed = h.formed }

pruned :
    (id : String) (s : Linked)
    → member id s.registry.devices ≡ true
    → IsLinked s
    → Holds (step (unregister_call id) s.registry) (on_device_unregistered id s.desired)
unfolding on_device_unregistered step unregister
pruned id s m l =
    let s₁ = remove_traits id (traits_of id s.registry) s.registry in
    let (i₁, same) = remove_traits-IsIndexed id (traits_of id s.registry) s.registry m l.indexed in
    rw m (record {
      tracked = λ j k. ground (
        arith,
        k,
        same,
        member-erase j id s₁.devices i₁.once,
        member-erase j id s.desired l.once,
        l.tracked j,
      );
      once = erase-Distinct id s.desired l.once;
      formed = All-erase (λ e. Distinct (keys e.1)) id s.desired l.formed;
    })

register_grows :
    (d : Device) (ts : List String) (m : Metadata) (s : DeviceRegistry)
    → IsIndexed s
    → (j : String) → member j s.devices ≡ true
    → member j (after s (register d ts m s)).devices ≡ true
unfolding register
register_grows d ts m s i j k = elim (Bool-cases (member d.device_id s.devices)) [
  | inl t ↦ rw t k
  | inr f ↦
      let same =
        (add_traits-IsIndexed d.device_id ts (enter d m s) (enter-member d m s)
          (enter-IsIndexed d m s f i)).1 in
      rw (f, same) (ground (arith, k, member-insert j d.device_id d s.devices))
]

refresh_grows :
    (id : String) (cs : List String) (s : DeviceRegistry)
    → IsIndexed s
    → (j : String) → member j s.devices ≡ true
    → member j (step (refresh_call id cs) s).devices ≡ true
unfolding step refresh_capability_traits
refresh_grows id cs s i j k = elim (Bool-cases (member id s.devices)) [
  | inr f ↦ rw f k
  | inl m ↦
      let current = only_cap (traits_of id s) in
      let desired = cap_traits cs in
      let s₁ = remove_traits id (minus current desired) s in
      let (i₁, same) = remove_traits-IsIndexed id (minus current desired) s m i in
      let same₂ = (add_traits-IsIndexed id (minus desired current) s₁ (rw same m) i₁).1 in
      rw (m, same₂, same) k
]

-- The calls that leave the devices alone.
abbrev Small : Call → Type 0
Small (register_call d ts m) = ⊥
Small (capable_call d ts m) = ⊥
Small (unregister_call id) = ⊥
Small (refresh_call id cs) = ⊥
Small _ = Unit

traits_grow :
    (c : Call) (s : DeviceRegistry)
    → Small c
    → (j : String) → member j s.devices ≡ true
    → member j (step c s).devices ≡ true
unfolding step add_trait remove_trait notify_status on_status_change on_unregister
    remove_status_observer remove_unregister_observer add_trait_index remove_trait_index
traits_grow (add_call id t) s w j k = ground (arith, k)
traits_grow (remove_call id t) s w j k = ground (arith, k)
traits_grow (notify_call id now) s w j k = ground (arith, k)
traits_grow (status_call cb) s w j k = k
traits_grow (register_call _ _ _) s w j k = elim w [ ]
traits_grow (capable_call _ _ _) s w j k = elim w [ ]
traits_grow (unregister_call _) s w j k = elim w [ ]
traits_grow (refresh_call _ _) s w j k = elim w [ ]
traits_grow (unregister_observer_call cb) s w j k = k
traits_grow (unstatus_call cb) s w j k = k
traits_grow (drop_observer_call cb) s w j k = k

-- No other call takes a device off.
grown :
    (c : Call) (s : Linked)
    → IsLinked s
    → ((id : String)
        → member id s.registry.devices ≡ true
        → member id (step c s.registry).devices ≡ true)
    → Holds (step c s.registry) s.desired
grown c s l g = record { tracked = λ j k. g j (l.tracked j k); once = l.once; formed = l.formed }

pub called-Holds : (c : Call) (s : Linked) → IsLinked s → Holds (step c s.registry) (prune c s)
called-Holds (register_call d ts m) s l =
    grown (register_call d ts m) s l
      (λ j k. unfold step in register_grows d ts m s.registry l.indexed j k)
called-Holds (capable_call d ts m) s l = grown (capable_call d ts m) s l (λ j k.
    unfold step register_with_capabilities in
    register_grows d (ts ++ cap_traits d.capabilities) m s.registry l.indexed j k)
called-Holds (unregister_call id) s l = elim (Bool-cases (member id s.registry.devices)) [
  | inl m ↦ rw m (pruned id s m l)
  | inr f ↦ rw f (grown (unregister_call id) s l (λ j k. unfold step unregister in rw f k))
]
called-Holds (add_call id t) s l =
    grown (add_call id t) s l (λ j k. traits_grow (add_call id t) s.registry tt j k)
called-Holds (remove_call id t) s l =
    grown (remove_call id t) s l (λ j k. traits_grow (remove_call id t) s.registry tt j k)
called-Holds (refresh_call id cs) s l =
    grown (refresh_call id cs) s l (λ j k. refresh_grows id cs s.registry l.indexed j k)
called-Holds (notify_call id now) s l =
    grown (notify_call id now) s l (λ j k. traits_grow (notify_call id now) s.registry tt j k)
called-Holds (status_call cb) s l =
    grown (status_call cb) s l (λ j k. traits_grow (status_call cb) s.registry tt j k)
called-Holds (unregister_observer_call cb) s l =
    grown (unregister_observer_call cb) s l
      (λ j k. traits_grow (unregister_observer_call cb) s.registry tt j k)
called-Holds (unstatus_call cb) s l =
    grown (unstatus_call cb) s l (λ j k. traits_grow (unstatus_call cb) s.registry tt j k)
called-Holds (drop_observer_call cb) s l =
    grown (drop_observer_call cb) s l (λ j k. traits_grow (drop_observer_call cb) s.registry tt j k)
