-- ===== src/Integration/Registry/Calls.antt =====
-- Any calls of the registry (csp_lib/integration/registry.py).
use csp_lib.Base.{
  ℕ, String, Bool, true, ◌≡◌, refl, sym, ap, ◌∙◌, some, List, [], ◌∷◌, ◌++◌, map, contains, remove,
  nat_equality, string_equality, arith, Bool-cases, Option-cases, inl, inr,
}
use csp_lib.Base.Dict.{lookup, member, insert-Distinct, All-lookup}
use csp_lib.Base.Sets.{sort_texts, contains-sort_texts, IsAscending, sort_texts-IsAscending}
use csp_lib.Integration.Registry.{
  Device, Metadata, DeviceRegistry, Result, ok, value_error, key_error, new, traits_of, ids_of,
  remove_traits, enter, register, register_with_capabilities, cap_traits, unregister, add_trait,
  remove_trait, refresh_capability_traits, only_cap, minus, get_traits, devices_at,
  get_devices_by_trait, on_status_change, remove_status_observer, on_unregister,
  remove_unregister_observer, notify_status,
}
use csp_lib.Integration.Registry.Indexed.{
  IsIndexed, member-insert, add_trait_index-IsIndexed, remove_trait_index-IsIndexed,
  add_traits-IsIndexed, remove_traits-IsIndexed,
}
use csp_lib.Integration.Registry.Forgotten.{enter-IsIndexed, enter-member, without-IsIndexed}

pub data Call : Type 0 where
  register_call : Device → List String → Metadata → Call
  capable_call : Device → List String → Metadata → Call
  unregister_call : String → Call
  add_call remove_call : String → String → Call
  refresh_call : String → List String → Call
  notify_call : String → Bool → Call
  status_call unregister_observer_call unstatus_call drop_observer_call : ℕ → Call

-- A call that raises leaves the registry as it was.
abbrev pub after : DeviceRegistry → Result → DeviceRegistry
after s (ok s' es) = s'
after s value_error = s
after s key_error = s

unfoldable pub step : Call → DeviceRegistry → DeviceRegistry
unfolding register register_with_capabilities unregister add_trait remove_trait
    refresh_capability_traits
step (register_call d ts m) s = after s (register d ts m s)
step (capable_call d ts m) s = after s (register_with_capabilities d ts m s)
step (unregister_call id) s = after s (unregister id s)
step (add_call id t) s = after s (add_trait id t s)
step (remove_call id t) s = after s (remove_trait id t s)
step (refresh_call id cs) s = after s (refresh_capability_traits id cs s)
step (notify_call id now) s = (notify_status id now s).0
step (status_call cb) s = on_status_change cb s
step (unregister_observer_call cb) s = on_unregister cb s
step (unstatus_call cb) s = remove_status_observer cb s
step (drop_observer_call cb) s = remove_unregister_observer cb s

unfoldable pub run_registry : List Call → DeviceRegistry → DeviceRegistry
run_registry [] s = s
run_registry (c ∷ cs) s = run_registry cs (step c s)

register-IsIndexed :
    (d : Device) (ts : List String) (m : Metadata) (s : DeviceRegistry)
    → IsIndexed s
    → IsIndexed (after s (register d ts m s))
unfolding register
register-IsIndexed d ts m s i = elim (Bool-cases (member d.device_id s.devices)) [
  | inl t ↦ rw t i
  | inr f ↦
      rw f
        (add_traits-IsIndexed d.device_id ts (enter d m s) (enter-member d m s)
          (enter-IsIndexed d m s f i)).0
]

-- What concerns neither the devices nor the indices.
observed :
    (s : DeviceRegistry) (xs ys : List ℕ)
    → IsIndexed s
    → IsIndexed (record s { status_observers = xs; unregister_observers = ys })
observed s xs ys i = record {
  formed = record {
    traits_once = i.formed.traits_once;
    index_once = i.formed.index_once;
    trait_sets = i.formed.trait_sets;
    id_sets = i.formed.id_sets;
  };
  two_way = i.two_way;
  registered = i.registered;
  described = i.described;
  based = i.based;
  own = i.own;
  once = i.once;
  metadata_once = i.metadata_once;
  statuses_once = i.statuses_once;
}

notify_status-IsIndexed :
    (id : String) (now : Bool) (s : DeviceRegistry)
    → IsIndexed s
    → IsIndexed (notify_status id now s).0
unfolding notify_status
notify_status-IsIndexed id now s i = elim (Bool-cases (member id s.devices)) [
  | inr f ↦ rw f i
  | inl m ↦ rw m (record {
    formed = record {
      traits_once = i.formed.traits_once;
      index_once = i.formed.index_once;
      trait_sets = i.formed.trait_sets;
      id_sets = i.formed.id_sets;
    };
    two_way = i.two_way;
    registered = i.registered;
    described = i.described;
    based = λ j h. ground (
      arith,
      h,
      m,
      string_equality.is_equal_iff j id,
      member-insert j id now s.last_responsive,
      i.based j,
    );
    own = i.own;
    once = i.once;
    metadata_once = i.metadata_once;
    statuses_once = insert-Distinct id now s.last_responsive i.statuses_once;
  })
]

-- A change of a registered device's traits, as the methods guard it.
refresh-IsIndexed :
    (id : String) (cs : List String) (s : DeviceRegistry)
    → IsIndexed s
    → IsIndexed (after s (refresh_capability_traits id cs s))
unfolding refresh_capability_traits
refresh-IsIndexed id cs s i = elim (Bool-cases (member id s.devices)) [
  | inr f ↦ rw f i
  | inl m ↦
      let current = only_cap (traits_of id s) in
      let desired = cap_traits cs in
      let s₁ = remove_traits id (minus current desired) s in
      let (i₁, same) = remove_traits-IsIndexed id (minus current desired) s m i in
      rw m (add_traits-IsIndexed id (minus desired current) s₁ (rw same m) i₁).0
]

pub step-IsIndexed : (c : Call) (s : DeviceRegistry) → IsIndexed s → IsIndexed (step c s)
unfolding step
step-IsIndexed (register_call d ts m) s i = register-IsIndexed d ts m s i
step-IsIndexed (capable_call d ts m) s i =
    unfold register_with_capabilities in
    register-IsIndexed d (ts ++ cap_traits d.capabilities) m s i
step-IsIndexed (unregister_call id) s i = elim (Bool-cases (member id s.devices)) [
  | inl m ↦ unfold unregister in rw m (without-IsIndexed id s m i)
  | inr f ↦ unfold unregister in rw f i
]
step-IsIndexed (add_call id t) s i = elim (Bool-cases (member id s.devices)) [
  | inl m ↦ unfold add_trait in rw m (add_trait_index-IsIndexed id t s m i)
  | inr f ↦ unfold add_trait in rw f i
]
step-IsIndexed (remove_call id t) s i = elim (Bool-cases (member id s.devices)) [
  | inl m ↦ unfold remove_trait in rw m (remove_trait_index-IsIndexed id t s m i)
  | inr f ↦ unfold remove_trait in rw f i
]
step-IsIndexed (refresh_call id cs) s i = refresh-IsIndexed id cs s i
step-IsIndexed (notify_call id now) s i = notify_status-IsIndexed id now s i
step-IsIndexed (status_call cb) s i =
    unfold on_status_change in observed s (s.status_observers ++ cb ∷ []) s.unregister_observers i
step-IsIndexed (unregister_observer_call cb) s i =
    unfold on_unregister in observed s s.status_observers (s.unregister_observers ++ cb ∷ []) i
step-IsIndexed (unstatus_call cb) s i =
    unfold remove_status_observer in
    observed s (remove cb s.status_observers) s.unregister_observers i
step-IsIndexed (drop_observer_call cb) s i =
    unfold remove_unregister_observer in
    observed s s.status_observers (remove cb s.unregister_observers) i

run_registry-keeps :
    (cs : List Call) (s : DeviceRegistry) → IsIndexed s → IsIndexed (run_registry cs s)
unfolding run_registry
run_registry-keeps [] s i = i
run_registry-keeps (c ∷ cs) s i = run_registry-keeps cs (step c s) (step-IsIndexed c s i)

-- After any calls on a new registry, raising ones included, a device has a trait exactly when the
-- trait lists the device, only registered devices have traits, metadata and a status, every device
-- stands under its own id, and no set or dict holds anything twice.
pub run_registry-IsIndexed : (cs : List Call) → IsIndexed (run_registry cs new)
unfolding new
run_registry-IsIndexed cs = run_registry-keeps cs _ (record {
  formed = record { traits_once = tt; index_once = tt; trait_sets = tt; id_sets = tt };
  two_way = λ j t. refl;
  registered = λ j. refl;
  described = λ j. refl;
  based = λ j h. cc;
  own = tt;
  once = tt;
  metadata_once = tt;
  statuses_once = tt;
})

registered_trait :
    (s : DeviceRegistry) (id t : String)
    → IsIndexed s
    → contains id (ids_of t s) ≡ true
    → member id s.devices ≡ true
registered_trait s id t i h =
    sym (i.registered id) ∙ (elim (Option-cases (lookup id s.device_traits)) [
      | inl n ↦ absurd (ground (arith, has, n))
      | inr (v, e) ↦ rw e refl
    ])
  where
    has : contains t (traits_of id s) ≡ true
    has = i.two_way id t ∙ h

-- The devices under some ids are found, in their order, if the ids are registered.
devices_at-total :
    (ids : List String) (s : DeviceRegistry)
    → IsIndexed s
    → ((id : String) → contains id ids ≡ true → member id s.devices ≡ true)
    → (ds : List Device) × (devices_at ids s ≡ some ds) × (map (λ d. d.device_id) ds ≡ ids)
unfolding devices_at
devices_at-total [] s i h = ([], refl, refl)
devices_at-total (id ∷ ids) s i h =
    let (ds, found, named) = devices_at-total ids s i (λ j k. h j (ground (arith, k))) in
    let here = h id (ground (arith, string_equality.is_equal_iff id id)) in
    elim (Option-cases (lookup id s.devices)) [
      | inl n ↦ absurd (ground (arith, n, here))
      | inr (d, e) ↦
          let own : d.device_id ≡ id =
            All-lookup (λ p. p.1.device_id ≡ p.0) id d s.devices i.own e in
          (d ∷ ds, rw (e, found) refl, rw (own, named) refl)
    ]

-- After any calls on a new registry a query by trait raises no `KeyError`: it returns exactly the
-- devices that have the trait, in the order of their ids.
pub get_devices_by_trait-total :
    (cs : List Call) (t : String)
    → let s = run_registry cs new in
      (ds : List Device) × (get_devices_by_trait t s ≡ some ds)
      × IsAscending (map (λ d. d.device_id) ds)
      × ((id : String) → contains id (map (λ d. d.device_id) ds) ≡ contains t (get_traits id s))
unfolding get_devices_by_trait get_traits
get_devices_by_trait-total cs t =
    let s = run_registry cs new in
    let i = run_registry-IsIndexed cs in
    let (ds, found, named) =
      devices_at-total (sort_texts (ids_of t s)) s i
        (λ id h. registered_trait s id t i (sym (contains-sort_texts id (ids_of t s)) ∙ h)) in
    (
      ds,
      found,
      rw named (sort_texts-IsAscending (ids_of t s)),
      λ id. ap (contains id) named ∙ (contains-sort_texts id (ids_of t s) ∙ sym (i.two_way id t)),
    )
