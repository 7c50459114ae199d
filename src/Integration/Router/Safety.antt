-- ===== src/Integration/Router/Safety.antt =====
-- What a routed command writes (csp_lib/integration/command_router.py).
use csp_lib.Base.{
  ℕ, String, true, false, ◌&&◌, ◌≡◌, refl, sym, ap, ◌∙◌, Option, none, some, List, [], ◌∷◌, ◌++◌,
  filter, All, All-map, All-append, if◌then◌else◌, string_equality, arith, Bool-cases, Option-cases,
  inl, inr,
}
use csp_lib.Base.Dict.{Dict, lookup, member}
use csp_lib.Integration.Registry.{
  Device, DeviceRegistry, has_capability, get_device, get_responsive_devices_by_trait,
  get_responsive_devices_with_capability,
}
use csp_lib.Integration.Registry.Indexed.{IsIndexed}
use csp_lib.Integration.Registry.Found.{
  IsRegistered, lookup-IsRegistered, by_trait-All, with_capability-All, filter-All, All?,
}
use csp_lib.Integration.Router.{
  Environment, Setting, no_change, number, Command, Target, single, by_trait, auto, CommandMapping,
  CapabilityCommandMapping, Desired, Write, Routed, record_written, value_of, or_none, send,
  is_open, try_write_single, broadcast, with_trait, write_trait_broadcast, point_of, capable,
  send_capable, write_capability, send_mapped, send_capability, route_mappings, route_capabilities,
  route, open_devices, resolve_capability_targets, field_of, send_value, route_targets, route_each,
  route_per_device,
}

-- The desired state that the writes that went through make, one after the other.
abbrev pub replay : List Write → Desired → Desired
replay [] desired = desired
replay (w ∷ ws) desired =
    replay ws
      (if w.accepted then record_written w.device_id w.point_name w.value desired else desired)

pub replay-append :
    (ws vs : List Write) (d : Desired) → replay (ws ++ vs) d ≡ replay vs (replay ws d)
replay-append [] vs d = refl
replay-append (w ∷ ws) vs d =
    replay-append ws vs
      (if w.accepted then record_written w.device_id w.point_name w.value d else d)

module _ (registry : DeviceRegistry) (env : Environment) (start : Desired) where
  -- The write went to a registered device that was responsive and not protected, and its outcome
  -- is the device's.
  abbrev pub IsAllowed : Write → Type 0
  IsAllowed w =
      (member w.device_id registry.devices ≡ true)
      × (env.is_protected w.device_id ≡ false)
      × (env.is_responsive w.device_id ≡ true)
      × (w.accepted ≡ env.accepts w.device_id w.point_name w.value)

  pub record IsRouted (st : Routed) : Type 0 where
    pub allowed : All IsAllowed st.writes
    pub desired : st.last_written ≡ replay st.writes start

  -- A device that may be written to.
  abbrev Ready : Device → Type 0
  Ready d = IsRegistered registry d × (env.is_responsive d.device_id ≡ true)

  send-IsRouted :
      (d : Device) (point : String) (v : ℕ) (st : Routed)
      → Ready d
      → env.is_protected d.device_id ≡ false
      → IsRouted st
      → IsRouted (send registry env d point v st)
  unfolding send
  send-IsRouted d point v st ready p r =
      let w : Write = record {
        device_id = d.device_id;
        point_name = point;
        value = v;
        accepted = env.accepts d.device_id point v;
      } in
      record {
        allowed =
            All-append IsAllowed st.writes (w ∷ []) r.allowed
              ((ground (arith, ready.0), p, ready.1, refl), tt);
        desired =
            ap (λ d. if w.accepted then record_written w.device_id w.point_name w.value d else d)
              r.desired
            ∙ sym (replay-append st.writes (w ∷ []) start);
      }

  broadcast-IsRouted :
      (point : Device → String) (v : ℕ) (ds : List Device) (st : Routed)
      → All Ready ds
      → IsRouted st
      → IsRouted (broadcast registry env point v ds st)
  unfolding broadcast
  broadcast-IsRouted point v [] st h r = r
  broadcast-IsRouted point v (d ∷ ds) st h r = elim (Bool-cases (env.is_protected d.device_id)) [
    | inl t ↦ rw t (broadcast-IsRouted point v ds st h.1 r)
    | inr f ↦ rw f (
        broadcast-IsRouted point v ds (send registry env d (point d) v st) h.1
          (send-IsRouted d (point d) v st h.0 f r))
  ]

  or_none-All : (P : Device → Type 0) (ds : Option (List Device)) → All? P ds → All P (or_none ds)
  or_none-All P none h = tt
  or_none-All P (some ds) h = h

  module _ (indexed : IsIndexed registry) where
    with_trait-All : (t : String) → All Ready (with_trait registry env t)
    with_trait-All t =
        or_none-All Ready (get_responsive_devices_by_trait env.is_responsive t registry)
          (by_trait-All env.is_responsive t registry indexed)

    capable-All :
        (m : CapabilityCommandMapping) (ds : List Device)
        → All Ready ds
        → All Ready (capable registry env m ds)
    capable-All m ds h =
        All-map (filter (has_capability m.capability) ds) (λ d k. k.0)
          (filter-All Ready (has_capability m.capability) ds h)

    Ready-device :
        (id : String) (d : Device)
        → get_device id registry ≡ some d
        → is_open registry env d ≡ true
        → Ready d × (env.is_protected d.device_id ≡ false)
    unfolding get_device
    Ready-device id d h o =
        ((lookup-IsRegistered registry id d indexed h, ground (arith, o)), ground (arith, o))

    pub try_write_single-IsRouted :
        (id point : String) (v : Setting) (st : Routed)
        → IsRouted st
        → IsRouted (try_write_single registry env id point v st)
    unfolding try_write_single
    try_write_single-IsRouted id point no_change st r = r
    try_write_single-IsRouted id point (number v) st r =
        elim (Option-cases (get_device id registry)) [
          | inl n ↦ rw n r
          | inr (d, h) ↦ elim (Bool-cases (is_open registry env d)) [
            | inr f ↦ rw (h, f) r
            | inl o ↦
                let (ready, open_) = Ready-device id d h o in
                rw (h, o) (send-IsRouted d point v st ready open_ r)
          ]
        ]

    send_capable-IsRouted :
        (m : CapabilityCommandMapping) (id : String) (v : ℕ) (st : Routed)
        → IsRouted st
        → IsRouted (send_capable registry env m (get_device id registry) v st)
    send_capable-IsRouted m id v st r = elim (Option-cases (get_device id registry)) [
      | inl n ↦ rw n r
      | inr (d, h) ↦ elim (Bool-cases (is_open registry env d && has_capability m.capability d)) [
        | inr f ↦ rw (h, f) r
        | inl o ↦
            let (ready, open_) = Ready-device id d h (ground (arith, o)) in
            rw (h, o) (send-IsRouted d (point_of registry env m d) v st ready open_ r)
      ]
    ]

    write_capability-IsRouted :
        (m : CapabilityCommandMapping) (target : Target) (v : ℕ) (st : Routed)
        → IsRouted st
        → IsRouted (write_capability registry env m target v st)
    unfolding write_capability
    write_capability-IsRouted m (single id) v st r = send_capable-IsRouted m id v st r
    write_capability-IsRouted m (by_trait t) v st r =
        broadcast-IsRouted (point_of registry env m) v
          (capable registry env m (with_trait registry env t)) st
          (capable-All m (with_trait registry env t) (with_trait-All t)) r
    write_capability-IsRouted m auto v st r =
        broadcast-IsRouted (point_of registry env m) v
          (get_responsive_devices_with_capability env.is_responsive m.capability registry) st
          (with_capability-All env.is_responsive m.capability registry indexed) r

    send_mapped-IsRouted :
        (m : CommandMapping) (v : Option ℕ) (st : Routed)
        → IsRouted st
        → IsRouted (send_mapped registry env m v st)
    send_mapped-IsRouted m none st r = r
    send_mapped-IsRouted m (some v) st r = elim (Bool-cases m.is_trait) [
      | inl t ↦
          unfold write_trait_broadcast in
          rw t (
            broadcast-IsRouted (λ d. m.point_name) v (with_trait registry env m.target) st
              (with_trait-All m.target) r)
      | inr f ↦ rw f (try_write_single-IsRouted m.target m.point_name (number v) st r)
    ]

    send_capability-IsRouted :
        (m : CapabilityCommandMapping) (v : Option ℕ) (st : Routed)
        → IsRouted st
        → IsRouted (send_capability registry env m v st)
    send_capability-IsRouted m none st r = r
    send_capability-IsRouted m (some v) st r = write_capability-IsRouted m m.target v st r

    route_mappings-IsRouted :
        (command : Command) (ms : List CommandMapping) (st : Routed)
        → IsRouted st
        → IsRouted (route_mappings registry env command ms st)
    unfolding route_mappings
    route_mappings-IsRouted command [] st r = r
    route_mappings-IsRouted command (m ∷ ms) st r =
        let v = value_of m.transform (command m.command_field) in
        route_mappings-IsRouted command ms (send_mapped registry env m v st)
          (send_mapped-IsRouted m v st r)

    route_capabilities-IsRouted :
        (command : Command) (ms : List CapabilityCommandMapping) (st : Routed)
        → IsRouted st
        → IsRouted (route_capabilities registry env command ms st)
    unfolding route_capabilities
    route_capabilities-IsRouted command [] st r = r
    route_capabilities-IsRouted command (m ∷ ms) st r =
        let v = value_of m.transform (command m.command_field) in
        route_capabilities-IsRouted command ms (send_capability registry env m v st)
          (send_capability-IsRouted m v st r)

    open_devices-All :
        (ds : List Device)
        → All Ready ds
        → All (λ d. Ready d × (env.is_protected d.device_id ≡ false)) (open_devices registry env ds)
    open_devices-All ds h =
        All-map (filter (is_open registry env) ds) (λ d k. (k.0, ground (arith, k.1)))
          (filter-All Ready (is_open registry env) ds h)

    targets-All :
        (m : CapabilityCommandMapping) (target : Target)
        → All
            (λ d. Ready d × (env.is_protected d.device_id ≡ false))
            (resolve_capability_targets registry env m target)
    unfolding resolve_capability_targets
    targets-All m (single id) = elim (Option-cases (get_device id registry)) [
      | inl n ↦ rw n tt
      | inr (d, h) ↦ elim (Bool-cases (is_open registry env d && has_capability m.capability d)) [
        | inr f ↦ rw (h, f) tt
        | inl o ↦ rw (h, o) (Ready-device id d h (ground (arith, o)), tt)
      ]
    ]
    targets-All m (by_trait t) =
        open_devices-All (capable registry env m (with_trait registry env t))
          (capable-All m (with_trait registry env t) (with_trait-All t))
    targets-All m auto =
        open_devices-All
          (get_responsive_devices_with_capability env.is_responsive m.capability registry)
          (with_capability-All env.is_responsive m.capability registry indexed)

    send_value-IsRouted :
        (d : Device) (m : CapabilityCommandMapping) (v : Option ℕ) (st : Routed)
        → Ready d
        → env.is_protected d.device_id ≡ false
        → IsRouted st
        → IsRouted (send_value registry env d m v st)
    send_value-IsRouted d m none st h p r = r
    send_value-IsRouted d m (some v) st h p r =
        send-IsRouted d (point_of registry env m d) v st h p r

    route_targets-IsRouted :
        (commands : Dict String Command) (m : CapabilityCommandMapping) (ds : List Device)
        (st : Routed)
        → All (λ d. Ready d × (env.is_protected d.device_id ≡ false)) ds
        → IsRouted st
        → IsRouted (route_targets registry env commands m ds st)
    unfolding route_targets
    route_targets-IsRouted commands m [] st h r = r
    route_targets-IsRouted commands m (d ∷ ds) st h r =
        let v =
          value_of m.transform
            (field_of registry env (lookup d.device_id commands) m.command_field) in
        route_targets-IsRouted commands m ds (send_value registry env d m v st) h.1
          (send_value-IsRouted d m v st h.0.0 h.0.1 r)

    route_each-IsRouted :
        (commands : Dict String Command) (ms : List CapabilityCommandMapping) (st : Routed)
        → IsRouted st
        → IsRouted (route_each registry env commands ms st)
    unfolding route_each
    route_each-IsRouted commands [] st r = r
    route_each-IsRouted commands (m ∷ ms) st r =
        let ds = resolve_capability_targets registry env m m.target in
        route_each-IsRouted commands ms (route_targets registry env commands m ds st)
          (route_targets-IsRouted commands m ds st (targets-All m m.target) r)

-- Over a registry whose indices agree, every write of `route` and of `route_per_device` goes to a
-- registered device that is responsive and not protected, and the desired state afterwards is the
-- one before with the writes that went through recorded, in order, and no others.
pub route-IsRouted :
    (registry : DeviceRegistry) (env : Environment) (ms : List CommandMapping)
    (cs : List CapabilityCommandMapping) (command : Command) (commands : Dict String Command)
    (start : Desired)
    → IsIndexed registry
    → (let st : Routed = record { last_written = start; writes = [] } in
        IsRouted registry env start (route registry env ms cs command st)
        × IsRouted registry env start (route_per_device registry env ms cs command commands st))
unfolding route route_per_device
route-IsRouted registry env ms cs command commands start indexed =
    let st : Routed = record { last_written = start; writes = [] } in
    let r =
      route_mappings-IsRouted registry env start indexed command ms st
        (record { allowed = tt; desired = refl }) in
    let st' = route_mappings registry env command ms st in
    (
      route_capabilities-IsRouted registry env start indexed command cs st' r,
      route_each-IsRouted registry env start indexed commands cs st' r,
    )
