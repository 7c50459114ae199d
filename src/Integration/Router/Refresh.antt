-- ===== src/Integration/Router/Refresh.antt =====
-- What the refresh of desired state writes (csp_lib/integration/command_refresh.py).
use csp_lib.Base.{
  ℕ, String, ◌&&◌, ◌≡◌, refl, sym, ap, ◌∙◌, Option, some, List, [], ◌∷◌, All, All-map, All-append,
  Distinct, if◌then◌else◌, ◌==◌, string_equality, arith, Bool-cases, Option-cases, inl, inr,
}
use csp_lib.Base.Dict.{
  Dict, keys, lookup, insert, lookup-insert, insert-Distinct, All-lookup, All-insert,
}
use csp_lib.Integration.Registry.{Device, DeviceRegistry, get_device}
use csp_lib.Integration.Registry.Indexed.{IsIndexed}
use csp_lib.Integration.Registry.Found.{entries-All}
use csp_lib.Integration.Router.{
  Environment, number, Desired, Write, Routed, or_new, record_written, get_last_written,
  get_tracked_device_ids, send, is_open, try_write_single, refresh_points, refresh_devices,
  filtered, refresh_once,
}
use csp_lib.Integration.Router.Safety.{IsRouted, try_write_single-IsRouted}

-- The desired value of a point of a device.
abbrev pub last : String → String → Desired → Option ℕ
last id point desired = lookup point (or_new (lookup id desired))

-- The points of each device stand once.
abbrev pub IsDesired : Desired → Type 0
IsDesired desired = All (λ e. Distinct (keys e.1)) desired

pub or_new-Distinct :
    (id : String) (d : Desired) → IsDesired d → Distinct (keys (or_new (lookup id d)))
or_new-Distinct id d h = elim (Option-cases (lookup id d)) [
  | inl n ↦ rw n tt
  | inr (v, e) ↦ rw e (All-lookup (λ p. Distinct (keys p.1)) id v d h e)
]

pub record_written-IsDesired :
    (id p : String) (v : ℕ) (d : Desired) → IsDesired d → IsDesired (record_written id p v d)
unfolding record_written
record_written-IsDesired id p v d h =
    All-insert (λ e. Distinct (keys e.1)) id (insert p v (or_new (lookup id d))) d
      (insert-Distinct p v (or_new (lookup id d)) (or_new-Distinct id d h)) h

pub last-record_written :
    (id p : String) (v : ℕ) (d : Desired) (j q : String)
    → last j q (record_written id p v d) ≡ (if j == id && q == p then some v else last j q d)
unfolding record_written
last-record_written id p v d j q =
    rw (lookup-insert j id (insert p v (or_new (lookup id d))) d) (elim (Bool-cases (j == id)) [
      | inr f ↦ rw f refl
      | inl t ↦
          rw
            (t, lookup-insert q p v (or_new (lookup id d)), (string_equality.is_equal_iff j id).0 t)
            refl
    ])

module _ (registry : DeviceRegistry) (env : Environment) (start : Desired) where
  -- The desired values are the same, and each write sent one of them.
  pub record IsRefreshed (st : Routed) : Type 0 where
    pub same : (id p : String) → last id p st.last_written ≡ last id p start
    pub sent : All (λ w. last w.device_id w.point_name start ≡ some w.value) st.writes
    pub formed : IsDesired st.last_written

  rewrite_same :
      (id p : String) (v : ℕ) (d : Desired)
      → ((j q : String) → last j q d ≡ last j q start)
      → last id p start ≡ some v
      → (j q : String) → last j q (record_written id p v d) ≡ last j q start
  rewrite_same id p v d s h j q =
      last-record_written id p v d j q ∙ (elim (Bool-cases (j == id && q == p)) [
        | inr f ↦ rw f (s j q)
        | inl t ↦
            let same_id : j ≡ id = (string_equality.is_equal_iff j id).0 (ground (arith, t)) in
            let same_point : q ≡ p = (string_equality.is_equal_iff q p).0 (ground (arith, t)) in
            rw t (rw (same_id, same_point) (sym h))
      ])

  send-IsRefreshed :
      (d : Device) (p : String) (v : ℕ) (st : Routed)
      → last d.device_id p start ≡ some v
      → IsRefreshed st
      → IsRefreshed (send registry env d p v st)
  unfolding send
  send-IsRefreshed d p v st h r =
      let w : Write = record {
        device_id = d.device_id;
        point_name = p;
        value = v;
        accepted = env.accepts d.device_id p v;
      } in
      let sent =
        All-append (λ w. last w.device_id w.point_name start ≡ some w.value) st.writes (w ∷ [])
          r.sent (h, tt) in
      elim (Bool-cases (env.accepts d.device_id p v)) [
        | inr f ↦ record { same = rw f r.same; sent = sent; formed = rw f r.formed }
        | inl t ↦ record {
          same = rw t (rewrite_same d.device_id p v st.last_written r.same h);
          sent = sent;
          formed = rw t (record_written-IsDesired d.device_id p v st.last_written r.formed);
        }
      ]

  -- The points of a snapshot have their desired values.
  pub snapshot-held :
      (id : String) (st : Routed)
      → IsRefreshed st
      → All (λ e. last id e.0 start ≡ some e.1) (or_new (lookup id st.last_written))
  snapshot-held id st r =
      let snapshot = or_new (lookup id st.last_written) in
      All-map snapshot (λ e h. sym (r.same id e.0) ∙ h)
        (entries-All snapshot (or_new-Distinct id st.last_written r.formed))

  module _ (indexed : IsIndexed registry) where
    try_write_single-IsRefreshed :
        (id p : String) (v : ℕ) (st : Routed)
        → last id p start ≡ some v
        → IsRefreshed st
        → IsRefreshed (try_write_single registry env id p (number v) st)
    unfolding try_write_single get_device
    try_write_single-IsRefreshed id p v st h r = elim (Option-cases (lookup id registry.devices)) [
      | inl n ↦ rw n r
      | inr (d, e) ↦ elim (Bool-cases (is_open registry env d)) [
        | inr f ↦ rw (e, f) r
        | inl o ↦
            let own : d.device_id ≡ id =
              All-lookup (λ x. x.1.device_id ≡ x.0) id d registry.devices indexed.own e in
            rw (e, o) (send-IsRefreshed d p v st (ap (λ i. last i p start) own ∙ h) r)
      ]
    ]

    pub refresh_points-IsRefreshed :
        (id : String) (snapshot : Dict String ℕ) (st : Routed)
        → All (λ e. last id e.0 start ≡ some e.1) snapshot
        → IsRefreshed st
        → IsRefreshed (refresh_points registry env id snapshot st)
    unfolding refresh_points
    refresh_points-IsRefreshed id [] st h r = r
    refresh_points-IsRefreshed id (e ∷ snapshot) st h r =
        refresh_points-IsRefreshed id snapshot
          (try_write_single registry env id e.0 (number e.1) st) h.1
          (try_write_single-IsRefreshed id e.0 e.1 st h.0 r)

    refresh_devices-IsRefreshed :
        (ids : List String) (st : Routed)
        → IsRefreshed st
        → IsRefreshed (refresh_devices registry env ids st)
    unfolding refresh_devices get_last_written
    refresh_devices-IsRefreshed [] st r = r
    refresh_devices-IsRefreshed (id ∷ ids) st r =
        let snapshot = or_new (lookup id st.last_written) in
        let held = snapshot-held id st r in
        refresh_devices-IsRefreshed ids (refresh_points registry env id snapshot st)
          (refresh_points-IsRefreshed id snapshot st held r)

    refresh_points-IsRouted :
        (id : String) (snapshot : Dict String ℕ) (st : Routed)
        → IsRouted registry env start st
        → IsRouted registry env start (refresh_points registry env id snapshot st)
    unfolding refresh_points
    refresh_points-IsRouted id [] st r = r
    refresh_points-IsRouted id (e ∷ snapshot) st r =
        refresh_points-IsRouted id snapshot (try_write_single registry env id e.0 (number e.1) st)
          (try_write_single-IsRouted registry env start indexed id e.0 (number e.1) st r)

    refresh_devices-IsRouted :
        (ids : List String) (st : Routed)
        → IsRouted registry env start st
        → IsRouted registry env start (refresh_devices registry env ids st)
    unfolding refresh_devices
    refresh_devices-IsRouted [] st r = r
    refresh_devices-IsRouted (id ∷ ids) st r =
        let snapshot = get_last_written id st.last_written in
        refresh_devices-IsRouted ids (refresh_points registry env id snapshot st)
          (refresh_points-IsRouted id snapshot st r)

-- A refresh, with or without a filter, that nothing interrupts between its writes changes no desired
-- value, whatever the devices accept; each of its writes sends a point its desired value, and goes
-- to a registered device that is responsive and not protected.
pub refresh_once-IsRefreshed :
    (registry : DeviceRegistry) (env : Environment) (device_filter : Option (List String))
    (start : Desired)
    → IsIndexed registry
    → IsDesired start
    → (let st =
          refresh_once registry env device_filter (record { last_written = start; writes = [] }) in
        IsRefreshed registry env start st × IsRouted registry env start st)
unfolding refresh_once
refresh_once-IsRefreshed registry env device_filter start indexed formed =
    let ids = filtered registry env device_filter (get_tracked_device_ids start) in
    let st : Routed = record { last_written = start; writes = [] } in
    (
      refresh_devices-IsRefreshed registry env start indexed ids st
          (record { same = λ id p. refl; sent = tt; formed = formed }),
      refresh_devices-IsRouted registry env start indexed ids st
          (record { allowed = tt; desired = refl }),
    )
