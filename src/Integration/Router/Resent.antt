-- ===== src/Integration/Router/Resent.antt =====
-- Which writes a refresh of desired state sends (csp_lib/integration/command_refresh.py).
use csp_lib.Base.{
  ℕ, String, Bool, true, false, not, ◌&&◌, ◌||◌, ◌≡◌, refl, sym, ap, ◌∙◌, Option, none, some, List,
  [], ◌∷◌, ◌++◌, Distinct, contains, ◌==◌, nat_equality, string_equality, arith, Bool-cases,
  Option-cases, inl, inr,
}
use csp_lib.Base.Dict.{Dict, keys, lookup, member, All-lookup, contains-keys}
use csp_lib.Integration.Registry.{DeviceRegistry, get_device}
use csp_lib.Integration.Registry.Indexed.{IsIndexed}
use csp_lib.Integration.Router.{
  Environment, number, Desired, Write, Routed, or_new, get_last_written, get_tracked_device_ids,
  send, is_open, try_write_single, refresh_points, refresh_devices, filtered, refresh_once,
}
use csp_lib.Integration.Router.Refresh.{
  last, IsDesired, IsRefreshed, or_new-Distinct, refresh_points-IsRefreshed, snapshot-held,
  refresh_once-IsRefreshed,
}

-- The writes hold one of the value to the point.
abbrev pub was_sent : String → String → ℕ → List Write → Bool
was_sent id p v [] = false
was_sent id p v (w ∷ ws) =
    (id == w.device_id && p == w.point_name && v == w.value) || was_sent id p v ws

abbrev pub is_value : ℕ → Option ℕ → Bool
is_value v none = false
is_value v (some u) = v == u

abbrev pub passes : Option (List String) → String → Bool
passes none id = true
passes (some device_filter) id = contains id device_filter

was_sent-append :
    (id p : String) (v : ℕ) (ws vs : List Write)
    → was_sent id p v (ws ++ vs) ≡ (was_sent id p v ws || was_sent id p v vs)
was_sent-append id p v [] vs = refl
was_sent-append id p v (w ∷ ws) vs = ground (arith, was_sent-append id p v ws vs)

module _ (registry : DeviceRegistry) (env : Environment) where
  -- A registered device that is responsive and not protected.
  abbrev pub is_ready : String → Bool
  is_ready id = member id registry.devices && not (env.is_protected id) && env.is_responsive id

  was_sent-try :
      (id p : String) (v : ℕ) (j q : String) (u : ℕ) (st : Routed)
      → IsIndexed registry
      → was_sent id p v (try_write_single registry env j q (number u) st).writes
        ≡ (was_sent id p v st.writes || (id == j && p == q && v == u && is_ready j))
  unfolding try_write_single get_device send
  was_sent-try id p v j q u st indexed = elim (Option-cases (lookup j registry.devices)) [
    | inl n ↦ rw n (ground arith)
    | inr (d, e) ↦
        let own : d.device_id ≡ j =
          All-lookup (λ x. x.1.device_id ≡ x.0) j d registry.devices indexed.own e in
        elim (Bool-cases (is_open registry env d)) [
          | inr f ↦ rw (e, f) (ground (arith, f, own))
          | inl o ↦
              let w : Write = record {
                device_id = d.device_id;
                point_name = q;
                value = u;
                accepted = env.accepts d.device_id q u;
              } in
              rw (e, o) (ground (arith, o, own, was_sent-append id p v st.writes (w ∷ [])))
        ]
  ]

  was_sent-points :
      (id p : String) (v : ℕ) (j : String) (snapshot : Dict String ℕ) (st : Routed)
      → IsIndexed registry
      → Distinct (keys snapshot)
      → was_sent id p v (refresh_points registry env j snapshot st).writes
        ≡ (was_sent id p v st.writes || (id == j && is_value v (lookup p snapshot) && is_ready j))
  unfolding refresh_points
  was_sent-points id p v j [] st indexed h = ground arith
  was_sent-points id p v j (e ∷ snapshot) st indexed h = ground (
    arith,
    h.0,
    was_sent-points id p v j snapshot (try_write_single registry env j e.0 (number e.1) st) indexed
        h.1,
    was_sent-try id p v j e.0 e.1 st indexed,
    contains-keys e.0 snapshot,
    string_equality.is_equal_iff p e.0,
  )

  -- The snapshots of the devices are the desired values at the start.
  was_sent-devices :
      (start : Desired) (id p : String) (v : ℕ) (ids : List String) (st : Routed)
      → IsIndexed registry
      → IsRefreshed registry env start st
      → was_sent id p v (refresh_devices registry env ids st).writes ≡ (
          was_sent id p v st.writes
          || (contains id ids && is_value v (last id p start) && is_ready id))
  unfolding refresh_devices get_last_written
  was_sent-devices start id p v [] st indexed r = ground arith
  was_sent-devices start id p v (j ∷ ids) st indexed r =
      let snapshot = or_new (lookup j st.last_written) in
      let r' =
        refresh_points-IsRefreshed registry env start indexed j snapshot st
          (snapshot-held registry env start j st r) r in
      let same : id ≡ j → lookup p snapshot ≡ last id p start =
        λ e. ap (λ i. last i p st.last_written) (sym e) ∙ r.same id p in
      elim (Bool-cases (id == j)) [
        | inl t ↦ ground (
          arith,
          t,
          (string_equality.is_equal_iff id j).0 t,
          was_sent-devices start id p v ids (refresh_points registry env j snapshot st) indexed r',
          was_sent-points id p v j snapshot st indexed (or_new-Distinct j st.last_written r.formed),
          ap (is_value v) (same ((string_equality.is_equal_iff id j).0 t)),
        )
        | inr f ↦ ground (
          arith,
          f,
          was_sent-devices start id p v ids (refresh_points registry env j snapshot st) indexed r',
          was_sent-points id p v j snapshot st indexed (or_new-Distinct j st.last_written r.formed),
        )
      ]

  contains-filtered :
      (device_filter : Option (List String)) (id : String) (ids : List String)
      → contains id (filtered registry env device_filter ids)
        ≡ (contains id ids && passes device_filter id)
  contains-filtered none id ids = ground arith
  contains-filtered (some f) id [] = refl
  contains-filtered (some f) id (j ∷ ids) =
      ground (arith, contains-filtered (some f) id ids, string_equality.is_equal_iff id j)

-- A refresh, with or without a filter, during which nothing else runs between its writes: whatever
-- the devices accept, it leaves the desired values as they were, and it sends a value to a point of
-- a device exactly where the value is the desired one of the point and the device is tracked, passes
-- the filter, is registered and responsive, and is not protected.
pub refresh_once-resends :
    (registry : DeviceRegistry) (env : Environment) (device_filter : Option (List String))
    (start : Desired)
    → IsIndexed registry
    → IsDesired start
    → (let st =
          refresh_once registry env device_filter (record { last_written = start; writes = [] }) in
        ((id p : String) → last id p st.last_written ≡ last id p start)
        × ((id p : String) (v : ℕ)
            → was_sent id p v st.writes ≡ (
                contains id (get_tracked_device_ids start)
                && passes device_filter id
                && is_value v (last id p start)
                && is_ready registry env id)))
unfolding refresh_once
refresh_once-resends registry env device_filter start indexed formed =
    let ids = filtered registry env device_filter (get_tracked_device_ids start) in
    let st : Routed = record { last_written = start; writes = [] } in
    let r : IsRefreshed registry env start st = record {
      same = λ id p. refl;
      sent = tt;
      formed = formed;
    } in
    (
      (refresh_once-IsRefreshed registry env device_filter start indexed formed).0.same,
      λ id p v. ground (
        arith,
        was_sent-devices registry env start id p v ids st indexed r,
        contains-filtered registry env device_filter id (get_tracked_device_ids start),
      ),
    )
