-- ===== src/Integration/InFlight/Late.antt =====
-- What a write that was under way does to the desired state (csp_lib/integration/command_router.py,
-- command_refresh.py).
use csp_lib.Base.{
  ℕ, String, Bool, true, ◌≡◌, refl, sym, ap, subst, ◌∙◌, Option, none, some, List, [], ◌∷◌,
  contains, Distinct, ==_refl, string_equality, arith, Bool-cases, Option-cases, inl, inr,
}
use csp_lib.Base.Dict.{Dict, keys, lookup, member, contains-keys, All-lookup}
use csp_lib.Integration.Registry.{DeviceRegistry, get_device}
use csp_lib.Integration.Registry.Indexed.{IsIndexed}
use csp_lib.Integration.Registry.Calls.{unregister_call, step}
use csp_lib.Integration.Registry.Forgotten.{unregister_forgets}
use csp_lib.Integration.Router.{
  Environment, Setting, number, no_change, Routed, is_open, send, try_write_single, record_written,
  on_device_unregistered, get_tracked_device_ids, get_last_written,
}
use csp_lib.Integration.Linked.{Linked, IsLinked}
use csp_lib.Integration.Linked.Held.{member-record_written}
use csp_lib.Integration.Router.Refresh.{last, last-record_written, or_new-Distinct}
use csp_lib.Integration.Router.Resent.{is_ready}
use csp_lib.Integration.InFlight.{
  begin_write, end_write, finish, Busy, Step, called, begun, ended, snapped, resumed, advance,
  run_busy,
}

-- A write that nothing comes between is `try_write_single`.
pub undisturbed :
    (s : Linked) (env : Environment) (id p : String) (setting : Setting) (went : Bool) (st : Routed)
    → IsLinked s
    → ((q : String) (v : ℕ) → env.accepts id q v ≡ went)
    → finish went (begin_write s.registry env id p setting) st.last_written
      ≡ (try_write_single s.registry env id p setting st).last_written
unfolding begin_write end_write try_write_single send get_device
undisturbed s env id p no_change went st l h = refl
undisturbed s env id p (number v) went st l h = elim (Option-cases (lookup id s.registry.devices)) [
  | inl n ↦ rw n refl
  | inr (d, e) ↦
      let own : d.device_id ≡ id =
        All-lookup (λ x. x.1.device_id ≡ x.0) id d s.registry.devices l.indexed.own e in
      elim (Bool-cases (is_open s.registry env d)) [
        | inr f ↦ rw (e, f) refl
        | inl o ↦ rw (e, o) (ground (arith, own, h p v))
      ]
]

-- A write to a device that is ready begins.
begins :
    (registry : DeviceRegistry) (env : Environment) (id p : String) (v : ℕ)
    → IsIndexed registry
    → is_ready registry env id ≡ true
    → begin_write registry env id p (number v)
      ≡ some (record { device_id = id; point_name = p; value = v })
unfolding begin_write get_device
begins registry env id p v indexed r = elim (Option-cases (lookup id registry.devices)) [
  | inl n ↦ absurd (ground (arith, r, n))
  | inr (d, e) ↦
      let own : d.device_id ≡ id =
        All-lookup (λ x. x.1.device_id ≡ x.0) id d registry.devices indexed.own e in
      rw e (ground (arith, own, r))
]

-- A write that is under way when its device is unregistered is recorded once it goes through: the
-- registry has no such device then, and the router tracks it, whatever other writes are under way.
pub late_record_tracked :
    (s : Busy) (env : Environment) (id p : String) (v : ℕ)
    → IsLinked s.system
    → is_ready s.system.registry env id ≡ true
    → (let s' =
          run_busy (begun env id p (number v) ∷ called (unregister_call id) ∷ ended true ∷ []) s in
        (get_device id s'.system.registry ≡ none)
        × (contains id (get_tracked_device_ids s'.system.desired) ≡ true)
        × (s'.under_way ≡ s.under_way))
unfolding run_busy advance end_write step get_tracked_device_ids
late_record_tracked s env id p v l r =
    let m : member id s.system.registry.devices ≡ true = ground (arith, r) in
    let (s', made, found, traits, left, last_of, indexed) =
      unregister_forgets id s.system.registry m l.indexed in
    rw (begins s.system.registry env id p v l.indexed r) (
      rw made (found id ∙ (rw (==_refl id) refl)),
      rw m (
          contains-keys id (record_written id p v (on_device_unregistered id s.system.desired))
          ∙ ground (
            arith,
            member-record_written id id p v (on_device_unregistered id s.system.desired),
            ==_refl id,
          )),
      refl,
    )

-- The steps that take the refresh of a device through its snapshot.
abbrev pub resumes : Environment → Dict String ℕ → List Step
resumes env [] = []
resumes env (e ∷ snapshot) = resumed env true ∷ resumes env snapshot

abbrev pub or_last : Option ℕ → Option ℕ → Option ℕ
or_last none o = o
or_last (some u) o = some u

abbrev refreshing : String → Dict String ℕ → Busy → Busy
refreshing id snapshot s = record s { device = id; snapshot = snapshot }

resumed_one :
    (env : Environment) (id : String) (e : String × ℕ) (snapshot : Dict String ℕ) (s : Busy)
    → IsIndexed s.system.registry
    → is_ready s.system.registry env id ≡ true
    → advance (resumed env true) (refreshing id (e ∷ snapshot) s)
      ≡ refreshing id snapshot (record s {
        system = record s.system { desired = record_written id e.0 e.1 s.system.desired };
      })
unfolding advance end_write
resumed_one env id e snapshot s i r =
    ap
      (λ o.
        refreshing id snapshot
          (record s { system = record s.system { desired = finish true o s.system.desired } }))
      (begins s.system.registry env id e.0 e.1 i r)

last-resumes :
    (env : Environment) (id p : String) (snapshot : Dict String ℕ) (s : Busy)
    → IsIndexed s.system.registry
    → is_ready s.system.registry env id ≡ true
    → Distinct (keys snapshot)
    → (let s' = run_busy (resumes env snapshot) (refreshing id snapshot s) in
        (last id p s'.system.desired ≡ or_last (lookup p snapshot) (last id p s.system.desired))
        × (s'.snapshot ≡ []))
unfolding run_busy advance end_write
last-resumes env id p [] s i r h = (refl, refl)
last-resumes env id p (e ∷ snapshot) s i r h =
    let next : Busy = record s {
      system = record s.system { desired = record_written id e.0 e.1 s.system.desired };
    } in
    let (found, done) = last-resumes env id p snapshot next i r h.1 in
    subst
      (λ x.
        let s' = run_busy (resumes env snapshot) x in
        (last id p s'.system.desired
          ≡ or_last (lookup p (e ∷ snapshot)) (last id p s.system.desired))
        × (s'.snapshot ≡ []))
      (sym (resumed_one env id e snapshot s i r))
      (
        found
            ∙ ground (
              arith,
              last-record_written id e.0 e.1 s.system.desired id p,
              ==_refl id,
              string_equality.is_equal_iff p e.0,
              h.0,
              contains-keys e.0 snapshot,
            ),
        done,
      )

pub stale_refresh_reverts :
    (s : Busy) (env : Environment) (id p : String) (u v : ℕ)
    → IsLinked s.system
    → is_ready s.system.registry env id ≡ true
    → last id p s.system.desired ≡ some u
    → (let s₁ = run_busy (snapped id ∷ begun env id p (number v) ∷ ended true ∷ []) s in
        let s₂ = run_busy (resumes env s₁.snapshot) s₁ in
        (last id p s₁.system.desired ≡ some v)
        × (last id p s₂.system.desired ≡ some u)
        × (s₂.snapshot ≡ []))
unfolding run_busy advance end_write get_last_written
stale_refresh_reverts s env id p u v l r e =
    let snapshot = get_last_written id s.system.desired in
    let wrote : Busy = record s {
      system = record s.system { desired = record_written id p v s.system.desired };
    } in
    let (found, done) =
      last-resumes env id p snapshot wrote l.indexed r
        (or_new-Distinct id s.system.desired l.formed) in
    rw (begins s.system.registry env id p v l.indexed r) (
      last-record_written id p v s.system.desired id p ∙ rw (==_refl id, ==_refl p) refl,
      found ∙ ap (λ o. or_last o (last id p wrote.system.desired)) e,
      done,
    )
