-- ===== src/Aggregator/Cancelling.antt =====
-- The set of active sources, and the hooks that `unbind` cancels (csp_lib/alarm/aggregator.py).
use csp_lib.Base.{
  ℕ, String, Bool, true, false, ◌≡◌, refl, Option, none, some, List, [], ◌∷◌, contains, Distinct,
  if◌then◌else◌, ◌==◌, ==_refl, nat_equality, string_equality, arith, Bool-cases, Option-cases, inl,
  inr, contains-append, contains-remove_ne, contains-remove_self, remove-Distinct,
  append_one-Distinct,
}
use csp_lib.Base.Dict.{lookup, erase}
use csp_lib.Aggregator.{
  HookKind, device, watchdog, Hook, AlarmAggregator, new, write_source, set_source_active,
  mark_source, handle, handle_as, unbind, run_unbinder, pop_unbinder, bind, bind_named, source_name,
  bind_device, bind_watchdog, on_change, remove_observer, Call, device_call, watchdog_call,
  unbind_call, event, mark_call, observe, unobserve, or_same, perform, run_calls,
}

-- What later calls keep, whatever they are.
record Keeps (s t : AlarmAggregator) : Type 0 where
  cancelled : (id : ℕ) → contains id s.cancelled ≡ true → contains id t.cancelled ≡ true
  distinct : Distinct s.active_sources → Distinct t.active_sources

keeps : (s : AlarmAggregator) → Keeps s s
keeps s = record { cancelled = λ id h. h; distinct = λ h. h }

Keeps-trans : (s t u : AlarmAggregator) → Keeps s t → Keeps t u → Keeps s u
Keeps-trans s t u h k = record {
  cancelled = λ id c. k.cancelled id (h.cancelled id c);
  distinct = λ d. k.distinct (h.distinct d);
}

write_source-Distinct :
    (name : String) (value : Bool) (xs : List String)
    → Distinct xs
    → Distinct (write_source name value xs)
write_source-Distinct name true xs h = elim (Bool-cases (contains name xs)) [
  | inl t ↦ rw t h
  | inr f ↦ rw f (append_one-Distinct name xs h f)
]
write_source-Distinct name false xs h = remove-Distinct name xs h

set_source_active-Keeps :
    (name : String) (value : Bool) (s : AlarmAggregator)
    → Keeps s (set_source_active name value s).0
unfolding set_source_active
set_source_active-Keeps name value s = record {
  cancelled = λ id h. h;
  distinct = write_source-Distinct name value s.active_sources;
}

handle_as-Keeps :
    (kind : HookKind) (hook : Hook) (value : Bool) (s : AlarmAggregator)
    → Keeps s (handle_as kind hook value s).0
handle_as-Keeps device hook value s = set_source_active-Keeps hook.source value s
handle_as-Keeps watchdog hook value s = elim (Bool-cases (contains hook.id s.cancelled)) [
  | inl t ↦ rw t (keeps s)
  | inr f ↦ rw f (set_source_active-Keeps hook.source value s)
]

run_unbinder-Keeps :
    (kind : HookKind) (hook : Hook) (s : AlarmAggregator) → Keeps s (run_unbinder kind hook s).0
run_unbinder-Keeps device hook s = keeps s
run_unbinder-Keeps watchdog hook s = record {
  cancelled = λ id h. ground (arith, h);
  distinct = λ h. h;
}

pop_unbinder-Keeps :
    (hook : Option Hook) (name : String) (s : AlarmAggregator)
    → Keeps s (pop_unbinder hook name s).0
pop_unbinder-Keeps none name s = keeps s
pop_unbinder-Keeps (some hook) name s =
    let t = record s { unbinders = erase name s.unbinders } in
    let k = run_unbinder-Keeps hook.kind hook t in
    record { cancelled = k.cancelled; distinct = k.distinct }

unbind-Keeps : (name : String) (s : AlarmAggregator) → Keeps s (unbind name s).0
unfolding unbind
unbind-Keeps name s =
    let s₁ = (pop_unbinder (lookup name s.unbinders) name s).0 in
    Keeps-trans s s₁ (set_source_active name false s₁).0
      (pop_unbinder-Keeps (lookup name s.unbinders) name s) (set_source_active-Keeps name false s₁)

bind-Keeps : (kind : HookKind) (name : String) (s : AlarmAggregator) → Keeps s (bind kind name s).0
unfolding bind
bind-Keeps kind name s = elim (Option-cases (lookup name s.unbinders)) [
  | inl e ↦ rw e (record { cancelled = λ id h. h; distinct = λ h. h })
  | inr (hook, e) ↦
      let k = unbind-Keeps name s in
      rw e (record { cancelled = k.cancelled; distinct = k.distinct })
]

bind_named-Keeps :
    (kind : HookKind) (name : Option String) (s : AlarmAggregator)
    → Keeps s (or_same s (bind_named kind name s)).0
bind_named-Keeps kind none s = keeps s
bind_named-Keeps kind (some name) s = elim (Bool-cases (name == "")) [
  | inl t ↦ rw t (keeps s)
  | inr f ↦ rw f (bind-Keeps kind name s)
]

perform-Keeps : (c : Call) (s : AlarmAggregator) → Keeps s (perform c s).0
unfolding perform
perform-Keeps (device_call device_id name) s =
    unfold bind_device in bind_named-Keeps device (source_name name device_id) s
perform-Keeps (watchdog_call name) s =
    unfold bind_watchdog in bind_named-Keeps watchdog (some name) s
perform-Keeps (unbind_call name) s = unbind-Keeps name s
perform-Keeps (event hook value) s = unfold handle in handle_as-Keeps hook.kind hook value s
perform-Keeps (mark_call name value) s = unfold mark_source in set_source_active-Keeps name value s
perform-Keeps (observe cb) s =
    unfold on_change in record { cancelled = λ id h. h; distinct = λ h. h }
perform-Keeps (unobserve cb) s =
    unfold remove_observer in record { cancelled = λ id h. h; distinct = λ h. h }

run_calls-Keeps : (cs : List Call) (s : AlarmAggregator) → Keeps s (run_calls cs s).0
unfolding run_calls
run_calls-Keeps [] s = keeps s
run_calls-Keeps (c ∷ cs) s =
    let s' = (perform c s).0 in
    Keeps-trans s s' (run_calls cs s').0 (perform-Keeps c s) (run_calls-Keeps cs s')

unbind-cancels :
    (name : String) (hook : Hook) (s : AlarmAggregator)
    → lookup name s.unbinders ≡ some hook
    → hook.kind ≡ watchdog
    → contains hook.id (unbind name s).0.cancelled ≡ true
unfolding unbind set_source_active
unbind-cancels name hook s h k = rw (h, k, ==_refl hook.id) refl

-- Once a watchdog's source is unbound, its handlers change nothing and tell nobody, whatever calls
-- come between, a new bind under the same name included, although the watchdog still calls them.
pub unbind_silences :
    (name : String) (hook : Hook) (s : AlarmAggregator)
    → lookup name s.unbinders ≡ some hook
    → hook.kind ≡ watchdog
    → (cs : List Call) (value : Bool)
    → (let t = (run_calls cs (unbind name s).0).0 in handle hook value t ≡ (t, []))
unfolding handle
unbind_silences name hook s h k cs value =
    let keep = run_calls-Keeps cs (unbind name s).0 in
    let off = keep.cancelled hook.id (unbind-cancels name hook s h k) in rw (k, off) refl

contains-write_source :
    (other name : String) (value : Bool) (xs : List String)
    → Distinct xs
    → contains other (write_source name value xs)
      ≡ (if other == name then value else contains other xs)
contains-write_source other name true xs h = elim (Bool-cases (contains name xs)) [
  | inl t ↦ rw t (ground (arith, t, string_equality.is_equal_iff other name))
  | inr f ↦ rw (f, contains-append) (ground arith)
]
contains-write_source other name false xs h = elim (Bool-cases (other == name)) [
  | inl t ↦
      ground (arith, t, string_equality.is_equal_iff other name, contains-remove_self name xs h)
  | inr f ↦ rw f (contains-remove_ne other name xs f)
]

-- After any calls on a new aggregator, `mark_source` makes the source active or inactive as it
-- says and leaves every other source as it is, and after `unbind` the source is inactive.
pub sources_after :
    (cs : List Call) (name : String) (value : Bool) (other : String)
    → (let s = (run_calls cs new).0 in
        (contains other (mark_source name value s).0.active_sources
          ≡ (if other == name then value else contains other s.active_sources))
        × (contains name (unbind name s).0.active_sources ≡ false))
unfolding mark_source set_source_active unbind
sources_after cs name value other =
    let s = (run_calls cs new).0 in
    let distinct = (run_calls-Keeps cs new).distinct (unfold new in tt) in
    let s₁ = (pop_unbinder (lookup name s.unbinders) name s).0 in
    let distinct₁ = (pop_unbinder-Keeps (lookup name s.unbinders) name s).distinct distinct in
    (
      contains-write_source other name value s.active_sources distinct,
      contains-remove_self name s₁.active_sources distinct₁,
    )
