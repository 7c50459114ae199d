-- ===== src/Alarm/Manager/Validity.antt =====
-- Every method keeps the registry of alarms valid (equipment/alarm/state.py).
use csp_lib.Base.{
  ℕ, String, ◌≡◌, refl, sym, ◌∙◌, Bool, List, [], ◌∷◌, arith, Distinct, All, string_equality,
  Option-cases, Bool-cases, inl, inr, ap, none, some, subst, ◌==◌,
}
use csp_lib.Base.Dict.{
  Dict, lookup, insert, member, keys, insert-Distinct, All-insert, All-lookup, lookup-insert,
}
use csp_lib.Alarm.{AlarmDefinition, AlarmState, update, force_clear, fresh, IsValidConfig}
use csp_lib.Alarm.Hysteresis.{
  Operation, IsWellFormed, apply-IsWellFormed, fresh-IsWellFormed, apply, evaluated, forced,
  apply_reports_flip,
}
use csp_lib.Alarm.Manager.{
  Manager, update_one, update_all, register_alarm, register_each, register_alarms, duplicates,
  clear_alarm, reset, restore, import_states,
}

-- An entry of the registry stands under its alarm's code and is well formed.
abbrev pub IsEntry : String × AlarmState → Type 0
IsEntry e = (e.0 ≡ e.1.definition.code) × IsValidConfig e.1.definition.hysteresis × IsWellFormed e.1

pub record IsValid (m : Manager) : Type 0 where
  pub one_each : Distinct (keys m)
  pub entries : All IsEntry m

insert-IsValid :
    (c : String) (s : AlarmState) (m : Manager)
    → IsEntry (c, s)
    → IsValid m
    → IsValid (insert c s m)
insert-IsValid c s m e v = record {
  one_each = insert-Distinct c s m v.one_each;
  entries = All-insert IsEntry c s m e v.entries;
}

-- `register_alarm` keeps the registry valid, raise or not, if the thresholds are at least 1.
register_alarm-IsValid :
    (d : AlarmDefinition) (m : Manager)
    → IsValidConfig d.hysteresis
    → IsValid m
    → IsValid (register_alarm d m).0
unfolding register_alarm fresh
register_alarm-IsValid d m c v = elim (Bool-cases (member d.code m)) [
  | inl old ↦ rw old v
  | inr new ↦ rw new (insert-IsValid d.code (fresh d) m (refl, c, fresh-IsWellFormed d c) v)
]

apply-IsEntry :
    (op : Operation) (c : String) (s : AlarmState) → IsEntry (c, s) → IsEntry (c, (apply op s).0)
apply-IsEntry op c s e =
    let same = (apply_reports_flip op s).1 in
    (e.0 ∙ sym (ap (λ d. d.code) same), rw same e.1, apply-IsWellFormed op s e.1 e.2)

update_one-IsValid :
    (now : ℕ) (c : String) (b : Bool) (m : Manager) → IsValid m → IsValid (update_one now c b m).0
unfolding update_one apply
update_one-IsValid now c b m v = elim (Option-cases (lookup c m)) [
  | inl missing ↦ rw (missing, update_one) v
  | inr (s, found) ↦
      rw (found, update_one)
        (insert-IsValid c (update now b s).0 m
          (apply-IsEntry (evaluated now b) c s (All-lookup IsEntry c s m v.entries found)) v)
]

-- `update` keeps the registry valid.
update_all-IsValid :
    (clock : String → ℕ) (evaluations : Dict String Bool) (m : Manager)
    → IsValid m
    → IsValid (update_all clock evaluations m).0
unfolding update_all
update_all-IsValid clock [] m v = v
update_all-IsValid clock (p ∷ evaluations) m v =
    update_all-IsValid clock evaluations (update_one (clock p.0) p.0 p.1 m).0
      (update_one-IsValid (clock p.0) p.0 p.1 m v)

clear_alarm-IsValid :
    (now : ℕ) (c : String) (m : Manager) → IsValid m → IsValid (clear_alarm now c m).0
unfolding clear_alarm apply
clear_alarm-IsValid now c m v = elim (Option-cases (lookup c m)) [
  | inl missing ↦ rw (missing, clear_alarm) v
  | inr (s, found) ↦
      rw (found, clear_alarm)
        (insert-IsValid c (force_clear now s).0 m
          (apply-IsEntry (forced now) c s (All-lookup IsEntry c s m v.entries found)) v)
]

keys-reset : (clock : String → ℕ) (m : Manager) → keys (reset clock m) ≡ keys m
unfolding reset
keys-reset clock [] = refl
keys-reset clock (p ∷ m) = ap (λ ks. p.0 ∷ ks) (keys-reset clock m)

All-reset : (clock : String → ℕ) (m : Manager) → All IsEntry m → All IsEntry (reset clock m)
unfolding reset apply
All-reset clock [] a = a
All-reset clock (p ∷ m) a = (apply-IsEntry (forced (clock p.0)) p.0 p.1 a.0, All-reset clock m a.1)

reset-IsValid : (clock : String → ℕ) (m : Manager) → IsValid m → IsValid (reset clock m)
reset-IsValid clock m v = record {
  one_each = rw (keys-reset clock m) v.one_each;
  entries = All-reset clock m v.entries;
}

register_each-IsValid :
    (ds : List AlarmDefinition) (m : Manager)
    → All (λ d. IsValidConfig d.hysteresis) ds
    → IsValid m
    → IsValid (register_each ds m).0
unfolding register_each
register_each-IsValid [] m c v = v
register_each-IsValid (d ∷ ds) m c v = ground (
  arith,
  register_alarm-IsValid d m c.0 v,
  register_each-IsValid ds (register_alarm d m).0 c.1 (register_alarm-IsValid d m c.0 v),
)

register_alarms-IsValid :
    (ds : List AlarmDefinition) (m : Manager)
    → All (λ d. IsValidConfig d.hysteresis) ds
    → IsValid m
    → IsValid (register_alarms ds m).0
unfolding register_alarms
register_alarms-IsValid ds m c v = split (duplicates ds m) refl
  where
    split : (ks : List String) → duplicates ds m ≡ ks → IsValid (register_alarms ds m).0
    split [] e = rw (e, register_alarms) (register_each-IsValid ds m c v)
    split (k ∷ ks) e = rw (e, register_alarms) v

-- The states of an import are well formed once they have the definitions of the alarms that are
-- registered under their codes.
abbrev pub IsImportable : Dict String AlarmState → Manager → Type 0
IsImportable states m =
    All (λ e. (s : AlarmState) → lookup e.0 m ≡ some s → IsWellFormed (restore e.1 s)) states

abbrev import_one : String → AlarmState → Manager → Manager
import_one code old m = elim (lookup code m) [ none ↦ m | some s ↦ insert code (restore old s) m ]

import_one-IsValid :
    (code : String) (old : AlarmState) (m : Manager)
    → ((s : AlarmState) → lookup code m ≡ some s → IsWellFormed (restore old s))
    → IsValid m
    → IsValid (import_one code old m)
import_one-IsValid code old m h v = elim (Option-cases (lookup code m)) [
  | inl missing ↦ rw (missing, import_one) v
  | inr (s, found) ↦
      let e = All-lookup IsEntry code s m v.entries found in
      rw (found, import_one) (insert-IsValid code (restore old s) m (e.0, e.1, h s found) v)
]

-- An import before leaves an importable state importable, since it keeps the definitions.
import_one-keeps :
    (code j : String) (old state : AlarmState) (m : Manager)
    → ((s : AlarmState) → lookup j m ≡ some s → IsWellFormed (restore state s))
    → (s : AlarmState) → lookup j (import_one code old m) ≡ some s
    → IsWellFormed (restore state s)
import_one-keeps code j old state m h s e = elim (Option-cases (lookup code m)) [
  | inl missing ↦ h s (ground (arith, e, missing))
  | inr (t, found) ↦ elim (Bool-cases (j == code)) [
    | inl here ↦
        let there : lookup j m ≡ some t =
          ap (λ n. lookup n m) ((string_equality.is_equal_iff j code).0 here) ∙ found in
        let q : restore old t ≡ s =
          ground (arith, e, found, here, lookup-insert j code (restore old t) m) in
        subst (λ x. IsWellFormed (restore state x)) q (h t there)
    | inr away ↦ h s (ground (arith, e, found, away, lookup-insert j code (restore old t) m))
  ]
]

import_one-IsImportable :
    (code : String) (old : AlarmState) (states : Dict String AlarmState) (m : Manager)
    → IsImportable states m
    → IsImportable states (import_one code old m)
import_one-IsImportable code old [] m h = tt
import_one-IsImportable code old (e ∷ states) m h =
    (import_one-keeps code e.0 old e.1 m h.0, import_one-IsImportable code old states m h.1)

import_states-IsValid :
    (states : Dict String AlarmState) (m : Manager)
    → IsImportable states m
    → IsValid m
    → IsValid (import_states states m)
unfolding import_states
import_states-IsValid [] m h v = v
import_states-IsValid (e ∷ states) m h v =
    import_states-IsValid states (import_one e.0 e.1 m)
      (import_one-IsImportable e.0 e.1 states m h.1) (import_one-IsValid e.0 e.1 m h.0 v)

-- A call of a method that changes the registry, with the clock's readings.
pub data Call : Type 0 where
  register_one : AlarmDefinition → Call
  register_many : List AlarmDefinition → Call
  evaluate : (String → ℕ) → Dict String Bool → Call
  clear : ℕ → String → Call
  reset_all : (String → ℕ) → Call
  import_all : Dict String AlarmState → Call

unfoldable pub step : Call → Manager → Manager
step (register_one d) m = (register_alarm d m).0
step (register_many ds) m = (register_alarms ds m).0
step (evaluate clock evaluations) m = (update_all clock evaluations m).0
step (clear now code) m = (clear_alarm now code m).0
step (reset_all clock) m = reset clock m
step (import_all states) m = import_states states m

-- The alarms that a call registers have thresholds of at least 1, as `HysteresisConfig` demands,
-- and the states that it imports are well formed for the alarms that are registered.
abbrev pub IsAllowed : Call → Manager → Type 0
IsAllowed (register_one d) m = IsValidConfig d.hysteresis
IsAllowed (register_many ds) m = All (λ d. IsValidConfig d.hysteresis) ds
IsAllowed (import_all states) m = IsImportable states m
IsAllowed _ m = Unit

abbrev pub AreAllowed : List Call → Manager → Type 0
AreAllowed [] m = Unit
AreAllowed (c ∷ cs) m = IsAllowed c m × AreAllowed cs (step c m)

step-IsValid : (c : Call) (m : Manager) → IsAllowed c m → IsValid m → IsValid (step c m)
unfolding step
step-IsValid (register_one d) m c v = register_alarm-IsValid d m c v
step-IsValid (register_many ds) m c v = register_alarms-IsValid ds m c v
step-IsValid (evaluate clock evaluations) m c v = update_all-IsValid clock evaluations m v
step-IsValid (clear now code) m c v = clear_alarm-IsValid now code m v
step-IsValid (reset_all clock) m c v = reset-IsValid clock m v
step-IsValid (import_all states) m c v = import_states-IsValid states m c v

pub run_calls : List Call → Manager → Manager
run_calls [] m = m
run_calls (c ∷ cs) m = run_calls cs (step c m)

run_calls-keeps :
    (cs : List Call) (m : Manager) → AreAllowed cs m → IsValid m → IsValid (run_calls cs m)
unfolding run_calls
run_calls-keeps [] m h v = v
run_calls-keeps (c ∷ cs) m h v = run_calls-keeps cs (step c m) h.1 (step-IsValid c m h.0 v)

-- Any sequence of calls of the methods that change the registry, imports of states included, from
-- an empty one, leaves one entry for each code, under the code of its own definition, in a
-- well-formed state, also where a call raises; the alarms registered have thresholds of at least 1,
-- and a state imported for an alarm that is registered at that time is well formed with the
-- definition of that alarm.
pub run_calls-IsValid : (cs : List Call) → AreAllowed cs [] → IsValid (run_calls cs [])
run_calls-IsValid cs h = run_calls-keeps cs [] h (record { one_each = tt; entries = tt })
