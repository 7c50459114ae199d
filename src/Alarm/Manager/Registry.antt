-- ===== src/Alarm/Manager/Registry.antt =====
-- Registration in a batch, import, reset and the queries (equipment/alarm/state.py).
use csp_lib.Base.{
  ℕ, String, ◌≡◌, refl, true, false, ◌&&◌, Option, none, some, List, [], ◌∷◌, arith, if◌then◌else◌,
  Distinct, string_equality, ◌==◌, ==_refl, Option-cases, Bool-cases, inl, inr, ◌↔◌,
}
use csp_lib.Base.Dict.{Dict, lookup, insert, member, keys, lookup-insert, contains-keys}
use csp_lib.Alarm.{
  AlarmDefinition, AlarmLevel, alarm, info, warning, AlarmState, force_clear, fresh,
}
use csp_lib.Alarm.Manager.{
  Manager, key_error, get_state, is_alarm, register_alarm, register_each, register_alarms,
  duplicates, get_active_alarms, has_protection_alarm, import_states, reset, restore,
}

-- What an import makes of one alarm.
abbrev pub restored : Option AlarmState → Option AlarmState → Option AlarmState
restored old none = none
restored none (some s) = some s
restored (some old) (some s) = some (restore old s)

import_one : String → AlarmState → Manager → Manager
import_one code old m = elim (lookup code m) [ none ↦ m | some s ↦ insert code (restore old s) m ]

lookup-import_one :
    (j c : String) (old : AlarmState) (m : Manager)
    → lookup j (import_one c old m)
      ≡ (if j == c then restored (some old) (lookup c m) else lookup j m)
unfolding import_one
lookup-import_one j c old m = elim (Option-cases (lookup c m)) [
  | inl missing ↦ ground (arith, missing, string_equality.is_equal_iff j c)
  | inr (s, found) ↦ ground (arith, found, lookup-insert j c (restore old s) m)
]

-- `import_states` gives each registered alarm the counters, flags and times of the imported
-- state under its code, keeps its definition, and leaves the other alarms alone; codes that are
-- not registered are ignored. The imported dict holds each code once.
pub lookup-import_states :
    (j : String) (states : Dict String AlarmState) (m : Manager)
    → Distinct (keys states)
    → get_state j (import_states states m) ≡ restored (lookup j states) (get_state j m)
unfolding import_states import_one
lookup-import_states j [] m h = elim (Option-cases (lookup j m)) [
  | inl missing ↦ ground (arith, missing)
  | inr (s, found) ↦ ground (arith, found)
]
lookup-import_states j (p ∷ states) m h =
    let ih = lookup-import_states j states (import_one p.0 p.1 m) h.1 in
    elim (Bool-cases (j == p.0)) [
      | inl here ↦ ground (
        arith,
        here,
        string_equality.is_equal_iff j p.0,
        h.0,
        contains-keys p.0 states,
        ih,
        lookup-import_one j p.0 p.1 m,
      )
      | inr there ↦ ground (arith, there, ih, lookup-import_one j p.0 p.1 m)
    ]

cleared_inactive : (now : ℕ) (s : AlarmState) → (force_clear now s).0.is_active ≡ false
unfolding force_clear
cleared_inactive now s = ground arith

-- After `reset` no alarm is active, so there is no protection alarm either.
pub reset_clears :
    (clock : String → ℕ) (m : Manager)
    → (get_active_alarms (reset clock m) ≡ []) × (has_protection_alarm (reset clock m) ≡ false)
unfolding get_active_alarms has_protection_alarm reset
reset_clears clock [] = (refl, refl)
reset_clears clock (p ∷ m) = ground (arith, cleared_inactive (clock p.0) p.1, reset_clears clock m)

-- An alarm that makes `has_protection_alarm` hold.
abbrev pub IsProtection : AlarmState → Type 0
IsProtection s = (s.is_active ≡ true) × (s.definition.level ≡ alarm)

alarm_level : (l : AlarmLevel) → is_alarm l ≡ true → l ≡ alarm
alarm_level alarm h = refl
alarm_level info h = cc
alarm_level warning h = cc

-- `reset` leaves an alarm that is not active entirely as it was, its count of consecutive
-- triggers included.
pub reset_keeps_inactive :
    (j : String) (clock : String → ℕ) (m : Manager) {s : AlarmState}
    → get_state j m ≡ some s
    → s.is_active ≡ false
    → get_state j (reset clock m) ≡ some s
unfolding reset force_clear
reset_keeps_inactive j clock [] h i = h
reset_keeps_inactive j clock (p ∷ m) h i = elim (Bool-cases (j == p.0)) [
  | inl here ↦ ground (arith, here, h, i)
  | inr there ↦ rw there (reset_keeps_inactive j clock m (rw there at h) i)
]

-- Some registered alarm is active and of the level ALARM.
abbrev pub HasProtection : Manager → Type 0
HasProtection m = (code : String) × (s : AlarmState) × (get_state code m ≡ some s) × IsProtection s

found_protection :
    (m : Manager) → Distinct (keys m) → has_protection_alarm m ≡ true → HasProtection m
unfolding has_protection_alarm
found_protection [] d h = cc
found_protection (p ∷ m) d h = elim (Bool-cases (p.1.is_active && is_alarm p.1.definition.level)) [
  | inl here ↦ (
    p.0,
    p.1,
    rw (==_refl p.0),
    (ground (arith, here), alarm_level p.1.definition.level (ground (arith, here))),
  )
  | inr later ↦
      let (code, s, at, is) = found_protection m d.1 (rw later at h) in
      (
        code,
        s,
        ground (arith, at, d.0, contains-keys p.0 m, string_equality.is_equal_iff code p.0),
        is,
      )
]

raised_protection : (m : Manager) → HasProtection m → has_protection_alarm m ≡ true
unfolding has_protection_alarm
raised_protection [] (code, s, at, is) = cc
raised_protection (p ∷ m) (code, s, at, is) = elim (Bool-cases (code == p.0)) [
  | inl here ↦ ground (arith, here, at, is.0, is.1)
  | inr there ↦ ground (arith, raised_protection m (code, s, rw there at at, is))
]

-- `has_protection_alarm` holds exactly when some registered alarm is active and of the level
-- ALARM, if the registry holds each code once.
pub has_protection_alarm_iff :
    (m : Manager) → Distinct (keys m) → (has_protection_alarm m ≡ true) ↔ HasProtection m
has_protection_alarm_iff m d = (found_protection m d, raised_protection m)

first_new :
    (d : AlarmDefinition) (ds : List AlarmDefinition) (m : Manager)
    → duplicates (d ∷ ds) m ≡ []
    → member d.code m ≡ false
unfolding duplicates
first_new d ds m h = ground arith

-- A batch of codes that are not registered, in which the second repeats the first, raises
-- `KeyError` for that code, and leaves the first alarm registered: the check for duplicates
-- looks at the registry only, and the rest of the batch is not reached.
pub register_alarms_partial :
    (d d' : AlarmDefinition) (ds : List AlarmDefinition) (m : Manager)
    → d'.code ≡ d.code
    → duplicates (d ∷ d' ∷ ds) m ≡ []
    → register_alarms (d ∷ d' ∷ ds) m ≡ (insert d.code (fresh d) m, key_error (d'.code ∷ []))
unfolding register_alarms register_each register_alarm
register_alarms_partial d d' ds m same fresh_codes =
    let new : member d.code m ≡ false = first_new d (d' ∷ ds) m fresh_codes in
    ground (
      arith,
      fresh_codes,
      new,
      lookup-insert d'.code d.code (fresh d) m,
      string_equality.is_equal_iff d'.code d.code,
    )
