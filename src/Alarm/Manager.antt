-- ===== src/Alarm/Manager.antt =====
-- The registry of alarms by code, `AlarmStateManager` (equipment/alarm/state.py). The manager
-- owns its states here; that `export_states` shares the objects with its caller is not modelled.

pub mod Updates
pub mod Registry
pub mod Validity
use csp_lib.Base.{
  ℕ, String, Bool, true, false, ◌&&◌, ◌||◌, Option, none, some, List, [], ◌∷◌, string_equality,
  if◌then◌else◌, filter,
}
use csp_lib.Base.Dict.{Dict, lookup, member, insert, values}
use csp_lib.Alarm.{
  AlarmDefinition, AlarmLevel, info, warning, alarm, AlarmState, AlarmEvent, fresh, update,
  force_clear,
}

abbrev pub Manager : Type 0
Manager = Dict String AlarmState

-- A method that may raise `KeyError` returns what it leaves behind in either case.
pub data Outcome (A : Type 0) : Type 0 where
  returned : A → Outcome A
  key_error : List String → Outcome A

-- `register_alarm`.
unfoldable pub register_alarm : AlarmDefinition → Manager → Manager × Outcome AlarmState
register_alarm d m =
    if member d.code m
    then (m, key_error (d.code ∷ []))
    else (insert d.code (fresh d) m, returned (fresh d))

-- The codes of a batch that are registered already.
unfoldable pub duplicates : List AlarmDefinition → Manager → List String
duplicates [] m = []
duplicates (d ∷ ds) m = if member d.code m then d.code ∷ duplicates ds m else duplicates ds m

abbrev collect :
    AlarmState → Manager × Outcome (List AlarmState) → Manager × Outcome (List AlarmState)
collect s (m, key_error ks) = (m, key_error ks)
collect s (m, returned ss) = (m, returned (s ∷ ss))

-- The list comprehension of `register_alarms`: an exception keeps the alarms registered before it.
unfoldable pub register_each : List AlarmDefinition → Manager → Manager × Outcome (List AlarmState)
register_each [] m = (m, returned [])
register_each (d ∷ ds) m =
    let (m', r) = register_alarm d m in
    elim r [ key_error ks ↦ (m', key_error ks) | returned s ↦ collect s (register_each ds m') ]

-- `register_alarms`.
unfoldable pub register_alarms :
    List AlarmDefinition → Manager → Manager × Outcome (List AlarmState)
register_alarms ds m = elim (duplicates ds m) [
  | [] ↦ register_each ds m
  | k ∷ ks ↦ (m, key_error (k ∷ ks))
]

abbrev pub prepend : Option AlarmEvent → List AlarmEvent → List AlarmEvent
prepend none es = es
prepend (some e) es = e ∷ es

-- The body of the loop of `update`, for one evaluation.
unfoldable pub update_one : ℕ → String → Bool → Manager → Manager × Option AlarmEvent
update_one now code b m = elim (lookup code m) [
  | none ↦ (m, none)
  | some s ↦ let (s', e) = update now b s in (insert code s' m, e)
]

-- `AlarmStateManager.update`. The clock is read once for each alarm: `clock` gives those readings.
unfoldable pub update_all : (String → ℕ) → Dict String Bool → Manager → Manager × List AlarmEvent
update_all clock [] m = (m, [])
update_all clock ((code, b) ∷ evaluations) m =
    let (m', e) = update_one (clock code) code b m in
    let (final, es) = update_all clock evaluations m' in (final, prepend e es)

-- `clear_alarm`.
unfoldable pub clear_alarm : ℕ → String → Manager → Manager × Option AlarmEvent
clear_alarm now code m = elim (lookup code m) [
  | none ↦ (m, none)
  | some s ↦ let (s', e) = force_clear now s in (insert code s' m, e)
]

-- `get_active_alarms`.
unfoldable pub get_active_alarms : Manager → List AlarmState
get_active_alarms m = filter (λ s. s.is_active) (values m)

-- `get_state`.
abbrev pub get_state : String → Manager → Option AlarmState
get_state code m = lookup code m

abbrev is_alarm : AlarmLevel → Bool
is_alarm alarm = true
is_alarm info = false
is_alarm warning = false

any : (AlarmState → Bool) → List AlarmState → Bool
any p [] = false
any p (s ∷ ss) = p s || any p ss

-- `has_protection_alarm`.
unfoldable pub has_protection_alarm : Manager → Bool
unfolding any
has_protection_alarm m = any (λ s. s.is_active && is_alarm s.definition.level) (values m)

-- The assignments of `import_states`: all but the definition.
abbrev pub restore : AlarmState → AlarmState → AlarmState
restore old s = record s {
  is_active = old.is_active;
  activate_count = old.activate_count;
  clear_count = old.clear_count;
  activated_at = old.activated_at;
  cleared_at = old.cleared_at;
  last_triggered_at = old.last_triggered_at;
}

-- `import_states`.
unfoldable pub import_states : Dict String AlarmState → Manager → Manager
import_states [] m = m
import_states ((code, old) ∷ states) m =
    import_states states
      (elim (lookup code m) [ none ↦ m | some s ↦ insert code (restore old s) m ])

-- `reset`. The clock is read for each alarm that is cleared.
unfoldable pub reset : (String → ℕ) → Manager → Manager
reset clock [] = []
reset clock ((code, s) ∷ m) = (code, (force_clear (clock code) s).0) ∷ reset clock m
