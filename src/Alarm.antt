-- ===== src/Alarm.antt =====
-- Equipment alarms, csp_lib/equipment/alarm: definitions and the state of one alarm
-- (definition.py, the first half of state.py). A datetime is a number of clock ticks, and the
-- clock's reading `now` is an argument of the operations that call `datetime.now`.
pub mod Hysteresis
pub mod History
pub mod Manager
pub mod Evaluator
mod Tests
use csp_lib.Base.{
  ℕ, suc, ◌+◌, ◌≤◌, String, Bool, true, false, not, ◌&&◌, Option, none, some, leb, if◌then◌else◌,
}

pub data AlarmLevel : Type 0 where
  info warning alarm : AlarmLevel

pub record HysteresisConfig : Type 0 where
  pub activate_threshold : ℕ
  pub clear_threshold : ℕ

-- `HysteresisConfig.__post_init__` raises unless both thresholds are at least 1.
abbrev pub IsValidConfig : HysteresisConfig → Type 0
IsValidConfig c = (1 ≤ c.activate_threshold) × (1 ≤ c.clear_threshold)

pub record AlarmDefinition : Type 0 where
  pub code : String
  pub name : String
  pub level : AlarmLevel
  pub hysteresis : HysteresisConfig
  pub description : String

pub data AlarmEventType : Type 0 where
  triggered cleared : AlarmEventType

pub record AlarmEvent : Type 0 where
  pub event_type : AlarmEventType
  pub alarm : AlarmDefinition
  pub timestamp : ℕ

pub record AlarmState : Type 0 where
  pub definition : AlarmDefinition
  pub is_active : Bool
  pub activate_count : ℕ
  pub clear_count : ℕ
  pub activated_at : Option ℕ
  pub cleared_at : Option ℕ
  pub last_triggered_at : Option ℕ

-- The defaults of the dataclass.
unfoldable pub fresh : AlarmDefinition → AlarmState
fresh d = record {
  definition = d;
  is_active = false;
  activate_count = 0;
  clear_count = 0;
  activated_at = none;
  cleared_at = none;
  last_triggered_at = none;
}

abbrev pub event : AlarmEventType → AlarmState → ℕ → AlarmEvent
event t s now = record { event_type = t; alarm = s.definition; timestamp = now }

on_triggered : ℕ → AlarmState → AlarmState × Option AlarmEvent
on_triggered now s =
    let t = record s {
      activate_count = s.activate_count + 1;
      clear_count = 0;
      last_triggered_at = some now;
    } in
    if not t.is_active && leb t.definition.hysteresis.activate_threshold t.activate_count
    then (
      record t { is_active = true; activated_at = some now; cleared_at = none },
      some (event triggered t now),
    )
    else (t, none)

on_not_triggered : ℕ → AlarmState → AlarmState × Option AlarmEvent
on_not_triggered now s =
    let t = record s { clear_count = s.clear_count + 1; activate_count = 0 } in
    if t.is_active && leb t.definition.hysteresis.clear_threshold t.clear_count
    then (record t { is_active = false; cleared_at = some now }, some (event cleared t now))
    else (t, none)

-- `AlarmState.update`.
unfoldable pub update : ℕ → Bool → AlarmState → AlarmState × Option AlarmEvent
unfolding on_triggered on_not_triggered
update now true s = on_triggered now s
update now false s = on_not_triggered now s

-- `AlarmState.force_clear`.
unfoldable pub force_clear : ℕ → AlarmState → AlarmState × Option AlarmEvent
force_clear now s =
    if s.is_active
    then (
      record s { is_active = false; activate_count = 0; clear_count = 0; cleared_at = some now },
      some (event cleared s now),
    )
    else (s, none)
