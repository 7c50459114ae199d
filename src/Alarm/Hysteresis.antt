-- ===== src/Alarm/Hysteresis.antt =====
-- One alarm under a history of evaluations and forced clears (equipment/alarm/state.py).
use csp_lib.Base.{ℕ, ◌<◌, ◌≡◌, Bool, true, false, Option, none, some, ◌⊎◌, arith, is_some}
use csp_lib.Alarm.{
  AlarmDefinition, AlarmState, AlarmEvent, triggered, cleared, IsValidConfig, event, fresh, update,
  force_clear,
}

-- What holds of a state between two operations, under thresholds of at least 1.
pub record IsWellFormed (s : AlarmState) : Type 0 where
  pub one_counter : (s.activate_count ≡ 0) ⊎ (s.clear_count ≡ 0)
  pub below_activation :
      s.is_active ≡ false → s.activate_count < s.definition.hysteresis.activate_threshold
  pub below_clearing : s.is_active ≡ true → s.clear_count < s.definition.hysteresis.clear_threshold
  pub active_since : s.is_active ≡ true → is_some s.activated_at ≡ true
  pub active_open : s.is_active ≡ true → s.cleared_at ≡ none
  pub closed_when_left : s.is_active ≡ false → is_some s.cleared_at ≡ is_some s.activated_at
  pub seen : is_some s.activated_at ≡ true → is_some s.last_triggered_at ≡ true

-- A newly registered alarm is well formed.
pub fresh-IsWellFormed : (d : AlarmDefinition) → IsValidConfig d.hysteresis → IsWellFormed (fresh d)
unfolding fresh
fresh-IsWellFormed d v = ground arith

-- An operation on one alarm: an evaluation, or a forced clear, at a time.
pub data Operation : Type 0 where
  evaluated : ℕ → Bool → Operation
  forced : ℕ → Operation

unfoldable pub apply : Operation → AlarmState → AlarmState × Option AlarmEvent
apply (evaluated now b) s = update now b s
apply (forced now) s = force_clear now s

-- Every operation keeps a state well formed, whatever the evaluation, if the alarm's
-- thresholds are at least 1.
pub apply-IsWellFormed :
    (op : Operation) (s : AlarmState)
    → IsValidConfig s.definition.hysteresis
    → IsWellFormed s
    → IsWellFormed (apply op s).0
unfolding apply update force_clear
apply-IsWellFormed (evaluated now true) s v w = ground arith
apply-IsWellFormed (evaluated now false) s v w = ground arith
apply-IsWellFormed (forced now) s v w = ground arith

-- The event that a change of `is_active` calls for.
abbrev pub flip_event : Bool → Bool → AlarmState → ℕ → Option AlarmEvent
flip_event false true s now = some (event triggered s now)
flip_event true false s now = some (event cleared s now)
flip_event _ _ s now = none

abbrev pub time_of : Operation → ℕ
time_of (evaluated now b) = now
time_of (forced now) = now

-- An operation reports an event exactly when it flips `is_active`, of the kind of the flip,
-- for this alarm and at this time; and it never changes the definition.
pub apply_reports_flip :
    (op : Operation) (s : AlarmState)
    → ((apply op s).1 ≡ flip_event s.is_active (apply op s).0.is_active s (time_of op))
      × ((apply op s).0.definition ≡ s.definition)
unfolding apply update force_clear
apply_reports_flip (evaluated now true) s = ground arith
apply_reports_flip (evaluated now false) s = ground arith
apply_reports_flip (forced now) s = ground arith
