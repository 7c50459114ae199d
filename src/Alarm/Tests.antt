-- ===== src/Alarm/Tests.antt =====
-- Runs of the alarm model on concrete alarms, and its theorems at them.
use csp_lib.Base.{
  subst, ℕ, String, ◌≡◌, refl, Bool, true, false, none, some, List, [], ◌∷◌, arith, string_equality,
}
use csp_lib.Base.Dict.{Dict}
use csp_lib.Alarm.{AlarmDefinition, alarm, warning, AlarmState, fresh, update, force_clear}
use csp_lib.Alarm.Hysteresis.{IsWellFormed, Operation, evaluated, forced}
use csp_lib.Alarm.History.{History, replay, run_length, should_be_active, replay-should_be_active}
use mathlib.Core.Option.{some-injective}
use csp_lib.Alarm.Manager.{
  Manager, restore, update_all, update_one, register_alarm, register_alarms, register_each,
  duplicates, clear_alarm,
}
use csp_lib.Alarm.Manager.Validity.{
  IsValid, Call, register_one, register_many, evaluate, clear, reset_all, import_all, AreAllowed,
  step, run_calls, run_calls-IsValid,
}

abbrev over_temp : AlarmDefinition
over_temp = record {
  code = "OVER_TEMP";
  name = "over temperature";
  level = alarm;
  hysteresis = record { activate_threshold = 2; clear_threshold = 3 };
  description = "";
}

abbrev fan : AlarmDefinition
fan = record {
  code = "FAN";
  name = "fan";
  level = warning;
  hysteresis = record { activate_threshold = 1; clear_threshold = 1 };
  description = "";
}

abbrev clock : String → ℕ
clock code = 9

-- Two triggers activate, two clears do not deactivate yet; the newest comes first.
abbrev history : History
history = (4, false) ∷ (3, false) ∷ (2, true) ∷ (1, true) ∷ []

history_active : should_be_active over_temp history ≡ true
unfolding should_be_active
history_active = refl

replay-should_be_active_example :
    ((replay over_temp history).is_active ≡ should_be_active over_temp history)
    × ((replay over_temp history).activate_count ≡ run_length true history)
    × ((replay over_temp history).clear_count ≡ run_length false history)
replay-should_be_active_example = replay-should_be_active over_temp history

abbrev operations : List Operation
operations = evaluated 1 true ∷ evaluated 2 true ∷ forced 3 ∷ evaluated 4 true ∷ []

abbrev plant : Manager
plant = ("OVER_TEMP", fresh over_temp) ∷ ("FAN", fresh fan) ∷ []

abbrev evaluations : Dict String Bool
evaluations = ("FAN", true) ∷ ("DOOR", true) ∷ ("OVER_TEMP", true) ∷ []

abbrev imported : AlarmState
imported = record {
  definition = fan;
  is_active = true;
  activate_count = 4;
  clear_count = 0;
  activated_at = some 1;
  cleared_at = none;
  last_triggered_at = some 4;
}

abbrev old_states : Dict String AlarmState
old_states = ("FAN", imported) ∷ ("DOOR", imported) ∷ []

abbrev calls : List Call
calls =
    register_many (over_temp ∷ fan ∷ fan ∷ [])
    ∷ register_one fan
    ∷ evaluate clock evaluations
    ∷ clear 10 "FAN"
    ∷ import_all old_states
    ∷ reset_all clock
    ∷ []

calls-AreAllowed : AreAllowed calls []
unfolding step update_all update_one register_alarm register_alarms register_each duplicates
    clear_alarm fresh update force_clear
calls-AreAllowed = (
  omega arith,
  (
    omega arith,
    (
      tt,
      (
        tt,
        (
          (
            λ s e.
                subst (λ x. IsWellFormed (restore imported x)) (some-injective _ s e)
                  (ground arith),
            ((λ s e. absurd (cc)), tt),
          ),
          (tt, tt),
        ),
      ),
    ),
  ),
)

run_calls-IsValid_example : IsValid (run_calls calls [])
run_calls-IsValid_example = run_calls-IsValid calls calls-AreAllowed
