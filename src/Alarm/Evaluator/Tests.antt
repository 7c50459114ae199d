-- ===== src/Alarm/Evaluator/Tests.antt =====
-- The evaluators at concrete values, and their theorems at them.
use csp_lib.Base.{
  ◌^◌, arith, is_some, ℕ, String, Bool, true, false, ◌≡◌, refl, none, some, List, [], ◌∷◌, contains,
  Distinct, All, ltb, leb, eqb, if◌then◌else◌, string_equality,
}
use csp_lib.Base.Dict.{Dict, lookup}
use csp_lib.Base.Int.{pos, negsuc}
use csp_lib.Alarm.{AlarmDefinition, alarm}
use csp_lib.Alarm.Evaluator.{number, plain, convertible, int_equality, record_all}
use csp_lib.Alarm.Evaluator.BitMask
use csp_lib.Alarm.Evaluator.BitMask.{BitAlarms, IsDigit, bit, bit_mask_verdicts}
use csp_lib.Alarm.Evaluator.Table
use csp_lib.Alarm.Evaluator.Table.{AlarmTable, has_code, matches, table_verdicts}
use csp_lib.Alarm.Evaluator.Threshold
use csp_lib.Alarm.Evaluator.Threshold.{
  Comparison, Relation, less, equal, greater, IsIeee, demands, op_gt, op_le, ThresholdCondition,
  threshold_verdicts,
}

abbrev named : String → AlarmDefinition
named code = record {
  code = code;
  name = code;
  level = alarm;
  hysteresis = record { activate_threshold = 1; clear_threshold = 1 };
  description = "";
}

abbrev bits : BitAlarms
bits = (0, named "DOOR") ∷ (3, named "FAN") ∷ []

-- 9 has the bits 0 and 3, and -2 all but bit 0.
bits_of_9 : BitMask.evaluate bits (plain (pos 9)) ≡ some (("DOOR", true) ∷ ("FAN", true) ∷ [])
unfolding BitMask.evaluate bit record_all
bits_of_9 = refl

bits_of_minus_2 :
    BitMask.evaluate bits (plain (negsuc 1)) ≡ some (("DOOR", false) ∷ ("FAN", true) ∷ [])
unfolding BitMask.evaluate bit record_all
bits_of_minus_2 = refl

bits-Distinct : Distinct (BitMask.codes (BitMask.get_alarms bits))
unfolding BitMask.get_alarms
bits-Distinct = (refl, (refl, tt))

bit_mask_verdicts_example :
    (result : Dict String Bool) × (BitMask.evaluate bits (plain (pos 9)) ≡ some result)
    × (BitMask.evaluate bits (convertible (number (pos 9))) ≡ some result)
    × All (λ e. (b : Bool) × (lookup e.1.code result ≡ some b) × IsDigit (pos 9) (2 ^ e.0) b) bits
    × ((code : String)
        → is_some (lookup code result) ≡ contains code (BitMask.codes (BitMask.get_alarms bits)))
bit_mask_verdicts_example = bit_mask_verdicts bits (pos 9) bits-Distinct

abbrev table : AlarmTable
table = (pos 1, named "TRIP") ∷ (pos 2, named "TRIP") ∷ (pos 3, named "WARN") ∷ []

table_verdicts_example :
    (result : Dict String Bool) × (Table.evaluate table (plain (pos 1)) ≡ some result)
    × (Table.evaluate table (convertible (number (pos 1))) ≡ some result)
    × ((code : String)
        → lookup code result ≡ (
            if has_code code (Table.get_alarms table)
            then some (matches code (lookup (pos 1) table))
            else none))
table_verdicts_example = table_verdicts table (pos 1)

-- Whole numbers as the floats.
instance abbrev whole : Comparison ℕ
whole = record { lt = ltb; le = leb; eq = eqb }

abbrev relate : ℕ → ℕ → Relation
relate x y = if ltb x y then less else if eqb x y then equal else greater

whole-IsIeee : IsIeee whole relate
whole-IsIeee = record {
  turned = λ x y. ground arith;
  lt_when = λ x y. ground arith;
  le_when = λ x y. ground arith;
  eq_when = λ x y. ground arith;
}

abbrev conditions : List (ThresholdCondition ℕ)
conditions =
    record { alarm = named "HIGH"; operator = op_gt; value = 45 }
    ∷ record { alarm = named "LOW"; operator = op_le; value = 5 }
    ∷ []

threshold_verdicts_example :
    (result : Dict String Bool) × (Threshold.evaluate conditions (plain 50) ≡ some result)
    × (Threshold.evaluate conditions (convertible (number 50)) ≡ some result)
    × All
        (λ t. lookup t.alarm.code result ≡ some (demands t.operator (relate 50 t.value)))
        conditions
    × ((code : String) → is_some (lookup code result) ≡ contains code (Threshold.codes conditions))
threshold_verdicts_example = threshold_verdicts relate conditions 50 whole-IsIeee (refl, (refl, tt))
