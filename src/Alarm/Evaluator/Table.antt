-- ===== src/Alarm/Evaluator/Table.antt =====
-- `TableAlarmEvaluator` (csp_lib/equipment/alarm/evaluator.py).
use csp_lib.Base.{
  String, Bool, true, false, ◌||◌, ◌≡◌, refl, ◌∙◌, Option, none, some, List, [], ◌∷◌, if◌then◌else◌,
  ◌==◌, string_equality, arith, Bool-cases, inl, inr,
}
use csp_lib.Base.Dict.{Dict, lookup, insert, values, lookup-insert}
use csp_lib.Base.Int.{ℤ}
use csp_lib.Alarm.{AlarmDefinition}
use csp_lib.Alarm.Evaluator.{
  int_equality, number, rejected, escaped, Value, none_value, plain, convertible, record_all,
}

abbrev pub AlarmTable : Type 0
AlarmTable = Dict ℤ AlarmDefinition

-- `{alarm.code: False for alarm in …}`.
abbrev cleared : List AlarmDefinition → List (String × Bool)
cleared [] = []
cleared (a ∷ alarms) = (a.code, false) ∷ cleared alarms

abbrev mark : Option AlarmDefinition → Dict String Bool → Dict String Bool
mark none result = result
mark (some a) result = insert a.code true result

-- `evaluate`.
unfoldable pub evaluate : AlarmTable → Value ℤ → Option (Dict String Bool)
evaluate table none_value = some []
evaluate table (plain value) =
    some (mark (lookup value table) (record_all (cleared (values table)) []))
evaluate table (convertible (number value)) =
    some (mark (lookup value table) (record_all (cleared (values table)) []))
evaluate table (convertible rejected) = some (record_all (cleared (values table)) [])
evaluate table (convertible escaped) = none

-- `get_alarms`.
unfoldable pub get_alarms : AlarmTable → List AlarmDefinition
get_alarms table = values table

-- Whether an alarm of the list has the code.
abbrev pub has_code : String → List AlarmDefinition → Bool
has_code code [] = false
has_code code (a ∷ alarms) = code == a.code || has_code code alarms

-- Whether the alarm of the value, if there is one, has the code.
abbrev pub matches : String → Option AlarmDefinition → Bool
matches code none = false
matches code (some a) = code == a.code

lookup-cleared :
    (code : String) (alarms : List AlarmDefinition) (result : Dict String Bool)
    → lookup code (record_all (cleared alarms) result)
      ≡ (if has_code code alarms then some false else lookup code result)
unfolding record_all
lookup-cleared code [] result = refl
lookup-cleared code (a ∷ alarms) result = ground (
  arith,
  lookup-cleared code alarms (insert a.code false result),
  lookup-insert code a.code false result,
)

has_code-lookup :
    (code : String) (value : ℤ) (table : AlarmTable)
    → matches code (lookup value table) ≡ true
    → has_code code (values table) ≡ true
has_code-lookup code value [] h = cc
has_code-lookup code value (e ∷ table) h = ground (arith, h, has_code-lookup code value table)

lookup-mark :
    (code : String) (found : Option AlarmDefinition) (result : Dict String Bool)
    → lookup code (mark found result)
      ≡ (if matches code found then some true else lookup code result)
lookup-mark code none result = refl
lookup-mark code (some a) result = lookup-insert code a.code true result

-- Of an integer, given or converted to, the evaluator answers for the codes of `get_alarms` and no
-- others: true for the code of the value's alarm, and false for the rest, also where alarms
-- share a code.
pub table_verdicts :
    (table : AlarmTable) (value : ℤ)
    → (result : Dict String Bool) × (evaluate table (plain value) ≡ some result)
      × (evaluate table (convertible (number value)) ≡ some result)
      × ((code : String)
          → lookup code result ≡ (
              if has_code code (get_alarms table)
              then some (matches code (lookup value table))
              else none))
unfolding evaluate get_alarms
table_verdicts table value =
    let base = record_all (cleared (values table)) [] in
    (
      mark (lookup value table) base,
      refl,
      refl,
      λ code. lookup-mark code (lookup value table) base ∙ answer code,
    )
  where
    answer :
        (code : String)
        → (if matches code (lookup value table)
            then some true
            else lookup code (record_all (cleared (values table)) []))
          ≡ (if has_code code (values table)
              then some (matches code (lookup value table))
              else none)
    answer code = elim (Bool-cases (matches code (lookup value table))) [
      | inl t ↦ rw (t, has_code-lookup code value table t) refl
      | inr f ↦ rw (f, lookup-cleared code (values table) []) refl
    ]
