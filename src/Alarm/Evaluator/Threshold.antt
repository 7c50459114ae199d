-- ===== src/Alarm/Evaluator/Threshold.antt =====
-- `ThresholdAlarmEvaluator` (csp_lib/equipment/alarm/evaluator.py), over any type of floats with
-- Python's comparisons, of which nothing is assumed.
use csp_lib.Base.{
  ◌∙◌, is_some, ap, String, Bool, true, false, not, ◌||◌, ◌≡◌, refl, Option, none, some, List, [],
  ◌∷◌, contains, Distinct, All, string_equality,
}
use csp_lib.Base.Dict.{Dict, keys, lookup}
use csp_lib.Alarm.{AlarmDefinition}
use csp_lib.Alarm.Evaluator.{
  number, rejected, escaped, Value, none_value, plain, convertible, record_all,
}
use csp_lib.Alarm.Evaluator.Recorded.{record_all-All, record_all-only}

-- The tests `<`, `<=` and `==` of floats; `>` and `>=` are the first two turned around, and `!=` is
-- the negation of `==`.
pub record Comparison (F : Type 0) : Type 0 where
  pub lt : F → F → Bool
  pub le : F → F → Bool
  pub eq : F → F → Bool

-- How two floats stand to each other: exactly one of the four, the last where either is no number.
pub data Relation : Type 0 where
  less equal greater unordered : Relation

abbrev pub converse : Relation → Relation
converse less = greater
converse equal = equal
converse greater = less
converse unordered = unordered

pub data Operator : Type 0 where
  op_gt op_ge op_lt op_le op_eq op_ne : Operator

abbrev pub is_less : Relation → Bool
is_less less = true
is_less _ = false

abbrev pub is_equal : Relation → Bool
is_equal equal = true
is_equal _ = false

-- The three tests read off the relation of their operands, as IEEE 754 demands.
pub record IsIeee {F : Type 0} (c : Comparison F) (relate : F → F → Relation) : Type 0 where
  pub turned : (x y : F) → relate y x ≡ converse (relate x y)
  pub lt_when : (x y : F) → c.lt x y ≡ is_less (relate x y)
  pub le_when : (x y : F) → c.le x y ≡ (is_less (relate x y) || is_equal (relate x y))
  pub eq_when : (x y : F) → c.eq x y ≡ is_equal (relate x y)

-- What an operator demands of the relation of the actual value to that of the condition.
abbrev pub demands : Operator → Relation → Bool
demands op_gt greater = true
demands op_ge greater = true
demands op_ge equal = true
demands op_lt less = true
demands op_le less = true
demands op_le equal = true
demands op_eq equal = true
demands op_ne less = true
demands op_ne greater = true
demands op_ne unordered = true
demands _ _ = false

pub record ThresholdCondition (F : Type 0) : Type 0 where
  pub alarm : AlarmDefinition
  pub operator : Operator
  pub value : F

module _ {F : Type 0} ⦃c : Comparison F⦄ where
  abbrev check_as : Operator → F → F → Bool
  check_as op_gt actual value = c.lt value actual
  check_as op_ge actual value = c.le value actual
  check_as op_lt actual value = c.lt actual value
  check_as op_le actual value = c.le actual value
  check_as op_eq actual value = c.eq actual value
  check_as op_ne actual value = not (c.eq actual value)

  -- `ThresholdCondition.check`.
  unfoldable pub check : ThresholdCondition F → F → Bool
  check condition actual = check_as condition.operator actual condition.value

  abbrev verdicts : F → List (ThresholdCondition F) → List (String × Bool)
  verdicts value [] = []
  verdicts value (t ∷ ts) = (t.alarm.code, check t value) ∷ verdicts value ts

  -- `evaluate`; `plain` is a value that is an `int` or a `float`.
  unfoldable pub evaluate : List (ThresholdCondition F) → Value F → Option (Dict String Bool)
  evaluate ts none_value = some []
  evaluate ts (plain value) = some (record_all (verdicts value ts) [])
  evaluate ts (convertible (number value)) = some (record_all (verdicts value ts) [])
  evaluate ts (convertible rejected) = some []
  evaluate ts (convertible escaped) = none

abbrev pub codes : {F : Type 0} → List (ThresholdCondition F) → List String
codes [] = []
codes (t ∷ ts) = t.alarm.code ∷ codes ts

turned_less : (r : Relation) → is_less (converse r) ≡ demands op_gt r
turned_less less = refl
turned_less equal = refl
turned_less greater = refl
turned_less unordered = refl

turned_up : (r : Relation) → (is_less (converse r) || is_equal (converse r)) ≡ demands op_ge r
turned_up less = refl
turned_up equal = refl
turned_up greater = refl
turned_up unordered = refl

straight_less : (r : Relation) → is_less r ≡ demands op_lt r
straight_less less = refl
straight_less equal = refl
straight_less greater = refl
straight_less unordered = refl

straight_up : (r : Relation) → (is_less r || is_equal r) ≡ demands op_le r
straight_up less = refl
straight_up equal = refl
straight_up greater = refl
straight_up unordered = refl

same : (r : Relation) → is_equal r ≡ demands op_eq r
same less = refl
same equal = refl
same greater = refl
same unordered = refl

other : (r : Relation) → not (is_equal r) ≡ demands op_ne r
other less = refl
other equal = refl
other greater = refl
other unordered = refl

module _ {F : Type 0} ⦃c : Comparison F⦄ (relate : F → F → Relation) where
  keys-verdicts :
      (value : F) (ts : List (ThresholdCondition F)) → keys (verdicts value ts) ≡ codes ts
  keys-verdicts value [] = refl
  keys-verdicts value (t ∷ ts) = rw (keys-verdicts value ts) refl

  check_as-demands :
      (ieee : IsIeee c relate) (op : Operator) (x y : F) → check_as op x y ≡ demands op (relate x y)
  check_as-demands ieee op_gt x y =
      ieee.lt_when y x ∙ ap is_less (ieee.turned x y) ∙ turned_less (relate x y)
  check_as-demands ieee op_ge x y =
      ieee.le_when y x
      ∙ ap (λ r. is_less r || is_equal r) (ieee.turned x y)
      ∙ turned_up (relate x y)
  check_as-demands ieee op_lt x y = ieee.lt_when x y ∙ straight_less (relate x y)
  check_as-demands ieee op_le x y = ieee.le_when x y ∙ straight_up (relate x y)
  check_as-demands ieee op_eq x y = ieee.eq_when x y ∙ same (relate x y)
  check_as-demands ieee op_ne x y = ap not (ieee.eq_when x y) ∙ other (relate x y)

  check-demands :
      (ieee : IsIeee c relate) (t : ThresholdCondition F) (value : F)
      → check t value ≡ demands t.operator (relate value t.value)
  unfolding check
  check-demands ieee t value = check_as-demands ieee t.operator value t.value

  verdicts-All :
      (ieee : IsIeee c relate) (value : F) (ts : List (ThresholdCondition F))
      (result : Dict String Bool)
      → All (λ e. lookup e.0 result ≡ some e.1) (verdicts value ts)
      → All (λ t. lookup t.alarm.code result ≡ some (demands t.operator (relate value t.value))) ts
  verdicts-All ieee value [] result h = tt
  verdicts-All ieee value (t ∷ ts) result h =
      (h.0 ∙ ap some (check-demands ieee t value), verdicts-All ieee value ts result h.1)

  -- Of a number, given or converted to, an evaluator whose conditions have different codes answers
  -- whether the operator accepts the relation of the value to that of the condition, for each
  -- condition, and for these codes alone; where the two are unordered, only `!=` accepts them. The
  -- tests of floats are those of IEEE 754.
  pub threshold_verdicts :
      (ts : List (ThresholdCondition F)) (value : F)
      → IsIeee c relate
      → Distinct (codes ts)
      → (result : Dict String Bool) × (evaluate ts (plain value) ≡ some result)
        × (evaluate ts (convertible (number value)) ≡ some result)
        × All
            (λ t. lookup t.alarm.code result ≡ some (demands t.operator (relate value t.value)))
            ts
        × ((code : String) → is_some (lookup code result) ≡ contains code (codes ts))
  unfolding evaluate
  threshold_verdicts ts value ieee h =
      let vs = verdicts value ts in
      (
        record_all vs [],
        refl,
        refl,
        verdicts-All ieee value ts (record_all vs []) (record_all-All vs [] (rw keys-verdicts h)),
        λ code. record_all-only code vs ∙ ap (contains code) (keys-verdicts value ts),
      )
