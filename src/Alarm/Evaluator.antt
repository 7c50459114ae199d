-- ===== src/Alarm/Evaluator.antt =====
-- The alarm evaluators (csp_lib/equipment/alarm/evaluator.py). A point's value is `None`, an
-- integer, or another value, of which an evaluator sees what Python's conversion makes of it. The
-- answer `none` of an `evaluate` is an exception of the conversion that is not caught.
pub mod Recorded
pub mod BitMask
pub mod Table
pub mod Threshold
mod Tests
use csp_lib.Base.{
  String, Bool, true, false, List, [], ◌∷◌, eqb, Equality, string_equality, ◌≡◌, ◌↔◌, arith,
}
use csp_lib.Base.Dict.{Dict, insert}
use csp_lib.Base.Int.{ℤ, pos, negsuc}

-- `int(value)` or `float(value)`: a number, a `TypeError` or `ValueError`, or another exception, as
-- the `OverflowError` of an infinite float.
pub data Converted (A : Type 0) : Type 0 where
  number : A → Converted A
  rejected : Converted A
  escaped : Converted A

pub data Value (A : Type 0) : Type 0 where
  none_value : Value A
  plain : A → Value A
  convertible : Converted A → Value A

abbrev pub equal_ℤ : ℤ → ℤ → Bool
equal_ℤ (pos m) (pos n) = eqb m n
equal_ℤ (negsuc m) (negsuc n) = eqb m n
equal_ℤ (pos m) (negsuc n) = false
equal_ℤ (negsuc m) (pos n) = false

pub equal_ℤ_iff : (a b : ℤ) → (equal_ℤ a b ≡ true) ↔ (a ≡ b)
equal_ℤ_iff (pos m) (pos n) = ground arith
equal_ℤ_iff (negsuc m) (negsuc n) = ground arith
equal_ℤ_iff (pos m) (negsuc n) = ((λ h. cc), (λ h. cc))
equal_ℤ_iff (negsuc m) (pos n) = ((λ h. cc), (λ h. cc))

instance abbrev pub int_equality : Equality ℤ
int_equality = record { is_equal = equal_ℤ; is_equal_iff = equal_ℤ_iff }

-- The loop `for … : result[alarm.code] = is_triggered`.
unfoldable pub record_all : List (String × Bool) → Dict String Bool → Dict String Bool
record_all [] result = result
record_all (e ∷ es) result = record_all es (insert e.0 e.1 result)
