-- ===== src/Alarm/Evaluator/BitMask.antt =====
-- `BitMaskAlarmEvaluator` (csp_lib/equipment/alarm/evaluator.py). The answer `none` of `evaluate`
-- is an exception.
use csp_lib.Base.{
  ◌∙◌, is_some, ap, sym, true, false, suc, ◌+◌, ◌-◌, ◌*◌, ◌<◌, arith, Bool-cases, inl, inr, ℕ, ◌/◌,
  ◌%◌, ◌^◌, String, Bool, ◌≡◌, refl, Option, none, some, List, [], ◌∷◌, eqb, contains, Distinct,
  All, string_equality,
}
use native.Mathlib.Nat.{mod-lt, one-le-pow, div-add-mod'}
use csp_lib.Base.Dict.{Dict, keys, lookup, values}
use csp_lib.Base.Int.{ℤ, pos, negsuc}
use csp_lib.Alarm.{AlarmDefinition}
use csp_lib.Alarm.Evaluator.{
  number, rejected, escaped, Value, none_value, plain, convertible, record_all,
}
use csp_lib.Alarm.Evaluator.Recorded.{record_all-All, record_all-only}

-- `(value >> bit_pos) & 1`, of Python's integers, whose shift rounds down.
unfoldable pub bit : ℤ → ℕ → Bool
bit (pos n) i = eqb (n / 2 ^ i % 2) 1
bit (negsuc n) i = eqb (n / 2 ^ i % 2) 0

abbrev pub BitAlarms : Type 0
BitAlarms = Dict ℕ AlarmDefinition

abbrev verdicts : ℤ → BitAlarms → List (String × Bool)
verdicts value [] = []
verdicts value (e ∷ alarms) = (e.1.code, bit value e.0) ∷ verdicts value alarms

-- `evaluate`.
unfoldable pub evaluate : BitAlarms → Value ℤ → Option (Dict String Bool)
evaluate alarms none_value = some []
evaluate alarms (plain value) = some (record_all (verdicts value alarms) [])
evaluate alarms (convertible (number value)) = some (record_all (verdicts value alarms) [])
evaluate alarms (convertible rejected) = some []
evaluate alarms (convertible escaped) = none

-- `get_alarms`.
unfoldable pub get_alarms : BitAlarms → List AlarmDefinition
get_alarms alarms = values alarms

abbrev pub codes : List AlarmDefinition → List String
codes [] = []
codes (a ∷ alarms) = a.code ∷ codes alarms

keys-verdicts :
    (value : ℤ) (alarms : BitAlarms) → keys (verdicts value alarms) ≡ codes (values alarms)
keys-verdicts value [] = refl
keys-verdicts value (e ∷ alarms) = rw (keys-verdicts value alarms) refl

abbrev pub digit : Bool → ℕ
digit true = 1
digit false = 0

-- `b` is the digit of weight `p` of an integer in two's complement: the integer is
-- `(2 * q + b) * p + r`, where `r` is less than `p`. Of `-(n + 1)` the `q` is not positive, and here
-- it stands for its absolute value.
abbrev pub IsDigit : ℤ → ℕ → Bool → Type 0
IsDigit (pos n) p b = (q : ℕ) × (r : ℕ) × (r < p) × (n ≡ 2 * (q * p) + digit b * p + r)
IsDigit (negsuc n) p b = (q : ℕ) × (r : ℕ) × (r < p) × (suc n + digit b * p + r ≡ 2 * (q * p))

two_rows : (k p : ℕ) → (2 * k + 1) * p ≡ 2 * (k * p) + p
two_rows k p = omega arith

even_rows : (k p : ℕ) → (2 * k) * p ≡ 2 * (k * p)
even_rows k p = omega arith

one_more : (k p : ℕ) → (k + 1) * p ≡ k * p + p
one_more k p = omega arith

odd : (m : ℕ) → eqb (m % 2) 1 ≡ true → m ≡ 2 * (m / 2) + 1
odd m t = ground (arith, t)

even : (m : ℕ) → eqb (m % 2) 1 ≡ false → m ≡ 2 * (m / 2)
even m f = ground (arith, f)

even_0 : (m : ℕ) → eqb (m % 2) 0 ≡ true → m ≡ 2 * (m / 2)
even_0 m t = ground (arith, t)

odd_0 : (m : ℕ) → eqb (m % 2) 0 ≡ false → m ≡ 2 * (m / 2) + 1
odd_0 m f = ground (arith, f)

-- A row of the table of `p` and the two digits that a number may have in it.
IsDigit-split : (n p m s : ℕ) → s < p → n ≡ m * p + s → IsDigit (pos n) p (eqb (m % 2) 1)
IsDigit-split n p m s l e = elim (Bool-cases (eqb (m % 2) 1)) [
  | inl t ↦
      rw t (m / 2, s, l, omega (arith, e, ap (λ (x : ℕ). x * p) (odd m t), two_rows (m / 2) p))
  | inr f ↦
      rw f (m / 2, s, l, omega (arith, e, ap (λ (x : ℕ). x * p) (even m f), even_rows (m / 2) p))
]

IsDigit-turned : (n p m s : ℕ) → s < p → n ≡ m * p + s → IsDigit (negsuc n) p (eqb (m % 2) 0)
IsDigit-turned n p m s l e = elim (Bool-cases (eqb (m % 2) 0)) [
  | inl t ↦ rw t (
    m / 2 + 1,
    p - 1 - s,
    omega (arith, l),
    omega
        (arith, e, l, ap (λ (x : ℕ). x * p) (even_0 m t), even_rows (m / 2) p, one_more (m / 2) p),
  )
  | inr f ↦ rw f (
    m / 2 + 1,
    p - 1 - s,
    omega (arith, l),
    omega (arith, e, l, ap (λ (x : ℕ). x * p) (odd_0 m f), two_rows (m / 2) p, one_more (m / 2) p),
  )
]

bit-IsDigit : (value : ℤ) (i : ℕ) → IsDigit value (2 ^ i) (bit value i)
unfolding bit
bit-IsDigit (pos n) i =
    IsDigit-split n (2 ^ i) (n / 2 ^ i) (n % 2 ^ i) (mod-lt n (one-le-pow i 2 (omega arith)))
      (sym (div-add-mod' n (2 ^ i)))
bit-IsDigit (negsuc n) i =
    IsDigit-turned n (2 ^ i) (n / 2 ^ i) (n % 2 ^ i) (mod-lt n (one-le-pow i 2 (omega arith)))
      (sym (div-add-mod' n (2 ^ i)))

verdicts-All :
    (value : ℤ) (alarms : BitAlarms) (result : Dict String Bool)
    → All (λ e. lookup e.0 result ≡ some e.1) (verdicts value alarms)
    → All (λ e. (b : Bool) × (lookup e.1.code result ≡ some b) × IsDigit value (2 ^ e.0) b) alarms
verdicts-All value [] result h = tt
verdicts-All value (e ∷ alarms) result h =
    ((bit value e.0, h.0, bit-IsDigit value e.0), verdicts-All value alarms result h.1)

-- Of an integer, given or converted to, an evaluator whose alarms have different codes answers
-- the digit of weight `2 ^ bit_pos` of the value in two's complement, for each alarm, and answers
-- for the codes of `get_alarms` alone.
pub bit_mask_verdicts :
    (alarms : BitAlarms) (value : ℤ)
    → Distinct (codes (get_alarms alarms))
    → (result : Dict String Bool) × (evaluate alarms (plain value) ≡ some result)
      × (evaluate alarms (convertible (number value)) ≡ some result)
      × All (λ e. (b : Bool) × (lookup e.1.code result ≡ some b) × IsDigit value (2 ^ e.0) b) alarms
      × ((code : String) → is_some (lookup code result) ≡ contains code (codes (get_alarms alarms)))
unfolding evaluate get_alarms
bit_mask_verdicts alarms value h =
    let vs = verdicts value alarms in
    (
      record_all vs [],
      refl,
      refl,
      verdicts-All value alarms (record_all vs []) (record_all-All vs [] (rw keys-verdicts h)),
      λ code. record_all-only code vs ∙ ap (contains code) (keys-verdicts value alarms),
    )
