-- ===== src/Alarm/Evaluator/Recorded.antt =====
-- The loop that records verdicts (csp_lib/equipment/alarm/evaluator.py).
use csp_lib.Base.{
  is_some, ◌||◌, String, Bool, false, ◌≡◌, refl, ◌∙◌, some, List, [], ◌∷◌, contains, Distinct, All,
  ◌==◌, ==_refl, string_equality, arith, Bool-cases, inl, inr,
}
use csp_lib.Base.Dict.{Dict, keys, lookup, insert, lookup-insert}
use csp_lib.Alarm.Evaluator.{record_all}

pub lookup-record_other :
    (code : String) (es : List (String × Bool)) (result : Dict String Bool)
    → contains code (keys es) ≡ false
    → lookup code (record_all es result) ≡ lookup code result
unfolding record_all
lookup-record_other code [] result h = refl
lookup-record_other code (e ∷ es) result h = elim (Bool-cases (code == e.0)) [
  | inl t ↦ absurd (ground (arith, t, h))
  | inr f ↦
      let tail : contains code (keys es) ≡ false = ground (arith, f, h) in
      lookup-record_other code es (insert e.0 e.1 result) tail
      ∙ (lookup-insert code e.0 e.1 result ∙ rw f refl)
]

-- The verdict of each code that is recorded once is the dict's.
pub record_all-All :
    (es : List (String × Bool)) (result : Dict String Bool)
    → Distinct (keys es)
    → All (λ e. lookup e.0 (record_all es result) ≡ some e.1) es
unfolding record_all
record_all-All [] result h = tt
record_all-All (e ∷ es) result h = (
  lookup-record_other e.0 es (insert e.0 e.1 result) h.0
      ∙ (lookup-insert e.0 e.0 e.1 result ∙ rw (==_refl e.0) refl),
  record_all-All es (insert e.0 e.1 result) h.1,
)

-- The codes that are recorded.
pub record_all-codes :
    (code : String) (es : List (String × Bool)) (result : Dict String Bool)
    → is_some (lookup code (record_all es result))
      ≡ (contains code (keys es) || is_some (lookup code result))
unfolding record_all
record_all-codes code [] result = refl
record_all-codes code (e ∷ es) result =
    ground
      (arith, record_all-codes code es (insert e.0 e.1 result), lookup-insert code e.0 e.1 result)

pub record_all-only :
    (code : String) (es : List (String × Bool))
    → is_some (lookup code (record_all es [])) ≡ contains code (keys es)
record_all-only code es = ground (arith, record_all-codes code es [])
