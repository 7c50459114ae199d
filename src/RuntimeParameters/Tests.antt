-- ===== src/RuntimeParameters/Tests.antt =====
-- Runs of the parameters, and their theorems at them.
use csp_lib.Base.{ℕ, ◌≡◌, refl, none, some, List, [], ◌∷◌, nat_equality, string_equality}
use csp_lib.RuntimeParameters.{
  RuntimeParameters, get_attribute, Write, set_call, update_call, delete_call, attribute_call,
  perform, run_writes,
}
use csp_lib.RuntimeParameters.Mirror.{view, Leads, run_writes-Leads}

abbrev params : RuntimeParameters ℕ
params = record {
  values = ("soc_max", some 95) ∷ ("soc_min", some 5) ∷ ("spare", none) ∷ [];
  observers = 1 ∷ [];
}

abbrev writes : List (Write ℕ)
writes =
    set_call "soc_max" (some 90)
    ∷ update_call (("soc_min", some 5) ∷ ("ramp", some 3) ∷ [])
    ∷ delete_call "spare"
    ∷ delete_call "ramp"
    ∷ attribute_call "soc_max" none
    ∷ []

notices :
    (run_writes writes params).1
    ≡ ("soc_max", (some 95, some 90))
      ∷ ("ramp", (none, some 3))
      ∷ ("ramp", (some 3, none))
      ∷ ("soc_max", (some 90, none))
      ∷ []
unfolding run_writes perform
notices = refl

private_attribute : get_attribute "_lock" params ≡ none
unfolding get_attribute
private_attribute = refl

run_writes-Leads_example :
    Leads (view params) (run_writes writes params).1 (view (run_writes writes params).0)
run_writes-Leads_example = run_writes-Leads writes params (refl, (refl, (refl, tt)))
