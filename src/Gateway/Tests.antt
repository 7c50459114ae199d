-- ===== src/Gateway/Tests.antt =====
-- Runs of the gateway model on concrete registers, and its theorems at them.
use csp_lib.Base.{
  ℕ, String, ◌≡◌, refl, true, false, not, none, some, Option, List, [], ◌∷◌, length, All, ltb,
  if◌then◌else◌, ◌==◌, string_equality, arith, Bool-cases, inl, inr, nat_equality, subst,
}
use csp_lib.Gateway.RegisterMap.{
  holding, GatewayRegisterDef, RegisterMap, done, loaded, made, new, register_all, register,
  find_conflict, initialise_all, set_unlocked, zeros, get_value, set_value,
}
use csp_lib.Gateway.RegisterMap.Valid.{IsCodec, IsValid, WhenMade}
use csp_lib.Gateway.RegisterMap.Built.{new-IsValid}
use csp_lib.Gateway.RegisterMap.Access.{get_value-set_value}
use csp_lib.Gateway.Pipeline.{WriteRule, WritePipeline, apply_rule, whitelist, process_write}
use csp_lib.Gateway.Pipeline.Rounds.{Kept, Fate}
use csp_lib.Gateway.Pipeline.Planned.{process_write-planned}
use csp_lib.Gateway.Watchdog.{
  start, touched, checked, run, Event, LeadsTo, last_verdict, run_reports,
}
use csp_lib.Gateway.Slices.{splice}

-- An unsigned number of 16 bits.
abbrev one_word : ℕ → Option (List ℕ)
one_word v = if ltb v 65536 then some (v ∷ []) else none

abbrev first_word : List ℕ → Option ℕ
first_word [] = none
first_word (w ∷ ws) = some w

abbrev setpoint : GatewayRegisterDef ℕ
setpoint = record {
  name = "p_set";
  address = 0;
  register_count = 1;
  register_type = holding;
  writable = true;
  initial_value = some 5;
  encode = one_word;
  decode = first_word;
}

abbrev version : GatewayRegisterDef ℕ
version = record {
  name = "version";
  address = 1;
  register_count = 1;
  register_type = holding;
  writable = false;
  initial_value = some 3;
  encode = one_word;
  decode = first_word;
}

one_word-length : (v : ℕ) (ws : List ℕ) → one_word v ≡ some ws → length ws ≡ 1
one_word-length v ws e = elim (Bool-cases (ltb v 65536)) [
  | inl t ↦ ground (arith, e, t)
  | inr f ↦ ground (arith, e, f)
]

both-IsCodec : All IsCodec (setpoint ∷ version ∷ [])
both-IsCodec = (one_word-length, (one_word-length, tt))

new-IsValid_example : WhenMade IsValid (new 4 (setpoint ∷ version ∷ []))
new-IsValid_example = new-IsValid 4 (setpoint ∷ version ∷ []) both-IsCodec

abbrev site : RegisterMap ℕ
site = record {
  size = 4;
  hr_regs = 5 ∷ 3 ∷ 0 ∷ 0 ∷ [];
  ir_regs = 0 ∷ 0 ∷ 0 ∷ 0 ∷ [];
  defs = ("p_set", setpoint) ∷ ("version", version) ∷ [];
}

new-site : new 4 (setpoint ∷ version ∷ []) ≡ made site
unfolding new register_all register find_conflict initialise_all set_unlocked zeros splice
new-site = refl

site-IsValid : IsValid site
site-IsValid = subst (WhenMade IsValid) new-site new-IsValid_example

get_value-set_value_example :
    (m' : RegisterMap ℕ) × (set_value "p_set" 9 site ≡ done m')
    × IsValid m'
    × (m'.defs ≡ site.defs)
    × ((o : String)
        → get_value o m'
          ≡ (if o == "p_set" then loaded (first_word (9 ∷ [])) else get_value o site))
get_value-set_value_example =
    get_value-set_value site "p_set" setpoint 9 (9 ∷ []) site-IsValid refl refl

abbrev limit : WriteRule ℕ
limit = record { min_value = some 2; max_value = some 8; clamp = true }

abbrev line : WritePipeline ℕ
line = record {
  write_rules = ("p_set", λ name v. apply_rule ltb limit v) ∷ [];
  validators = whitelist ("p_set" ∷ "version" ∷ []) ∷ [];
  differs = λ old new. not (old == new);
}

-- A write of both registers: the first is clamped, the second is not writable.
process_write-planned_example :
    let r = process_write line 0 (11 ∷ 7 ∷ []) site in
    Kept line 0 (11 ∷ 7 ∷ []) site r × Fate line 0 (11 ∷ 7 ∷ []) setpoint site true r
process_write-planned_example =
    process_write-planned line 0 (11 ∷ 7 ∷ []) site "p_set" setpoint site-IsValid refl
      (ground arith)

abbrev quiet_hour : List Event
quiet_hour = checked 20 ∷ checked 40 ∷ touched 41 ∷ checked 45 ∷ []

run_reports_example :
    let r = run 30 quiet_hour (start 0) in
    (r.0.timed_out ≡ last_verdict 30 0 false quiet_hour) × LeadsTo false r.1 r.0.timed_out
unfolding start
run_reports_example = run_reports 30 quiet_hour (start 0)
