-- ===== src/Gateway/RegisterMap/Valid.antt =====
-- Well-formed register maps (csp_lib/modbus_gateway/register_map.py).
use csp_lib.Base.{
  ℕ, ◌+◌, ◌≤◌, String, true, false, ◌≡◌, refl, ◌∙◌, ◌⊎◌, some, List, length, Distinct, ◌==◌,
  string_equality, arith,
}
use csp_lib.Base.Dict.{keys, lookup}
use csp_lib.Gateway.Slices.{splice, length-splice}
use csp_lib.Gateway.RegisterMap.{
  RegisterType, holding, input, GatewayRegisterDef, RegisterMap, Made, made, duplicate_name,
  outside_space, register_conflict, initial_error, same_type, regs_of, with_regs, write,
}

-- The numbers that an encoding makes are as many as the definition's type takes up.
abbrev pub IsCodec : {V : Type 0} → GatewayRegisterDef V → Type 0
IsCodec {V} d = (v : V) (ws : List ℕ) → d.encode v ≡ some ws → length ws ≡ d.register_count

-- Definitions of one type do not overlap.
abbrev pub Separated : {V : Type 0} → GatewayRegisterDef V → GatewayRegisterDef V → Type 0
Separated d e =
    same_type d.register_type e.register_type ≡ true
    → (d.address + d.register_count ≤ e.address) ⊎ (e.address + e.register_count ≤ d.address)

pub record IsValid {V : Type 0} (m : RegisterMap V) : Type 0 where
  pub hr_full : length m.hr_regs ≡ m.size
  pub ir_full : length m.ir_regs ≡ m.size
  pub distinct : Distinct (keys m.defs)
  pub named : (n : String) (d : GatewayRegisterDef V) → lookup n m.defs ≡ some d → d.name ≡ n
  pub fits :
      (n : String) (d : GatewayRegisterDef V)
      → lookup n m.defs ≡ some d
      → d.address + d.register_count ≤ m.size
  pub coded : (n : String) (d : GatewayRegisterDef V) → lookup n m.defs ≡ some d → IsCodec d
  pub separated :
      (n o : String) (d e : GatewayRegisterDef V)
      → lookup n m.defs ≡ some d
      → lookup o m.defs ≡ some e
      → (n == o) ≡ false
      → Separated d e

-- What holds of a map that is made.
abbrev pub WhenMade : {V : Type 0} → (RegisterMap V → Type 0) → Made V → Type 0
WhenMade P (made m) = P m
WhenMade P (duplicate_name n) = Unit
WhenMade P (outside_space n) = Unit
WhenMade P (register_conflict n o) = Unit
WhenMade P initial_error = Unit

module _ {V : Type 0} where
  -- A write to a place of the arrays changes no length and no definition.
  pub write-IsValid :
      (d : GatewayRegisterDef V) (ws : List ℕ) (m : RegisterMap V)
      → d.address + length ws ≤ m.size
      → IsValid m
      → IsValid (write d ws m)
  write-IsValid d ws m h i = at d.register_type
    where
      at : (t : RegisterType) → IsValid (with_regs t (splice d.address ws (regs_of t m)) m)
      at holding = record {
        hr_full = length-splice d.address ws m.hr_regs (ground (arith, h, i.hr_full)) ∙ i.hr_full;
        ir_full = i.ir_full;
        distinct = i.distinct;
        named = i.named;
        fits = i.fits;
        coded = i.coded;
        separated = i.separated;
      }
      at input = record {
        hr_full = i.hr_full;
        ir_full = length-splice d.address ws m.ir_regs (ground (arith, h, i.ir_full)) ∙ i.ir_full;
        distinct = i.distinct;
        named = i.named;
        fits = i.fits;
        coded = i.coded;
        separated = i.separated;
      }

  pub write_size :
      (d : GatewayRegisterDef V) (ws : List ℕ) (m : RegisterMap V) → (write d ws m).size ≡ m.size
  write_size d ws m = at d.register_type
    where
      at : (t : RegisterType) → (with_regs t (splice d.address ws (regs_of t m)) m).size ≡ m.size
      at holding = refl
      at input = refl
