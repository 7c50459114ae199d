-- ===== src/Gateway/Pipeline.antt =====
-- `WritePipeline.process_write` (csp_lib/modbus_gateway/pipeline.py), `WriteRule.apply` (config.py),
-- the whitelist (validators.py) and the holding registers' data block (datablock.py). The order and
-- the inequality of values are parameters. The calls of hooks are the changes that are returned.
pub mod Rules
pub mod Rounds
pub mod Planned
use csp_lib.Base.{
  ℕ, ◌+◌, ◌-◌, String, Bool, true, false, not, ◌&&◌, ◌||◌, Option, none, some, List, [], ◌∷◌, ◌++◌,
  length, contains, leb, if◌then◌else◌, string_equality,
}
use csp_lib.Base.Dict.{Dict, lookup}
use csp_lib.Gateway.Slices.{slice}
use csp_lib.Gateway.RegisterMap.{
  RegisterType, holding, GatewayRegisterDef, RegisterMap, Outcome, done, codec_error, key_error,
  get_value, set_value, find_affected_registers, get_hr_raw,
}

-- A rule gives a value and whether it rejects.
abbrev pub Rule : Type 0 → Type 0
Rule V = String → V → V × Bool

pub record WriteRule (V : Type 0) : Type 0 where
  pub min_value : Option V
  pub max_value : Option V
  pub clamp : Bool

-- An entry is the name, the old and the new value.
abbrev pub Changes : Type 0 → Type 0
Changes V = List (String × V × V)

-- The map after the write, with the changes, or where an exception left it.
pub data Processed (V : Type 0) : Type 0 where
  finished : RegisterMap V → Changes V → Processed V
  raised : RegisterMap V → Processed V

pub record WritePipeline (V : Type 0) : Type 0 where
  pub write_rules : Dict String (Rule V)
  pub validators : List (String → V → Bool)
  pub differs : V → V → Bool

-- `AddressWhitelistValidator.validate`.
unfoldable pub whitelist {ℓ} : {V : Type ℓ} → List String → String → V → Bool
whitelist allowed name v = contains name allowed

module _ {V : Type 0} where
  abbrev pub is_below : (V → V → Bool) → V → Option V → Bool
  is_below less v none = false
  is_below less v (some bound) = less v bound

  abbrev pub is_above : (V → V → Bool) → V → Option V → Bool
  is_above less v none = false
  is_above less v (some bound) = less bound v

  abbrev pub bound_or : Option V → V → V
  bound_or none v = v
  bound_or (some bound) v = bound

  -- `WriteRule.apply`.
  unfoldable pub apply_rule : (V → V → Bool) → WriteRule V → V → V × Bool
  apply_rule less rule v =
      if is_below less v rule.min_value
      then if rule.clamp then (bound_or rule.min_value v, false) else (v, true)
      else if is_above less v rule.max_value
      then if rule.clamp then (bound_or rule.max_value v, false) else (v, true)
      else (v, false)

  -- The validators one after the other, up to one that rejects.
  unfoldable pub all_accept : List (String → V → Bool) → String → V → Bool
  all_accept [] name v = true
  all_accept (f ∷ fs) name v = f name v && all_accept fs name v

  abbrev pub ruled_by : Option (Rule V) → String → V → V × Bool
  ruled_by none name v = (v, false)
  ruled_by (some rule) name v = rule name v

  -- `_apply_rule`, for a name with a rule.
  unfoldable pub apply_rules : WritePipeline V → String → V → V × Bool
  apply_rules p name v = ruled_by (lookup name p.write_rules) name v

  -- The write covers the whole of the register.
  abbrev pub covers : ℕ → List ℕ → GatewayRegisterDef V → Bool
  covers address ws d =
      leb address d.address && leb (d.address + d.register_count) (address + length ws)

  abbrev pub raw_slice : ℕ → List ℕ → GatewayRegisterDef V → List ℕ
  raw_slice address ws d = slice (d.address - address) d.register_count ws

  abbrev pub continue : Processed V → (RegisterMap V → Changes V → Processed V) → Processed V
  continue (finished m cs) f = f m cs
  continue (raised m) f = raised m

  module _ (p : WritePipeline V) where
    -- The body of the loop, from the last test to the first.
    abbrev pub updated :
        GatewayRegisterDef V
        → V
        → V
        → Outcome (RegisterMap V)
        → RegisterMap V
        → Changes V
        → Processed V
    updated d old v (done m') m cs =
        finished m' (if p.differs old v then cs ++ ((d.name, old, v) ∷ []) else cs)
    updated d old v codec_error m cs = raised m
    updated d old v key_error m cs = raised m

    abbrev pub ruled : GatewayRegisterDef V → V → V × Bool → RegisterMap V → Changes V → Processed V
    ruled d old r m cs =
        if r.1 then finished m cs else updated d old r.0 (set_value d.name r.0 m) m cs

    abbrev pub with_old :
        GatewayRegisterDef V → V → Outcome V → RegisterMap V → Changes V → Processed V
    with_old d v (done old) m cs =
        if d.writable && all_accept p.validators d.name v
        then ruled d old (apply_rules p d.name v) m cs
        else finished m cs
    with_old d v codec_error m cs = raised m
    with_old d v key_error m cs = raised m

    abbrev pub with_decoded :
        GatewayRegisterDef V → Option V → RegisterMap V → Changes V → Processed V
    with_decoded d none m cs = raised m
    with_decoded d (some v) m cs = with_old d v (get_value d.name m) m cs

    unfoldable pub process_one :
        ℕ → List ℕ → GatewayRegisterDef V → RegisterMap V → Changes V → Processed V
    process_one address ws d m cs =
        if covers address ws d
        then with_decoded d (d.decode (raw_slice address ws d)) m cs
        else finished m cs

    unfoldable pub process_all :
        ℕ → List ℕ → List (GatewayRegisterDef V) → RegisterMap V → Changes V → Processed V
    unfolding process_one
    process_all address ws [] m cs = finished m cs
    process_all address ws (d ∷ ds) m cs =
        continue (process_one address ws d m cs) (process_all address ws ds)

    -- `process_write`.
    unfoldable pub process_write : ℕ → List ℕ → RegisterMap V → Processed V
    unfolding process_all
    process_write address ws m =
        process_all address ws (find_affected_registers address (length ws) holding m) m []
