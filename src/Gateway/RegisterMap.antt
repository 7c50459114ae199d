-- ===== src/Gateway/RegisterMap.antt =====
-- `GatewayRegisterMap` (csp_lib/modbus_gateway/register_map.py) over any type of values. A
-- definition carries its encoding, which scales, rounds and encodes in the definition's or the
-- server's byte and register order, and its decoding; each may raise. The lock is not modelled.
pub mod Valid
pub mod Registered
pub mod Built
pub mod Access
pub mod Entries
use csp_lib.Base.{
  ℕ, zero, suc, ◌+◌, String, Bool, true, false, not, ◌&&◌, Option, none, some, List, [], ◌∷◌,
  length, filter, ltb, leb, if◌then◌else◌, string_equality,
}
use csp_lib.Base.Dict.{Dict, values, lookup, member, insert}
use csp_lib.Gateway.Slices.{slice, splice}

pub data RegisterType : Type 0 where
  holding input : RegisterType

-- The numbers that a definition's type takes up, and its values' coding.
pub record GatewayRegisterDef (V : Type 0) : Type 0 where
  pub name : String
  pub address : ℕ
  pub register_count : ℕ
  pub register_type : RegisterType
  pub writable : Bool
  pub initial_value : Option V
  pub encode : V → Option (List ℕ)
  pub decode : List ℕ → Option V

pub record RegisterMap (V : Type 0) : Type 0 where
  pub size : ℕ
  pub hr_regs : List ℕ
  pub ir_regs : List ℕ
  pub defs : Dict String (GatewayRegisterDef V)

-- A value, an error of the codec, or a missing name.
pub data Outcome (A : Type 0) : Type 0 where
  done : A → Outcome A
  codec_error : Outcome A
  key_error : Outcome A

-- A map, or what its construction raises.
pub data Made (V : Type 0) : Type 0 where
  made : RegisterMap V → Made V
  duplicate_name : String → Made V
  outside_space : String → Made V
  register_conflict : String → String → Made V
  initial_error : Made V

abbrev pub same_type : RegisterType → RegisterType → Bool
same_type holding holding = true
same_type holding input = false
same_type input holding = false
same_type input input = true

unfoldable pub zeros : ℕ → List ℕ
zeros zero = []
zeros (suc n) = 0 ∷ zeros n

-- The ranges of `m` registers at `a` and of `n` registers at `b` overlap: `a <= b + n - 1` and
-- `b <= a + m - 1`.
abbrev pub overlaps : ℕ → ℕ → ℕ → ℕ → Bool
overlaps a m b n = ltb a (b + n) && ltb b (a + m)

module _ {V : Type 0} where
  abbrev pub conflicts : GatewayRegisterDef V → GatewayRegisterDef V → Bool
  conflicts d existing =
      same_type existing.register_type d.register_type
      && overlaps d.address d.register_count existing.address existing.register_count

  -- The first definition that overlaps with a new one.
  unfoldable pub find_conflict :
      GatewayRegisterDef V → List (GatewayRegisterDef V) → Option (GatewayRegisterDef V)
  find_conflict d [] = none
  find_conflict d (x ∷ xs) = if conflicts d x then some x else find_conflict d xs

  abbrev pub add_def : GatewayRegisterDef V → Option (GatewayRegisterDef V) → RegisterMap V → Made V
  add_def d (some existing) m = register_conflict existing.name d.name
  add_def d none m = made (record m { defs = insert d.name d m.defs })

  -- `_register`.
  unfoldable pub register : GatewayRegisterDef V → RegisterMap V → Made V
  unfolding find_conflict
  register d m =
      if member d.name m.defs
      then duplicate_name d.name
      else if ltb m.size (d.address + d.register_count)
      then outside_space d.name
      else add_def d (find_conflict d (values m.defs)) m

  abbrev pub and_then : Made V → (RegisterMap V → Made V) → Made V
  and_then (made m) f = f m
  and_then (duplicate_name n) f = duplicate_name n
  and_then (outside_space n) f = outside_space n
  and_then (register_conflict n o) f = register_conflict n o
  and_then initial_error f = initial_error

  unfoldable pub register_all : List (GatewayRegisterDef V) → RegisterMap V → Made V
  unfolding register
  register_all [] m = made m
  register_all (d ∷ ds) m = and_then (register d m) (register_all ds)

  -- The array that a type of registers stands in, and a write to it.
  abbrev pub regs_of : RegisterType → RegisterMap V → List ℕ
  regs_of holding m = m.hr_regs
  regs_of input m = m.ir_regs

  abbrev pub with_regs : RegisterType → List ℕ → RegisterMap V → RegisterMap V
  with_regs holding rs m = record m { hr_regs = rs }
  with_regs input rs m = record m { ir_regs = rs }

  abbrev pub write : GatewayRegisterDef V → List ℕ → RegisterMap V → RegisterMap V
  write d ws m = with_regs d.register_type (splice d.address ws (regs_of d.register_type m)) m

  abbrev pub store :
      GatewayRegisterDef V → Option (List ℕ) → RegisterMap V → Outcome (RegisterMap V)
  store d none m = codec_error
  store d (some ws) m = done (write d ws m)

  -- `_set_value_unlocked` and `_get_value_unlocked`.
  unfoldable pub set_unlocked : GatewayRegisterDef V → V → RegisterMap V → Outcome (RegisterMap V)
  set_unlocked d v m = store d (d.encode v) m

  abbrev pub loaded : Option V → Outcome V
  loaded none = codec_error
  loaded (some v) = done v

  unfoldable pub get_unlocked : GatewayRegisterDef V → RegisterMap V → Outcome V
  get_unlocked d m =
      loaded (d.decode (slice d.address d.register_count (regs_of d.register_type m)))

  abbrev set_found : Option (GatewayRegisterDef V) → V → RegisterMap V → Outcome (RegisterMap V)
  set_found none v m = key_error
  set_found (some d) v m = set_unlocked d v m

  -- `set_value`.
  unfoldable pub set_value : String → V → RegisterMap V → Outcome (RegisterMap V)
  unfolding set_unlocked
  set_value name v m = set_found (lookup name m.defs) v m

  abbrev get_found : Option (GatewayRegisterDef V) → RegisterMap V → Outcome V
  get_found none m = key_error
  get_found (some d) m = get_unlocked d m

  -- `get_value`.
  unfoldable pub get_value : String → RegisterMap V → Outcome V
  unfolding get_unlocked
  get_value name m = get_found (lookup name m.defs) m

  abbrev pub initialised : Outcome (RegisterMap V) → Made V
  initialised (done m) = made m
  initialised codec_error = initial_error
  initialised key_error = initial_error

  abbrev pub initialise : GatewayRegisterDef V → Option V → RegisterMap V → Made V
  initialise d none m = made m
  initialise d (some v) m = initialised (set_unlocked d v m)

  unfoldable pub initialise_all : List (GatewayRegisterDef V) → RegisterMap V → Made V
  unfolding set_unlocked
  initialise_all [] m = made m
  initialise_all (d ∷ ds) m = and_then (initialise d d.initial_value m) (initialise_all ds)

  abbrev pub empty_map : ℕ → RegisterMap V
  empty_map size = record { size = size; hr_regs = zeros size; ir_regs = zeros size; defs = [] }

  -- `__init__`.
  unfoldable pub new : ℕ → List (GatewayRegisterDef V) → Made V
  unfolding register_all initialise_all zeros
  new size ds = and_then (register_all ds (empty_map size)) (initialise_all ds)

  -- `get_hr_raw`, `get_ir_raw` and `set_hr_raw`.
  unfoldable pub get_hr_raw : ℕ → ℕ → RegisterMap V → List ℕ
  get_hr_raw address count m = slice address count m.hr_regs

  unfoldable pub get_ir_raw : ℕ → ℕ → RegisterMap V → List ℕ
  get_ir_raw address count m = slice address count m.ir_regs

  unfoldable pub set_hr_raw : ℕ → List ℕ → RegisterMap V → RegisterMap V
  set_hr_raw address ws m = record m { hr_regs = splice address ws m.hr_regs }

  -- `find_affected_registers`.
  unfoldable pub find_affected_registers :
      ℕ → ℕ → RegisterType → RegisterMap V → List (GatewayRegisterDef V)
  find_affected_registers address count type m =
      filter
        (λ d. same_type d.register_type type && overlaps d.address d.register_count address count)
        (values m.defs)
