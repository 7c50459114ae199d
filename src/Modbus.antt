-- ===== src/Modbus.antt =====
-- The integers of any width in registers, csp_lib/modbus/types/dynamic.py: `DynamicInt` and
-- `DynamicUInt`. A register is a number, `raw & 0xFFFF` and `raw >>= 16` of a number that is not
-- negative are its remainder and its quotient by 65536, and `1 << n` is 2 ^ n. The byte order is
-- an argument that the code does not use.
pub mod Joining
pub mod RoundTrip
mod Tests
use Prim.Native.Nat.{bit_or}
use mathlib.Core.List.{reverse}
use csp_lib.Base.{
  ℕ, zero, suc, ◌+◌, ◌-◌, ◌*◌, ◌/◌, ◌%◌, ◌^◌, Bool, true, false, not, ◌&&◌, Option, none, some,
  List, [], ◌∷◌, length, ltb, leb, eqb, if◌then◌else◌,
}
use csp_lib.Base.Int.{ℤ, pos, negsuc, sub_ℕ}

pub record DynamicInt : Type 0 where
  pub bit_width : ℕ
  pub register_count : ℕ
  pub signed : Bool

pub data RegisterOrder : Type 0 where
  high_first low_first : RegisterOrder

-- `__init__`; `none` is a `ModbusConfigError`.
unfoldable pub new : ℕ → Bool → Option DynamicInt
new bit_width signed =
    if eqb bit_width 0
    then none
    else if not (eqb (bit_width % 16) 0)
    then none
    else some (record { bit_width = bit_width; register_count = bit_width / 16; signed = signed })

-- `_min_value <= value <= _max_value`.
unfoldable pub in_range : DynamicInt → ℤ → Bool
in_range t (pos n) = ltb n (2 ^ (if t.signed then t.bit_width - 1 else t.bit_width))
in_range t (negsuc n) = t.signed && leb (n + 1) (2 ^ (t.bit_width - 1))

-- The two's complement of a negative value; a value in range is negative only if it may be.
abbrev pub complement : DynamicInt → ℤ → ℕ
complement t (pos n) = n
complement t (negsuc n) = 2 ^ t.bit_width - (n + 1)

-- The loop that splits off the registers, the low one first.
unfoldable pub split : ℕ → ℕ → List ℕ
split zero raw = []
split (suc k) raw = (raw % 65536) ∷ split k (raw / 65536)

abbrev pub ordered : RegisterOrder → List ℕ → List ℕ
ordered high_first registers = reverse registers
ordered low_first registers = registers

-- `encode`; `none` is a `ModbusEncodeError`.
unfoldable pub encode : DynamicInt → ℤ → RegisterOrder → Option (List ℕ)
encode t value order =
    if in_range t value
    then some (ordered order (split t.register_count (complement t value)))
    else none

abbrev pub take : ℕ → List ℕ → List ℕ
take zero xs = []
take (suc n) [] = []
take (suc n) (x ∷ xs) = x ∷ take n xs

-- The loop `value |= reg << (16 * i)`, from the register at `i` on.
unfoldable pub join : ℕ → ℕ → List ℕ → ℕ
join i value [] = value
join i value (reg ∷ regs) = join (i + 1) (bit_or value (reg * 2 ^ (16 * i))) regs

abbrev pub from_complement : DynamicInt → ℕ → ℤ
from_complement t value =
    if t.signed && leb (2 ^ (t.bit_width - 1)) value
    then sub_ℕ value (2 ^ t.bit_width)
    else pos value

-- `decode`; `none` is a `ModbusDecodeError`.
unfoldable pub decode : DynamicInt → List ℕ → RegisterOrder → Option ℤ
decode t registers order =
    if ltb (length registers) t.register_count
    then none
    else some (from_complement t (join 0 0 (ordered order (take t.register_count registers))))
