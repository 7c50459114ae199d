-- ===== src/Modbus/RoundTrip.antt =====
-- What is encoded is decoded (csp_lib/modbus/types/dynamic.py).
use csp_lib.Base.{
  ℕ, suc, ◌-◌, ◌*◌, ◌^◌, ◌<◌, ◌≤◌, Bool, true, false, ◌≡◌, refl, sym, ap, ◌∙◌, some, List, length,
  All, arith, ltb,
}
use csp_lib.Base.Int.{ℤ, pos, negsuc}
use native.Mathlib.Nat.{pow-suc}
use csp_lib.Modbus.{
  DynamicInt, RegisterOrder, new, in_range, complement, split, ordered, encode, take, join,
  from_complement, decode,
}
use csp_lib.Modbus.Joining.{
  join-split, length-split, split-All, length-ordered, ordered-All, ordered-ordered, take-length,
}

-- A type as `__init__` makes it.
abbrev pub IsType : DynamicInt → Type 0
IsType t = (t.bit_width ≡ 16 * t.register_count) × (1 ≤ t.register_count)

pub new-IsType :
    (bit_width : ℕ) (signed : Bool) (t : DynamicInt) → new bit_width signed ≡ some t → IsType t
unfolding new
new-IsType bit_width signed t h = ground (arith, h)

half : (t : DynamicInt) → IsType t → 2 ^ t.bit_width ≡ 2 ^ (t.bit_width - 1) * 2
half t h =
    let above : t.bit_width ≡ suc (t.bit_width - 1) = omega (arith, h.0, h.1) in
    ap (λ e. 2 ^ e) above ∙ pow-suc 2 (t.bit_width - 1)

complement_bound :
    (t : DynamicInt) (value : ℤ)
    → IsType t
    → in_range t value ≡ true
    → complement t value < 2 ^ (16 * t.register_count)
unfolding in_range
complement_bound t (pos n) h r =
    let width : 2 ^ t.bit_width ≡ 2 ^ (16 * t.register_count) = ap (λ e. 2 ^ e) h.0 in
    ground (arith, r, half t h, width)
complement_bound t (negsuc n) h r =
    let width : 2 ^ t.bit_width ≡ 2 ^ (16 * t.register_count) = ap (λ e. 2 ^ e) h.0 in
    ground (arith, r, half t h, width)

from_complement-complement :
    (t : DynamicInt) (value : ℤ)
    → IsType t
    → in_range t value ≡ true
    → from_complement t (complement t value) ≡ value
unfolding in_range
from_complement-complement t (pos n) h r = ground (arith, r, half t h)
from_complement-complement t (negsuc n) h r = ground (arith, r, half t h)

decode-ordered :
    (t : DynamicInt) (raw : ℕ) (order : RegisterOrder)
    → raw < 2 ^ (16 * t.register_count)
    → decode t (ordered order (split t.register_count raw)) order ≡ some (from_complement t raw)
unfolding decode
decode-ordered t raw order h =
    let k = t.register_count in
    let regs = ordered order (split k raw) in
    let long : length regs ≡ k = length-ordered order (split k raw) ∙ length-split k raw in
    let enough : ltb (length regs) k ≡ false = ground (arith, long) in
    let all : take k regs ≡ regs = ap (λ n. take n regs) (sym long) ∙ take-length regs in
    let joined : join 0 0 (split k raw) ≡ raw =
      join-split k 0 0 raw (omega arith) h ∙ (omega arith) in
    rw (enough, all, ordered-ordered, joined) refl

-- A type that `__init__` accepts encodes every value in its range, in as many registers as it
-- says, each of 16 bits, and decodes these, in the same register order, to the value.
pub encode-decode :
    (bit_width : ℕ) (signed : Bool) (t : DynamicInt) (value : ℤ) (order : RegisterOrder)
    → new bit_width signed ≡ some t
    → in_range t value ≡ true
    → (regs : List ℕ) × (encode t value order ≡ some regs)
      × (length regs ≡ t.register_count)
      × All (λ r. r < 65536) regs
      × (decode t regs order ≡ some value)
unfolding encode
encode-decode bit_width signed t value order made r =
    let h = new-IsType bit_width signed t made in
    let k = t.register_count in
    let raw = complement t value in
    (
      ordered order (split k raw),
      rw r refl,
      length-ordered order (split k raw) ∙ length-split k raw,
      ordered-All order (split k raw) (split-All k raw),
      decode-ordered t raw order (complement_bound t value h r)
          ∙ ap some (from_complement-complement t value h r),
    )
