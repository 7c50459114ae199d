-- ===== src/Modbus/Tests.antt =====
-- Integers in registers, and the round trip at one.
use csp_lib.Base.{ℕ, ◌<◌, true, ◌≡◌, refl, none, some, List, [], ◌∷◌, length, All}
use csp_lib.Base.Int.{negsuc}
use csp_lib.Modbus.{DynamicInt, high_first, low_first, new, in_range, split, encode, join, decode}
use csp_lib.Modbus.RoundTrip.{encode-decode}

abbrev int48 : DynamicInt
int48 = record { bit_width = 48; register_count = 3; signed = true }

encoded : encode int48 (negsuc 1) high_first ≡ some (65535 ∷ 65535 ∷ 65534 ∷ [])
unfolding encode in_range split
encoded = refl

decoded : decode int48 (65534 ∷ 65535 ∷ 65535 ∷ 7 ∷ []) low_first ≡ some (negsuc 1)
unfolding decode join
decoded = refl

refused : new 40 true ≡ none
unfolding new
refused = refl

made : new 48 true ≡ some int48
unfolding new
made = refl

fits : in_range int48 (negsuc 1) ≡ true
unfolding in_range
fits = refl

encode-decode_example :
    (regs : List ℕ) × (encode int48 (negsuc 1) high_first ≡ some regs)
    × (length regs ≡ 3)
    × All (λ r. r < 65536) regs
    × (decode int48 regs high_first ≡ some (negsuc 1))
encode-decode_example = encode-decode 48 true int48 (negsuc 1) high_first made fits
