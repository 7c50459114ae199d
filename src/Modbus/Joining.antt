-- ===== src/Modbus/Joining.antt =====
-- The registers of a number joined again (csp_lib/modbus/types/dynamic.py).
use Prim.Native.Nat.{bit_or, bit_or-bitwise, digits}
use mathlib.Core.List.{reverse_aux, reverse-reverse}
use native.Mathlib.Nat.{pow-suc}
use csp_lib.Base.{
  ℕ, zero, suc, ◌+◌, ◌*◌, ◌/◌, ◌%◌, ◌^◌, ◌<◌, ◌≤◌, max, ◌≡◌, refl, ap, ◌∙◌, List, [], ◌∷◌, length,
  All, arith,
}
use csp_lib.Modbus.{split, ordered, RegisterOrder, high_first, low_first, take, join}

doubled : (b p q : ℕ) → q ≡ p * 2 → b * q ≡ b * p * 2
doubled b p q h = rw h (grind arith)

-- Digits that lie above a number's are added by an or.
or_digits : (n k a b : ℕ) → a ≤ n → a < 2 ^ k → digits (λ b. b) max n a (b * 2 ^ k) ≡ a + b * 2 ^ k
or_digits zero k zero b p q = omega arith
or_digits zero k (suc a) b p q = absurd (omega (arith, p))
or_digits (suc n) k zero b p q = omega arith
or_digits (suc n) zero (suc a) b p q = absurd (omega (arith, q))
or_digits (suc n) (suc k) (suc a) b p q =
    let double : b * 2 ^ suc k ≡ b * 2 ^ k * 2 = doubled b (2 ^ k) (2 ^ suc k) (pow-suc 2 k) in
    let half : b * 2 ^ suc k / 2 ≡ b * 2 ^ k = omega (arith, double) in
    let even : b * 2 ^ suc k % 2 ≡ 0 = omega (arith, double) in
    let rest = or_digits n k (suc a / 2) b (omega (arith, p)) (omega (arith, q, pow-suc 2 k)) in
    rw (half, even) (omega (arith, rest, double))

pub bit_or_shifted : (k a b : ℕ) → a < 2 ^ k → bit_or a (b * 2 ^ k) ≡ a + b * 2 ^ k
bit_or_shifted k a b h = bit_or-bitwise a (b * 2 ^ k) ∙ or_digits a k a b (omega arith) h

power_sum : (m n : ℕ) → 2 ^ (m + n) ≡ 2 ^ m * 2 ^ n
power_sum m zero =
    let same : m + 0 ≡ m = omega arith in
    let power : 2 ^ (m + 0) ≡ 2 ^ m = ap (λ e. 2 ^ e) same in omega (arith, power)
power_sum m (suc n) = grind (arith, power_sum m n, pow-suc 2 (m + n), pow-suc 2 n)

weight_step : (i : ℕ) → 2 ^ (16 * (i + 1)) ≡ 2 ^ (16 * i) * 65536
weight_step i =
    let expanded : 16 * (i + 1) ≡ 16 * i + 16 = omega arith in
    ap (λ e. 2 ^ e) expanded ∙ power_sum (16 * i) 16

weight_suc : (k : ℕ) → 2 ^ (16 * suc k) ≡ 2 ^ (16 * k) * 65536
weight_suc k =
    let expanded : 16 * suc k ≡ 16 * k + 16 = omega arith in
    ap (λ e. 2 ^ e) expanded ∙ power_sum (16 * k) 16

recombine : (q r w : ℕ) → r * w + q * (w * 65536) ≡ (q * 65536 + r) * w
recombine q r w = grind arith

regroup : (v q r w raw : ℕ) → q * 65536 + r ≡ raw → v + r * w + q * (w * 65536) ≡ v + raw * w
regroup v q r w raw h =
    let joined = recombine q r w in
    let named : (q * 65536 + r) * w ≡ raw * w = ap (λ x. x * w) h in omega (arith, joined, named)

stays_below : (r w v : ℕ) → v < w → r < 65536 → v + r * w < w * 65536
stays_below r w v h k = grind arith

-- Joining the registers that were split off a number gives it back, above what is there already.
pub join-split :
    (k i v raw : ℕ)
    → v < 2 ^ (16 * i)
    → raw < 2 ^ (16 * k)
    → join i v (split k raw) ≡ v + raw * 2 ^ (16 * i)
unfolding join split
join-split zero i v raw h n =
    let none_left : raw ≡ 0 = omega (arith, n) in rw none_left (omega arith)
join-split (suc k) i v raw h n =
    let w = 2 ^ (16 * i) in
    let r = raw % 65536 in
    let q = raw / 65536 in
    let merged : bit_or v (r * w) ≡ v + r * w = bit_or_shifted (16 * i) v r h in
    let below : v + r * w < 2 ^ (16 * (i + 1)) =
      rw (weight_step i) (stays_below r w v h (omega arith)) in
    let fewer : q < 2 ^ (16 * k) = omega (arith, n, weight_suc k) in
    let whole : q * 65536 + r ≡ raw = omega arith in
    let summed : v + r * w + q * 2 ^ (16 * (i + 1)) ≡ v + raw * w =
      rw (weight_step i) (regroup v q r w raw whole) in
    ap (λ x. join (i + 1) x (split k q)) merged
    ∙ (join-split k (i + 1) (v + r * w) q below fewer ∙ summed)

pub length-split : (k raw : ℕ) → length (split k raw) ≡ k
unfolding split
length-split zero raw = refl
length-split (suc k) raw = ap suc (length-split k (raw / 65536))

pub split-All : (k raw : ℕ) → All (λ r. r < 65536) (split k raw)
unfolding split
split-All zero raw = tt
split-All (suc k) raw = (omega arith, split-All k (raw / 65536))

length-reverse_aux : (xs ys : List ℕ) → length (reverse_aux xs ys) ≡ length xs + length ys
length-reverse_aux [] ys = omega arith
length-reverse_aux (x ∷ xs) ys = omega (arith, length-reverse_aux xs (x ∷ ys))

reverse_aux-All :
    (xs ys : List ℕ)
    → All (λ r. r < 65536) xs
    → All (λ r. r < 65536) ys
    → All (λ r. r < 65536) (reverse_aux xs ys)
reverse_aux-All [] ys h k = k
reverse_aux-All (x ∷ xs) ys h k = reverse_aux-All xs (x ∷ ys) h.1 (h.0, k)

pub length-ordered : (o : RegisterOrder) (xs : List ℕ) → length (ordered o xs) ≡ length xs
length-ordered high_first xs = omega (arith, length-reverse_aux xs [])
length-ordered low_first xs = refl

pub ordered-All :
    (o : RegisterOrder) (xs : List ℕ)
    → All (λ r. r < 65536) xs
    → All (λ r. r < 65536) (ordered o xs)
ordered-All high_first xs h = reverse_aux-All xs [] h tt
ordered-All low_first xs h = h

pub ordered-ordered : (o : RegisterOrder) (xs : List ℕ) → ordered o (ordered o xs) ≡ xs
ordered-ordered high_first xs = reverse-reverse xs
ordered-ordered low_first xs = refl

pub take-length : (xs : List ℕ) → take (length xs) xs ≡ xs
take-length [] = refl
take-length (x ∷ xs) = ap (λ ys. x ∷ ys) (take-length xs)
