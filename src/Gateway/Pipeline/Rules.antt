-- ===== src/Gateway/Pipeline/Rules.antt =====
-- The bounds of a rule (csp_lib/modbus_gateway/config.py).
use csp_lib.Base.{Bool, true, false, ◌≡◌, refl, Option, none, some, Bool-cases, inl, inr}
use csp_lib.Gateway.Pipeline.{WriteRule, apply_rule, is_below, is_above}

abbrev IsWithin : {V : Type 0} → (V → V → Bool) → WriteRule V → V → V × Bool → Type 0
IsWithin less rule v r =
    (rule.clamp ≡ true → r.1 ≡ false)
    × (r.1 ≡ false
        → (is_below less r.0 rule.min_value ≡ false) × (is_above less r.0 rule.max_value ≡ false))
    × (is_below less v rule.min_value ≡ false
        → is_above less v rule.max_value ≡ false
        → r ≡ (v, false))

module _ {V : Type 0} (less : V → V → Bool) (v : V) (same : (x : V) → less x x ≡ false) where
  within :
      (lo hi : Option V) (c : Bool)
      → ((a b : V) → lo ≡ some a → hi ≡ some b → less b a ≡ false)
      → (let rule : WriteRule V = record { min_value = lo; max_value = hi; clamp = c } in
          IsWithin less rule v (apply_rule less rule v))
  unfolding apply_rule
  within none none c o = (λ h. refl, λ h. (refl, refl), λ h k. refl)
  within (some a) none true o = elim (Bool-cases (less v a)) [
    | inr f ↦ rw f (λ h. refl, λ h. (f, refl), λ h k. refl)
    | inl t ↦ rw t (λ h. refl, λ h. (same a, refl), λ h k. cc)
  ]
  within (some a) none false o = elim (Bool-cases (less v a)) [
    | inr f ↦ rw f (λ h. refl, λ h. (f, refl), λ h k. refl)
    | inl t ↦ rw t (λ h. cc, λ h. cc, λ h k. cc)
  ]
  within none (some b) true o = elim (Bool-cases (less b v)) [
    | inr f ↦ rw f (λ h. refl, λ h. (refl, f), λ h k. refl)
    | inl t ↦ rw t (λ h. refl, λ h. (refl, same b), λ h k. cc)
  ]
  within none (some b) false o = elim (Bool-cases (less b v)) [
    | inr f ↦ rw f (λ h. refl, λ h. (refl, f), λ h k. refl)
    | inl t ↦ rw t (λ h. cc, λ h. cc, λ h k. cc)
  ]
  within (some a) (some b) true o = elim (Bool-cases (less v a)) [
    | inl t ↦ rw t (λ h. refl, λ h. (same a, o a b refl refl), λ h k. cc)
    | inr f ↦ elim (Bool-cases (less b v)) [
      | inl t ↦ rw (f, t) (λ h. refl, λ h. (o a b refl refl, same b), λ h k. cc)
      | inr g ↦ rw (f, g) (λ h. refl, λ h. (f, g), λ h k. refl)
    ]
  ]
  within (some a) (some b) false o = elim (Bool-cases (less v a)) [
    | inl t ↦ rw t (λ h. cc, λ h. cc, λ h k. cc)
    | inr f ↦ elim (Bool-cases (less b v)) [
      | inl t ↦ rw (f, t) (λ h. cc, λ h. cc, λ h k. cc)
      | inr g ↦ rw (f, g) (λ h. refl, λ h. (f, g), λ h k. refl)
    ]
  ]

-- A value that the rule lets through is neither below its minimum nor above its maximum, and it is
-- the value that was given where that is within the bounds; a rule that clamps lets every value
-- through. No value is less than itself, and the maximum is not less than the minimum.
pub apply_rule-IsWithin :
    {V : Type 0} (less : V → V → Bool) (rule : WriteRule V) (v : V)
    → ((x : V) → less x x ≡ false)
    → ((lo hi : V) → rule.min_value ≡ some lo → rule.max_value ≡ some hi → less hi lo ≡ false)
    → (let r = apply_rule less rule v in
        (rule.clamp ≡ true → r.1 ≡ false)
        × (r.1 ≡ false
            → (is_below less r.0 rule.min_value ≡ false)
              × (is_above less r.0 rule.max_value ≡ false))
        × (is_below less v rule.min_value ≡ false
            → is_above less v rule.max_value ≡ false
            → r ≡ (v, false)))
apply_rule-IsWithin less rule v same order =
    within less v same rule.min_value rule.max_value rule.clamp order
