-- ===== src/Base/Eq.antt =====
-- Equality tests as an interface, with instances for numbers and texts.
use Prim.Native.Nat.{ℕ}
use Prim.Native.String.{String}
use mathlib.Core.Path.{◌≡◌, refl}
use mathlib.Core.Logic.{◌↔◌, inl, inr}
use mathlib.Core.Bool.{Bool, true, false}
use text.Mathlib.Text.{◌==◌ as str_eq}
use text.Mathlib.TextEquality.{eq_iff}
use csp_lib.Base.Tests.{eqb, eqb_iff, Bool-cases}

-- Python's `==` on a type whose equal values are the same value.
pub record Equality {ℓ} (A : Type ℓ) : Type ℓ where
  pub is_equal : A → A → Bool
  pub is_equal_iff : (x y : A) → (is_equal x y ≡ true) ↔ (x ≡ y)

instance abbrev pub string_equality : Equality String
string_equality = record { is_equal = str_eq; is_equal_iff = eq_iff }

instance abbrev pub nat_equality : Equality ℕ
nat_equality = record { is_equal = eqb; is_equal_iff = eqb_iff }

infix 50 ◌==◌
abbrev pub ◌==◌ {ℓ} : {A : Type ℓ} ⦃e : Equality A⦄ → (x y : A) → Bool
◌==◌ ⦃e⦄ x y = e.is_equal x y

pub ==_refl {ℓ} : {A : Type ℓ} ⦃e : Equality A⦄ (a : A) → (a == a) ≡ true
==_refl ⦃e⦄ a = (e.is_equal_iff a a).1 refl

pub ==_false {ℓ} : {A : Type ℓ} ⦃e : Equality A⦄ (a b : A) → (a ≡ b → ⊥) → (a == b) ≡ false
==_false ⦃e⦄ a b h = elim (Bool-cases (a == b)) [
  | inl t ↦ absurd (h ((e.is_equal_iff a b).0 t))
  | inr f ↦ f
]
