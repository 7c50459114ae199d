-- ===== src/Base/Lists.antt =====
-- Lists measured by native numbers, membership by a test, and predicates by recursion.
use Prim.Native.Nat.{ℕ, zero, suc, ◌+◌}
use mathlib.Core.Path.{◌≡◌, refl, sym, subst}
use mathlib.Core.Logic.{inl, inr}
use mathlib.Core.Bool.{Bool, true, false, ◌||◌}
use mathlib.Core.Option.{Option, none, some}
use mathlib.Core.List.{List, [], ◌∷◌, ◌++◌}
use native.Mathlib.Omega.{arith}
use csp_lib.Base.Tests.{if◌then◌else◌, Bool-cases}
use csp_lib.Base.Eq.{Equality, ◌==◌, ==_refl}

module _ {ℓ} {A : Type ℓ} where
  abbrev pub length : List A → ℕ
  length [] = 0
  length (x ∷ xs) = suc (length xs)

  abbrev pub get_elem? : List A → ℕ → Option A
  get_elem? [] i = none
  get_elem? (x ∷ xs) zero = some x
  get_elem? (x ∷ xs) (suc i) = get_elem? xs i

  abbrev pub filter : (A → Bool) → List A → List A
  filter p [] = []
  filter p (x ∷ xs) = if p x then x ∷ filter p xs else filter p xs

  pub length-append : (xs ys : List A) → length (xs ++ ys) ≡ length xs + length ys
  length-append [] ys = omega arith
  length-append (x ∷ xs) ys = omega (arith, length-append xs ys)

  pub append-ne-nil : (xs : List A) (y : A) (ys : List A) → (xs ++ (y ∷ ys)) ≡ [] → ⊥
  append-ne-nil [] y ys h = cc
  append-ne-nil (x ∷ xs) y ys h = cc

-- A predicate that holds of every element.
abbrev pub All {ℓ κ} : {A : Type ℓ} → (A → Type κ) → List A → Type κ
All P [] = Unit
All P (x ∷ xs) = P x × All P xs

pub All-append {ℓ κ} :
    {A : Type ℓ} (P : A → Type κ) (front back : List A)
    → All P front
    → All P back
    → All P (front ++ back)
All-append P [] back h k = k
All-append P (a ∷ front) back h k = (h.0, All-append P front back h.1 k)

module _ {ℓ} {A : Type ℓ} ⦃e : Equality A⦄ where
  -- `a in xs`.
  abbrev pub contains : A → List A → Bool
  contains a [] = false
  contains a (x ∷ xs) = a == x || contains a xs

  -- `xs.remove(a)`: the first occurrence goes.
  abbrev pub remove : A → List A → List A
  remove a [] = []
  remove a (x ∷ xs) = if a == x then xs else x ∷ remove a xs

  -- No element stands twice.
  abbrev pub Distinct : List A → Type 0
  Distinct [] = Unit
  Distinct (x ∷ xs) = (contains x xs ≡ false) × Distinct xs

pub All-map {ℓ κ μ} :
    {A : Type ℓ} {P : A → Type κ} {Q : A → Type μ} (xs : List A)
    → ((a : A) → P a → Q a)
    → All P xs
    → All Q xs
All-map [] f h = tt
All-map (x ∷ xs) f h = (f x h.0, All-map xs f h.1)

module _ {ℓ} {A : Type ℓ} ⦃e : Equality A⦄ where
  pub contains-append :
      (a : A) (xs ys : List A) → contains a (xs ++ ys) ≡ (contains a xs || contains a ys)
  contains-append a [] ys = refl
  contains-append a (x ∷ xs) ys = ground (arith, contains-append a xs ys)

  pub contains-remove :
      (a b : A) (xs : List A) → contains a xs ≡ false → contains a (remove b xs) ≡ false
  contains-remove a b [] h = refl
  contains-remove a b (x ∷ xs) h = ground (arith, contains-remove a b xs)

  pub contains-remove_ne :
      (a b : A) (xs : List A) → (a == b) ≡ false → contains a (remove b xs) ≡ contains a xs
  contains-remove_ne a b [] h = refl
  contains-remove_ne a b (x ∷ xs) h = ground (
    arith,
    e.is_equal_iff a b,
    e.is_equal_iff b x,
    e.is_equal_iff a x,
    contains-remove_ne a b xs h,
  )

  pub contains-remove_self : (a : A) (xs : List A) → Distinct xs → contains a (remove a xs) ≡ false
  contains-remove_self a [] h = refl
  contains-remove_self a (x ∷ xs) h =
      ground (arith, e.is_equal_iff a x, h.0, contains-remove_self a xs h.1)

  pub remove-Distinct : (a : A) (xs : List A) → Distinct xs → Distinct (remove a xs)
  remove-Distinct a [] h = h
  remove-Distinct a (x ∷ xs) h =
      ground (arith, h.0, h.1, contains-remove x a xs h.0, remove-Distinct a xs h.1)

  pub append_one-Distinct :
      (a : A) (xs : List A) → Distinct xs → contains a xs ≡ false → Distinct (xs ++ a ∷ [])
  append_one-Distinct a [] h k = (refl, tt)
  append_one-Distinct a (x ∷ xs) h k = ground (
    arith,
    h.0,
    e.is_equal_iff a x,
    e.is_equal_iff x a,
    contains-append x xs (a ∷ []),
    append_one-Distinct a xs h.1,
  )

  pub remove-append_one :
      (a : A) (xs : List A) → contains a xs ≡ false → remove a (xs ++ a ∷ []) ≡ xs
  remove-append_one a [] h = rw (==_refl a)
  remove-append_one a (x ∷ xs) h = ground (arith, remove-append_one a xs)

  pub All-remove {κ} : (P : A → Type κ) (a : A) (xs : List A) → All P xs → All P (remove a xs)
  All-remove P a [] h = h
  All-remove P a (x ∷ xs) h = elim (Bool-cases (a == x)) [
    | inl t ↦ rw t h.1
    | inr f ↦ rw f (h.0, All-remove P a xs h.1)
  ]

  pub All-contains {κ} :
      (P : A → Type κ) (a : A) (xs : List A) → All P xs → contains a xs ≡ true → P a
  All-contains P a [] h k = cc
  All-contains P a (x ∷ xs) h k = elim (Bool-cases (a == x)) [
    | inl t ↦ subst P (sym ((e.is_equal_iff a x).0 t)) h.0
    | inr f ↦ All-contains P a xs h.1 (rw f at k)
  ]

  -- A property of the elements other than one that is not there.
  pub All_but {κ μ} :
      (P : A → Type κ) (Q : A → Type μ) (b : A) (xs : List A)
      → ((a : A) → (a == b) ≡ false → P a → Q a)
      → contains b xs ≡ false
      → All P xs
      → All Q xs
  All_but P Q b [] f n h = tt
  All_but P Q b (x ∷ xs) f n h = (
    f x (ground (arith, n, e.is_equal_iff x b, e.is_equal_iff b x)) h.0,
    All_but P Q b xs f (ground (arith, n)) h.1,
  )

pub All-zip {ℓ κ μ ν} :
    {A : Type ℓ} {P : A → Type κ} {Q : A → Type μ} {R : A → Type ν} (xs : List A)
    → ((a : A) → P a → Q a → R a)
    → All P xs
    → All Q xs
    → All R xs
All-zip [] f h k = tt
All-zip (x ∷ xs) f h k = (f x h.0 k.0, All-zip xs f h.1 k.1)

module _ {ℓ κ} {A : Type ℓ} (P : A → Type κ) where
  pub All-left : (xs ys : List A) → All P (xs ++ ys) → All P xs
  All-left [] ys h = tt
  All-left (x ∷ xs) ys h = (h.0, All-left xs ys h.1)

  pub All-right : (xs ys : List A) → All P (xs ++ ys) → All P ys
  All-right [] ys h = h
  All-right (x ∷ xs) ys h = All-right xs ys h.1
