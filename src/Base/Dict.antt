-- ===== src/Base/Dict.antt =====
-- A Python dict as an association list in insertion order, with one entry to a key.
use mathlib.Core.Path.{◌≡◌, refl, sym, subst₂}
use mathlib.Core.Logic.{inl, inr}
use mathlib.Core.Bool.{Bool, false, ◌||◌}
use mathlib.Core.Option.{Option, none, some}
use mathlib.Core.List.{List, [], ◌∷◌}
use native.Mathlib.Omega.{arith}
use csp_lib.Base.Tests.{if◌then◌else◌, is_some, Bool-cases}
use csp_lib.Base.Eq.{Equality, ◌==◌}
use csp_lib.Base.Lists.{contains, Distinct, All}

abbrev pub Dict {ℓ κ} : Type ℓ → Type κ → Type (ℓ ⊔ κ)
Dict K V = List (K × V)

abbrev pub keys {ℓ κ} : {K : Type ℓ} {V : Type κ} → Dict K V → List K
keys [] = []
keys (e ∷ d) = e.0 ∷ keys d

abbrev pub values {ℓ κ} : {K : Type ℓ} {V : Type κ} → Dict K V → List V
values [] = []
values (e ∷ d) = e.1 ∷ values d

module _ {ℓ κ} {K : Type ℓ} {V : Type κ} ⦃e : Equality K⦄ where
  -- `d.get(k)`.
  abbrev pub lookup : K → Dict K V → Option V
  lookup k [] = none
  lookup k (p ∷ d) = if k == p.0 then some p.1 else lookup k d

  -- `k in d`.
  abbrev pub member : K → Dict K V → Bool
  member k d = is_some (lookup k d)

  -- `d[k] = v`: an existing key keeps its place.
  abbrev pub insert : K → V → Dict K V → Dict K V
  insert k v [] = (k, v) ∷ []
  insert k v (p ∷ d) = if k == p.0 then (k, v) ∷ d else p ∷ insert k v d

  -- `del d[k]`.
  abbrev pub erase : K → Dict K V → Dict K V
  erase k [] = []
  erase k (p ∷ d) = if k == p.0 then d else p ∷ erase k d

  pub lookup-insert :
      (j k : K) (v : V) (d : Dict K V)
      → lookup j (insert k v d) ≡ (if j == k then some v else lookup j d)
  lookup-insert j k v [] = refl
  lookup-insert j k v (p ∷ d) =
      ground (
        arith,
        e.is_equal_iff j k,
        e.is_equal_iff k p.0,
        e.is_equal_iff j p.0,
        lookup-insert j k v d,
      )

  pub lookup-erase_ne :
      (j k : K) (d : Dict K V) → (j == k) ≡ false → lookup j (erase k d) ≡ lookup j d
  lookup-erase_ne j k [] h = refl
  lookup-erase_ne j k (p ∷ d) h = ground (
    arith,
    e.is_equal_iff j k,
    e.is_equal_iff k p.0,
    e.is_equal_iff j p.0,
    lookup-erase_ne j k d h,
  )

  pub contains-keys : (k : K) (d : Dict K V) → contains k (keys d) ≡ member k d
  contains-keys k [] = refl
  contains-keys k (p ∷ d) = ground (arith, contains-keys k d)

  pub lookup-erase_self : (k : K) (d : Dict K V) → Distinct (keys d) → lookup k (erase k d) ≡ none
  lookup-erase_self k [] h = refl
  lookup-erase_self k (p ∷ d) h = ground (
    arith,
    e.is_equal_iff k p.0,
    h.0,
    contains-keys k d,
    contains-keys p.0 d,
    lookup-erase_self k d h.1,
  )

  pub lookup-erase :
      (j k : K) (d : Dict K V)
      → Distinct (keys d)
      → lookup j (erase k d) ≡ (if j == k then none else lookup j d)
  lookup-erase j k d h = elim (Bool-cases (j == k)) [
    | inl t ↦ ground (arith, e.is_equal_iff j k, lookup-erase_self k d h)
    | inr f ↦ ground (arith, f, lookup-erase_ne j k d f)
  ]

  contains-keys-insert :
      (j k : K) (v : V) (d : Dict K V)
      → contains j (keys (insert k v d)) ≡ (j == k || contains j (keys d))
  contains-keys-insert j k v [] = refl
  contains-keys-insert j k v (p ∷ d) = ground (
    arith,
    e.is_equal_iff j k,
    e.is_equal_iff k p.0,
    e.is_equal_iff j p.0,
    contains-keys-insert j k v d,
  )

  pub insert-Distinct :
      (k : K) (v : V) (d : Dict K V) → Distinct (keys d) → Distinct (keys (insert k v d))
  insert-Distinct k v [] h = (refl, tt)
  insert-Distinct k v (p ∷ d) h = elim (Bool-cases (k == p.0)) [
    | inl t ↦ ground (arith, e.is_equal_iff k p.0, h.0, h.1)
    | inr f ↦ ground (
      arith,
      f,
      e.is_equal_iff k p.0,
      e.is_equal_iff p.0 k,
      h.0,
      contains-keys-insert p.0 k v d,
      insert-Distinct k v d h.1,
    )
  ]

  contains-keys-erase :
      (j k : K) (d : Dict K V) → contains j (keys d) ≡ false → contains j (keys (erase k d)) ≡ false
  contains-keys-erase j k [] h = refl
  contains-keys-erase j k (p ∷ d) h = ground (arith, contains-keys-erase j k d)

  pub erase-Distinct : (k : K) (d : Dict K V) → Distinct (keys d) → Distinct (keys (erase k d))
  erase-Distinct k [] h = tt
  erase-Distinct k (p ∷ d) h =
      ground (arith, h.0, h.1, contains-keys-erase p.0 k d h.0, erase-Distinct k d h.1)

  -- A property of all entries holds of an entry that is found, and survives writes and deletions.
  pub All-lookup {μ} :
      (P : K × V → Type μ) (k : K) (v : V) (d : Dict K V) → All P d → lookup k d ≡ some v → P (k, v)
  All-lookup P k v [] a h = cc
  All-lookup P k v (p ∷ d) a h = elim (Bool-cases (k == p.0)) [
    | inl t ↦
        let key : k ≡ p.0 = (e.is_equal_iff k p.0).0 t in
        let value : p.1 ≡ v = ground (arith, t, h) in subst₂ (λ x y. P (x, y)) (sym key) value a.0
    | inr f ↦ All-lookup P k v d a.1 (rw f at h)
  ]

  pub All-insert {μ} :
      (P : K × V → Type μ) (k : K) (v : V) (d : Dict K V)
      → P (k, v)
      → All P d
      → All P (insert k v d)
  All-insert P k v [] new a = (new, tt)
  All-insert P k v (p ∷ d) new a = elim (Bool-cases (k == p.0)) [
    | inl t ↦ rw t (new, a.1)
    | inr f ↦ rw f (a.0, All-insert P k v d new a.1)
  ]

  pub All-erase {μ} : (P : K × V → Type μ) (k : K) (d : Dict K V) → All P d → All P (erase k d)
  All-erase P k [] a = a
  All-erase P k (p ∷ d) a = elim (Bool-cases (k == p.0)) [
    | inl t ↦ rw t a.1
    | inr f ↦ rw f (a.0, All-erase P k d a.1)
  ]

  -- After a deletion no entry has the key, if the dict had each key once.
  pub erase-All_ne :
      (k : K) (d : Dict K V) → Distinct (keys d) → All (λ p. (p.0 == k) ≡ false) (erase k d)
  erase-All_ne k [] h = tt
  erase-All_ne k (p ∷ d) h = elim (Bool-cases (k == p.0)) [
    | inl t ↦ let same : k ≡ p.0 = (e.is_equal_iff k p.0).0 t in rw t (rest d (rw same h.0))
    | inr f ↦
        rw f (ground (arith, f, e.is_equal_iff k p.0, e.is_equal_iff p.0 k), erase-All_ne k d h.1)
  ]
    where
      rest : (d : Dict K V) → contains k (keys d) ≡ false → All (λ p. (p.0 == k) ≡ false) d
      rest [] n = tt
      rest (q ∷ d) n = (
        ground (arith, n, e.is_equal_iff k q.0, e.is_equal_iff q.0 k),
        rest d (ground (arith, n)),
      )
