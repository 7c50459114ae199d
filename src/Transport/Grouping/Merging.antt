-- ===== src/Transport/Grouping/Merging.antt =====
-- The merging of a run into read groups (equipment/transport/base.py).
use csp_lib.Base.{
  ℕ, ◌+◌, ◌≤◌, ◌≡◌, refl, ap, ◌∙◌, Option, List, [], ◌∷◌, ◌++◌, max, leb, All, All-map, All-append,
  Bool-cases, inl, inr, arith,
}
use mathlib.Core.List.{append_assoc}
use csp_lib.Transport.Grouping.{ReadPoint, ReadGroup, merge_from, points_of}
use csp_lib.Transport.Grouping.Sorting.{IsByAddress}

-- The point's registers lie in the read.
abbrev pub IsCovered : ReadGroup → ReadPoint → Type 0
IsCovered g p =
    (g.start_address ≤ p.address) × (p.address + p.register_count ≤ g.start_address + g.count)

-- The point is of the group's unit and function code.
abbrev pub IsOf : ReadGroup → ReadPoint → Type 0
IsOf g p = (p.unit_id ≡ g.unit_id) × (p.function_code ≡ g.function_code)

module _ (limit function_code : ℕ) (unit_id : Option ℕ) where
  pub points_of-merge_from :
      (current : List ReadPoint) (start end : ℕ) (ps : List ReadPoint)
      → points_of (merge_from limit function_code unit_id current start end ps) ≡ current ++ ps
  unfolding points_of merge_from
  points_of-merge_from current start end [] = refl
  points_of-merge_from current start end (p ∷ ps) =
      elim (Bool-cases (leb (p.address + p.register_count) (start + limit))) [
        | inl t ↦
            rw (t, merge_from)
              (points_of-merge_from (current ++ p ∷ []) start
                  (max end (p.address + p.register_count)) ps
                ∙ append_assoc current (p ∷ []) ps)
        | inr f ↦
            rw (f, merge_from)
              (ap (λ qs. current ++ qs)
                (points_of-merge_from (p ∷ []) p.address (p.address + p.register_count) ps))
      ]

  -- What holds of the group under construction.
  abbrev Fits : List ReadPoint → (start end : ℕ) → Type 0
  Fits current start end =
      (start ≤ end) × All (λ p. (start ≤ p.address) × (p.address + p.register_count ≤ end)) current

  pub merge_from-IsCovered :
      (current : List ReadPoint) (start end : ℕ) (ps : List ReadPoint)
      → Fits current start end
      → All (λ p. start ≤ p.address) ps
      → IsByAddress ps
      → All
          (λ g. All (IsCovered g) g.points)
          (merge_from limit function_code unit_id current start end ps)
  unfolding merge_from
  merge_from-IsCovered current start end [] f h b =
      (All-map current (λ p k. (k.0, omega (arith, f.0, k.1))) f.1, tt)
  merge_from-IsCovered current start end (p ∷ ps) f h b =
      elim (Bool-cases (leb (p.address + p.register_count) (start + limit))) [
        | inl t ↦
            rw (t, merge_from)
              (merge_from-IsCovered (current ++ p ∷ []) start
                (max end (p.address + p.register_count)) ps
                (
                  omega (arith, f.0),
                  All-append _ current (p ∷ [])
                      (All-map current (λ q k. (k.0, omega (arith, k.1))) f.1)
                      ((h.0, omega arith), tt),
                )
                h.1 b.1)
        | inr n ↦
            rw (n, merge_from)
              (
                All-map current (λ q k. (k.0, omega (arith, f.0, k.1))) f.1,
                merge_from-IsCovered (p ∷ []) p.address (p.address + p.register_count) ps
                    (omega arith, ((omega arith, omega arith), tt)) b.0 b.1,
              )
      ]

  pub merge_from-limit :
      (current : List ReadPoint) (start end : ℕ) (ps : List ReadPoint)
      → end ≤ start + limit
      → All (λ p. p.register_count ≤ limit) ps
      → All (λ g. g.count ≤ limit) (merge_from limit function_code unit_id current start end ps)
  unfolding merge_from
  merge_from-limit current start end [] f h = (omega (arith, f), tt)
  merge_from-limit current start end (p ∷ ps) f h =
      elim (Bool-cases (leb (p.address + p.register_count) (start + limit))) [
        | inl t ↦
            rw (t, merge_from)
              (merge_from-limit (current ++ p ∷ []) start (max end (p.address + p.register_count))
                ps (ground (arith, t, f)) h.1)
        | inr n ↦
            rw (n, merge_from)
              (
                omega (arith, f),
                merge_from-limit (p ∷ []) p.address (p.address + p.register_count) ps
                    (omega (arith, h.0)) h.1,
              )
      ]

  pub merge_from-IsOf :
      (P : ReadPoint → Type 0) (current : List ReadPoint) (start end : ℕ) (ps : List ReadPoint)
      → All P current
      → All P ps
      → All
          (λ g. (g.unit_id ≡ unit_id) × (g.function_code ≡ function_code) × All P g.points)
          (merge_from limit function_code unit_id current start end ps)
  unfolding merge_from
  merge_from-IsOf P current start end [] c h = ((refl, refl, c), tt)
  merge_from-IsOf P current start end (p ∷ ps) c h =
      elim (Bool-cases (leb (p.address + p.register_count) (start + limit))) [
        | inl t ↦
            rw (t, merge_from)
              (merge_from-IsOf P (current ++ p ∷ []) start (max end (p.address + p.register_count))
                ps (All-append P current (p ∷ []) c (h.0, tt)) h.1)
        | inr n ↦
            rw (n, merge_from)
              (
                (refl, refl, c),
                merge_from-IsOf P (p ∷ []) p.address (p.address + p.register_count) ps (h.0, tt)
                    h.1,
              )
      ]
