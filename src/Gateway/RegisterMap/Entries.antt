-- ===== src/Gateway/RegisterMap/Entries.antt =====
-- The definitions of a register map that pass a test (csp_lib/modbus_gateway/register_map.py).
use csp_lib.Base.{
  String, Bool, true, false, ◌≡◌, refl, sym, ◌∙◌, inl, inr, some, [], ◌∷◌, filter, map, contains,
  All, All-map, All-zip, Distinct, ◌==◌, ==_refl, string_equality, arith, Bool-cases,
}
use csp_lib.Base.Dict.{Dict, keys, values, lookup}
use csp_lib.Gateway.RegisterMap.{GatewayRegisterDef, RegisterMap}
use csp_lib.Gateway.RegisterMap.Valid.{IsValid}

-- The entries of a dict whose keys are unique, and the definitions that stand under their names.
others :
    {V : Type 0} (k : String) (d : Dict String V)
    → contains k (keys d) ≡ false
    → All (λ q. (q.0 == k) ≡ false) d
others k [] h = tt
others k (q ∷ d) h = (
  ground (arith, h, string_equality.is_equal_iff q.0 k, string_equality.is_equal_iff k q.0),
  others k d (ground (arith, h)),
)

entries :
    {V : Type 0} (d : Dict String V) → Distinct (keys d) → All (λ q. lookup q.0 d ≡ some q.1) d
entries [] h = tt
entries (q ∷ d) (a, h) =
    (rw (==_refl q.0) refl, All-zip d (λ r n e. rw n e) (others q.0 d a) (entries d h))

module _ {V : Type 0} where
  abbrev Named : Dict String (GatewayRegisterDef V) → Type 0
  Named defs = All (λ q. q.1.name ≡ q.0) defs

  absent :
      (f : GatewayRegisterDef V → Bool) (k : String) (defs : Dict String (GatewayRegisterDef V))
      → Named defs
      → contains k (keys defs) ≡ false
      → contains k (map (λ d. d.name) (filter f (values defs))) ≡ false
  absent f k [] n h = refl
  absent f k (q ∷ defs) (e, n) h = elim (Bool-cases (f q.1)) [
    | inl t ↦ rw (t, e) (ground (arith, h, absent f k defs n (ground (arith, h))))
    | inr g ↦ rw g (absent f k defs n (ground (arith, h)))
  ]

  -- A definition of the dict is among the filtered ones exactly when it passes the test.
  pub contains-filter :
      (f : GatewayRegisterDef V → Bool) (x : GatewayRegisterDef V)
      (defs : Dict String (GatewayRegisterDef V))
      → Distinct (keys defs)
      → Named defs
      → lookup x.name defs ≡ some x
      → contains x.name (map (λ d. d.name) (filter f (values defs))) ≡ f x
  contains-filter f x [] h n l = cc
  contains-filter f x (q ∷ defs) (a, h) (e, n) l = elim (Bool-cases (x.name == q.0)) [
    | inl t ↦
        let same : q.1 ≡ x = ground (arith, l, t) in
        let gone : contains x.name (keys defs) ≡ false =
          rw ((string_equality.is_equal_iff x.name q.0).0 t) a in
        elim (Bool-cases (f q.1)) [
          | inl y ↦ rw (y, e, t) (sym (rw (sym same) y))
          | inr z ↦ rw z (absent f x.name defs n gone ∙ sym (rw (sym same) z))
        ]
    | inr g ↦
        let rest = contains-filter f x defs h n (ground (arith, l, g)) in
        elim (Bool-cases (f q.1)) [ inl y ↦ rw (y, e, g) rest | inr z ↦ rw z rest ]
  ]

  pub filter-Distinct :
      (f : GatewayRegisterDef V → Bool) (defs : Dict String (GatewayRegisterDef V))
      → Distinct (keys defs)
      → Named defs
      → Distinct (map (λ d. d.name) (filter f (values defs)))
  filter-Distinct f [] h n = tt
  filter-Distinct f (q ∷ defs) (a, h) (e, n) = elim (Bool-cases (f q.1)) [
    | inl t ↦ rw t (absent f q.1.name defs n (rw e a), filter-Distinct f defs h n)
    | inr g ↦ rw g (filter-Distinct f defs h n)
  ]

  pub filter-All :
      (f : GatewayRegisterDef V → Bool) (P : GatewayRegisterDef V → Type 0)
      (defs : Dict String (GatewayRegisterDef V))
      → All (λ q. f q.1 ≡ true → P q.1) defs
      → All P (filter f (values defs))
  filter-All f P [] h = tt
  filter-All f P (q ∷ defs) (a, h) = elim (Bool-cases (f q.1)) [
    | inl t ↦ rw t (a t, filter-All f P defs h)
    | inr g ↦ rw g (filter-All f P defs h)
  ]

  pub named-entries :
      (m : RegisterMap V)
      → IsValid m
      → All (λ q. (q.1.name ≡ q.0) × (lookup q.0 m.defs ≡ some q.1)) m.defs
  named-entries m i = All-map m.defs (λ q l. (i.named q.0 q.1 l, l)) (entries m.defs i.distinct)
