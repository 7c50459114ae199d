-- ===== src/Gateway/RegisterMap/Registered.antt =====
-- The registration of definitions (csp_lib/modbus_gateway/register_map.py).
use csp_lib.Base.{
  ℕ, ◌+◌, ◌≤◌, String, true, false, ◌≡◌, refl, sym, ap, ◌∙◌, ◌⊎◌, inl, inr, none, some, List, [],
  ◌∷◌, All, ltb, ◌==◌, string_equality, arith, Bool-cases, Option-cases, subst,
}
use csp_lib.Base.Dict.{
  Dict, values, lookup, member, insert, lookup-insert, insert-Distinct, All-lookup,
}
use csp_lib.Gateway.RegisterMap.{
  RegisterType, holding, input, GatewayRegisterDef, RegisterMap, Made, made, duplicate_name,
  outside_space, register_conflict, initial_error, same_type, conflicts, find_conflict, register,
  and_then, register_all,
}
use csp_lib.Gateway.RegisterMap.Valid.{IsCodec, Separated, IsValid, WhenMade}

module _ {V : Type 0} where
  Separated-sym : (d e : GatewayRegisterDef V) → Separated d e → Separated e d
  Separated-sym d e s t = elim (s (flip d.register_type e.register_type t)) [
    | inl h ↦ inr h
    | inr h ↦ inl h
  ]
    where
      flip : (a b : RegisterType) → same_type b a ≡ true → same_type a b ≡ true
      flip holding holding t = refl
      flip holding input t = cc
      flip input holding t = cc
      flip input input t = refl

  no_conflict :
      (d : GatewayRegisterDef V) (defs : Dict String (GatewayRegisterDef V))
      → find_conflict d (values defs) ≡ none
      → All (λ p. conflicts d p.1 ≡ false) defs
  unfolding find_conflict
  no_conflict d [] h = tt
  no_conflict d (p ∷ defs) h = elim (Bool-cases (conflicts d p.1)) [
    | inl t ↦ absurd (ground (arith, h, t))
    | inr f ↦ (f, no_conflict d defs (ground (arith, h, f)))
  ]

  conflicts-Separated : (d e : GatewayRegisterDef V) → conflicts d e ≡ false → Separated e d
  conflicts-Separated d e h t = elim (Bool-cases (ltb d.address (e.address + e.register_count))) [
    | inr f ↦ inl (ground (arith, f))
    | inl l ↦ inr (ground (arith, h, t, l))
  ]

  new_def-Separated :
      (d : GatewayRegisterDef V) (m : RegisterMap V)
      → find_conflict d (values m.defs) ≡ none
      → (o : String) (e : GatewayRegisterDef V) → lookup o m.defs ≡ some e
      → Separated e d
  new_def-Separated d m h o e l =
      conflicts-Separated d e
        (All-lookup (λ p. conflicts d p.1 ≡ false) o e m.defs (no_conflict d m.defs h) l)

  -- What a lookup finds after the insertion of a definition.
  found :
      (d : GatewayRegisterDef V) (m : RegisterMap V) (n : String) (e : GatewayRegisterDef V)
      → lookup n (insert d.name d m.defs) ≡ some e
      → ((n ≡ d.name) × (e ≡ d)) ⊎ (lookup n m.defs ≡ some e)
  found d m n e l = elim (Bool-cases (n == d.name)) [
    | inl t ↦ inl (
      (string_equality.is_equal_iff n d.name).0 t,
      ground (arith, lookup-insert n d.name d m.defs, l, t),
    )
    | inr f ↦ inr (ground (arith, lookup-insert n d.name d m.defs, l, f))
  ]

  inserted-IsValid :
      (d : GatewayRegisterDef V) (m : RegisterMap V)
      → IsCodec d
      → d.address + d.register_count ≤ m.size
      → find_conflict d (values m.defs) ≡ none
      → IsValid m
      → IsValid (record m { defs = insert d.name d m.defs })
  inserted-IsValid d m c fit h i = record {
    hr_full = i.hr_full;
    ir_full = i.ir_full;
    distinct = insert-Distinct d.name d m.defs i.distinct;
    named = λ n e l. elim (found d m n e l) [
      | inl (p, q) ↦ ap (λ x. x.name) q ∙ sym p
      | inr k ↦ i.named n e k
    ];
    fits = λ n e l. elim (found d m n e l) [ inl (p, q) ↦ rw q fit | inr k ↦ i.fits n e k ];
    coded = λ n e l. elim (found d m n e l) [
      | inl (p, q) ↦ subst IsCodec (sym q) c
      | inr k ↦ i.coded n e k
    ];
    separated = λ n o e g l k ne. elim (found d m n e l) [
      | inl (p, q) ↦ elim (found d m o g k) [
        | inl (p', q') ↦ absurd (ground (arith, ne, string_equality.is_equal_iff n o, p, p'))
        | inr k' ↦
            subst (λ x. Separated x g) (sym q) (Separated-sym g d (new_def-Separated d m h o g k'))
      ]
      | inr l' ↦ elim (found d m o g k) [
        | inl (p', q') ↦ subst (λ x. Separated e x) (sym q') (new_def-Separated d m h n e l')
        | inr k' ↦ i.separated n o e g l' k' ne
      ]
    ];
  }

  pub and_then-WhenMade :
      (P Q : RegisterMap V → Type 0) (r : Made V) (f : RegisterMap V → Made V)
      → WhenMade P r
      → ((m : RegisterMap V) → P m → WhenMade Q (f m))
      → WhenMade Q (and_then r f)
  and_then-WhenMade P Q (made m) f h k = k m h
  and_then-WhenMade P Q (duplicate_name n) f h k = tt
  and_then-WhenMade P Q (outside_space n) f h k = tt
  and_then-WhenMade P Q (register_conflict n o) f h k = tt
  and_then-WhenMade P Q initial_error f h k = tt

  -- What `register` and `register_all` make sure of: the definitions lie in the space.
  abbrev pub Fit : ℕ → List (GatewayRegisterDef V) → RegisterMap V → Type 0
  Fit size ds m = IsValid m × (m.size ≡ size) × All (λ d. d.address + d.register_count ≤ size) ds

  register-Fit :
      (d : GatewayRegisterDef V) (m : RegisterMap V)
      → IsCodec d
      → IsValid m
      → WhenMade (Fit m.size (d ∷ [])) (register d m)
  unfolding register
  register-Fit d m c i = elim (Bool-cases (member d.name m.defs)) [
    | inl t ↦ rw t tt
    | inr f ↦ elim (Bool-cases (ltb m.size (d.address + d.register_count))) [
      | inl t ↦ rw (f, t) tt
      | inr g ↦ elim (Option-cases (find_conflict d (values m.defs))) [
        | inr (e, k) ↦ rw (f, g, k) tt
        | inl k ↦
            let fit : d.address + d.register_count ≤ m.size = ground (arith, g) in
            rw (f, g, k) (inserted-IsValid d m c fit k i, refl, (fit, tt))
      ]
    ]
  ]

  pub register_all-Fit :
      (ds : List (GatewayRegisterDef V)) (size : ℕ) (m : RegisterMap V)
      → All IsCodec ds
      → m.size ≡ size
      → IsValid m
      → WhenMade (Fit size ds) (register_all ds m)
  unfolding register_all
  register_all-Fit [] size m c q i = (i, q, tt)
  register_all-Fit (d ∷ ds) size m c q i =
      and_then-WhenMade (Fit m.size (d ∷ [])) (Fit size (d ∷ ds)) (register d m) (register_all ds)
        (register-Fit d m c.0 i)
        (λ m' h.
          mapped (register_all ds m') (subst (λ x. d.address + d.register_count ≤ x) q h.2.0)
            (register_all-Fit ds size m' c.1 (h.1 ∙ q) h.0))
    where
      mapped :
          (r : Made V)
          → d.address + d.register_count ≤ size
          → WhenMade (Fit size ds) r
          → WhenMade (Fit size (d ∷ ds)) r
      mapped (made m) f h = (h.0, h.1, (f, h.2))
      mapped (duplicate_name n) f h = tt
      mapped (outside_space n) f h = tt
      mapped (register_conflict n o) f h = tt
      mapped initial_error f h = tt
