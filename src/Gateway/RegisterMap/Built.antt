-- ===== src/Gateway/RegisterMap/Built.antt =====
-- The construction of a register map (csp_lib/modbus_gateway/register_map.py).
use csp_lib.Base.{
  ℕ, zero, suc, ◌+◌, ◌≤◌, ◌≡◌, refl, ap, ◌∙◌, inl, inr, Option, none, some, List, [], ◌∷◌, length,
  All, string_equality, arith, Option-cases,
}
use csp_lib.Gateway.RegisterMap.{
  GatewayRegisterDef, RegisterMap, zeros, register_all, set_unlocked, initialise, initialise_all,
  empty_map, new,
}
use csp_lib.Gateway.RegisterMap.Valid.{IsCodec, IsValid, WhenMade, write-IsValid, write_size}
use csp_lib.Gateway.RegisterMap.Registered.{Fit, and_then-WhenMade, register_all-Fit}

length-zeros : (n : ℕ) → length (zeros n) ≡ n
unfolding zeros
length-zeros zero = refl
length-zeros (suc n) = ap suc (length-zeros n)

module _ {V : Type 0} where
  initialise-IsValid :
      (d : GatewayRegisterDef V) (o : Option V) (m : RegisterMap V) (size : ℕ)
      → IsCodec d
      → d.address + d.register_count ≤ size
      → IsValid m
      → m.size ≡ size
      → WhenMade (λ m'. IsValid m' × (m'.size ≡ size)) (initialise d o m)
  unfolding set_unlocked
  initialise-IsValid d none m size c f i q = (i, q)
  initialise-IsValid d (some v) m size c f i q = elim (Option-cases (d.encode v)) [
    | inl n ↦ rw n tt
    | inr (ws, e) ↦
        rw e (write-IsValid d ws m (ground (arith, f, q, c v ws e)) i, write_size d ws m ∙ q)
  ]

  initialise_all-IsValid :
      (ds : List (GatewayRegisterDef V)) (m : RegisterMap V) (size : ℕ)
      → All IsCodec ds
      → All (λ d. d.address + d.register_count ≤ size) ds
      → IsValid m
      → m.size ≡ size
      → WhenMade IsValid (initialise_all ds m)
  unfolding initialise_all
  initialise_all-IsValid [] m size c f i q = i
  initialise_all-IsValid (d ∷ ds) m size c f i q =
      and_then-WhenMade (λ m'. IsValid m' × (m'.size ≡ size)) IsValid
        (initialise d d.initial_value m) (initialise_all ds)
        (initialise-IsValid d d.initial_value m size c.0 f.0 i q)
        (λ m' h. initialise_all-IsValid ds m' size c.1 f.1 h.0 h.1)

  -- A map that is constructed, from definitions whose encodings make as many numbers as their
  -- types take up, is well-formed: both arrays have the configured size, names are unique, and
  -- the registers lie in the space and apart from the others of their type.
  pub new-IsValid :
      (size : ℕ) (ds : List (GatewayRegisterDef V))
      → All IsCodec ds
      → WhenMade IsValid (new size ds)
  unfolding new
  new-IsValid size ds c =
      and_then-WhenMade (Fit size ds) IsValid (register_all ds (empty_map size)) (initialise_all ds)
        (register_all-Fit ds size (empty_map size) c refl (record {
          hr_full = length-zeros size;
          ir_full = length-zeros size;
          distinct = tt;
          named = λ n d h. cc;
          fits = λ n d h. absurd (ground (arith, h));
          coded = λ n d h v ws e. absurd (ground (arith, h));
          separated = λ n o d e h k ne. absurd (ground (arith, h));
        }))
        (λ m h. initialise_all-IsValid ds m size c h.2 h.0 h.1)
