-- ===== src/Gateway/RegisterMap/Access.antt =====
-- Reading and writing registers by name (csp_lib/modbus_gateway/register_map.py).
use csp_lib.Base.{
  ℕ, ◌+◌, ◌≤◌, String, true, ◌≡◌, refl, sym, ap, ◌⊎◌, inl, inr, some, List, length, ◌==◌,
  if◌then◌else◌, string_equality, arith, Bool-cases, Option-cases,
}
use csp_lib.Base.Dict.{lookup}
use csp_lib.Gateway.Slices.{slice, splice, slice-splice, slice-splice_apart}
use csp_lib.Gateway.RegisterMap.{
  RegisterType, holding, input, GatewayRegisterDef, RegisterMap, done, same_type, regs_of,
  with_regs, write, loaded, set_unlocked, get_unlocked, set_value, get_value,
}
use csp_lib.Gateway.RegisterMap.Valid.{IsValid, Separated, write-IsValid}

module _ {V : Type 0} where
  -- The numbers of a definition in a map.
  abbrev pub raw : GatewayRegisterDef V → RegisterMap V → List ℕ
  raw d m = slice d.address d.register_count (regs_of d.register_type m)

  pub raw-write :
      (d : GatewayRegisterDef V) (ws : List ℕ) (m : RegisterMap V)
      → length ws ≡ d.register_count
      → d.address + d.register_count ≤ m.size
      → IsValid m
      → raw d (write d ws m) ≡ ws
  raw-write d ws m c f i = at d.register_type
    where
      at :
          (t : RegisterType)
          → slice d.address d.register_count
              (regs_of t (with_regs t (splice d.address ws (regs_of t m)) m))
            ≡ ws
      at holding =
          rw (sym c) (slice-splice d.address ws m.hr_regs (ground (arith, c, f, i.hr_full)))
      at input = rw (sym c) (slice-splice d.address ws m.ir_regs (ground (arith, c, f, i.ir_full)))

  pub raw-write_apart :
      (d e : GatewayRegisterDef V) (ws : List ℕ) (m : RegisterMap V)
      → length ws ≡ d.register_count
      → d.address + d.register_count ≤ m.size
      → IsValid m
      → Separated e d
      → raw e (write d ws m) ≡ raw e m
  raw-write_apart d e ws m c f i s = at d.register_type e.register_type s
    where
      apart_from :
          (e.address + e.register_count ≤ d.address) ⊎ (d.address + d.register_count ≤ e.address)
          → (e.address + e.register_count ≤ d.address) ⊎ (d.address + length ws ≤ e.address)
      apart_from (inl h) = inl h
      apart_from (inr h) = inr (ground (arith, h, c))

      at :
          (t u : RegisterType)
          → (same_type u t ≡ true
              → (e.address + e.register_count ≤ d.address)
                ⊎ (d.address + d.register_count ≤ e.address))
          → slice e.address e.register_count
              (regs_of u (with_regs t (splice d.address ws (regs_of t m)) m))
            ≡ slice e.address e.register_count (regs_of u m)
      at holding holding s =
          slice-splice_apart e.address e.register_count d.address ws m.hr_regs
            (ground (arith, c, f, i.hr_full)) (apart_from (s refl))
      at input input s =
          slice-splice_apart e.address e.register_count d.address ws m.ir_regs
            (ground (arith, c, f, i.ir_full)) (apart_from (s refl))
      at holding input s = refl
      at input holding s = refl

  pub same_defs :
      (d : GatewayRegisterDef V) (ws : List ℕ) (m : RegisterMap V) → (write d ws m).defs ≡ m.defs
  same_defs d ws m = at d.register_type
    where
      at : (t : RegisterType) → (with_regs t (splice d.address ws (regs_of t m)) m).defs ≡ m.defs
      at holding = refl
      at input = refl

  -- `set_value` of a name with an encodable value goes through; the map stays well-formed with
  -- the same definitions, the name's value is then the decoding of the encoded value, and every
  -- other name's value is what it was.
  pub get_value-set_value :
      (m : RegisterMap V) (n : String) (d : GatewayRegisterDef V) (v : V) (ws : List ℕ)
      → IsValid m
      → lookup n m.defs ≡ some d
      → d.encode v ≡ some ws
      → (m' : RegisterMap V) × (set_value n v m ≡ done m')
        × IsValid m'
        × (m'.defs ≡ m.defs)
        × ((o : String) → get_value o m' ≡ (if o == n then loaded (d.decode ws) else get_value o m))
  unfolding set_value get_value set_unlocked get_unlocked
  get_value-set_value m n d v ws i l e =
      let c = i.coded n d l v ws e in
      let f = i.fits n d l in
      (
        write d ws m,
        rw (l, e) refl,
        write-IsValid d ws m (ground (arith, c, f)) i,
        same_defs d ws m,
        λ o. rw (same_defs d ws m) (elim (Bool-cases (o == n)) [
          | inl t ↦
              rw (t, (string_equality.is_equal_iff o n).0 t, l)
                (ap (λ x. loaded (d.decode x)) (raw-write d ws m c f i))
          | inr g ↦ rw g (elim (Option-cases (lookup o m.defs)) [
            | inl k ↦ rw k refl
            | inr (x, k) ↦ rw k (
                ap (λ r. loaded (x.decode r))
                  (raw-write_apart d x ws m c f i (i.separated o n x d k l g)))
          ])
        ]),
      )
