-- ===== src/Gateway/Pipeline/Rounds.antt =====
-- One round of the loop of a processed write (csp_lib/modbus_gateway/pipeline.py).
use csp_lib.Base.{
  ℕ, ◌+◌, ◌≤◌, Bool, true, false, ◌&&◌, ◌≡◌, refl, sym, ap, ◌∙◌, ◌⊎◌, inl, inr, Option, none, some,
  List, length, ◌==◌, if◌then◌else◌, string_equality, arith, Bool-cases, Option-cases, subst,
}
use csp_lib.Base.Dict.{lookup}
use csp_lib.Gateway.RegisterMap.{
  holding, GatewayRegisterDef, RegisterMap, Outcome, done, codec_error, key_error, same_type, write,
  set_value, set_unlocked, get_value,
}
use csp_lib.Gateway.RegisterMap.Valid.{IsValid, IsCodec, write-IsValid}
use csp_lib.Gateway.RegisterMap.Access.{raw, raw-write, raw-write_apart, same_defs}
use csp_lib.Gateway.Pipeline.{
  Changes, Processed, finished, raised, WritePipeline, all_accept, apply_rules, covers, raw_slice,
  with_old, process_one,
}

module _ {V : Type 0} (p : WritePipeline V) (address : ℕ) (ws : List ℕ) where
  abbrev encoded : GatewayRegisterDef V → V × Bool → Option (List ℕ)
  encoded d r = if r.1 then none else d.encode r.0

  abbrev accepted : GatewayRegisterDef V → Option V → Option (List ℕ)
  accepted d none = none
  accepted d (some v) =
      if d.writable && all_accept p.validators d.name v
      then encoded d (apply_rules p d.name v)
      else none

  -- The numbers that a write of `ws` at `address` is to put into a register, if any: the register is
  -- a holding one, wholly covered and writable, its part decodes to a value that all validators
  -- accept, and that value, as the name's rule lets it through, encodes to them.
  abbrev pub planned : GatewayRegisterDef V → Option (List ℕ)
  planned d =
      if same_type d.register_type holding && covers address ws d
      then accepted d (d.decode (raw_slice address ws d))
      else none

  -- One round of the loop writes what is planned and nothing else, or raises and writes nothing.
  abbrev pub Round : GatewayRegisterDef V → RegisterMap V → Processed V → Type 0
  Round d m (finished m' cs) =
      ((m' ≡ m) × (planned d ≡ none))
      ⊎ ((us : List ℕ) × (planned d ≡ some us) × (m' ≡ write d us m))
  Round d m (raised m') = m' ≡ m

  pub process_one-Round :
      (d : GatewayRegisterDef V) (m : RegisterMap V) (cs : Changes V)
      → same_type d.register_type holding ≡ true
      → lookup d.name m.defs ≡ some d
      → Round d m (process_one p address ws d m cs)
  unfolding process_one set_value set_unlocked
  process_one-Round d m cs h l = elim (Bool-cases (covers address ws d)) [
    | inr f ↦ rw (f, h) (inl (refl, rw f refl))
    | inl t ↦ elim (Option-cases (d.decode (raw_slice address ws d))) [
      | inl n ↦ rw (t, n) refl
      | inr (v, e) ↦ rw (t, e) (old_read v (get_value d.name m) (rw (h, t, e) refl))
    ]
  ]
    where
      old_read :
          (v : V) (o : Outcome V)
          → planned d ≡ accepted d (some v)
          → Round d m (with_old p d v o m cs)
      old_read v codec_error q = refl
      old_read v key_error q = refl
      old_read v (done old) q = elim (Bool-cases (d.writable && all_accept p.validators d.name v)) [
        | inr f ↦ rw f (inl (refl, q ∙ rw f refl))
        | inl t ↦ elim (Bool-cases (apply_rules p d.name v).1) [
          | inl j ↦ rw (t, j) (inl (refl, q ∙ rw (t, j) refl))
          | inr g ↦ elim (Option-cases (d.encode (apply_rules p d.name v).0)) [
            | inl n ↦ rw (t, g, l, n) refl
            | inr (us, e) ↦ rw (t, g, l, e) (inr (us, q ∙ rw (t, g, e) refl, refl))
          ]
        ]
      ]

  -- What a register holds after a round or a loop in which it had its turn, or had not.
  abbrev pub chosen : Option (List ℕ) → List ℕ → List ℕ
  chosen none us = us
  chosen (some vs) us = vs

  abbrev pub Fate : GatewayRegisterDef V → RegisterMap V → Bool → Processed V → Type 0
  Fate x m turn (finished m' cs) =
      raw x m' ≡ (if turn then chosen (planned x) (raw x m) else raw x m)
  Fate x m turn (raised m') = (raw x m' ≡ raw x m) ⊎ (raw x m' ≡ chosen (planned x) (raw x m))

  abbrev pub map_after : Processed V → RegisterMap V
  map_after (finished m cs) = m
  map_after (raised m) = m

  abbrev pub Kept : RegisterMap V → Processed V → Type 0
  Kept m r = IsValid (map_after r) × ((map_after r).defs ≡ m.defs)

  planned-length :
      (d : GatewayRegisterDef V) (us : List ℕ)
      → IsCodec d
      → planned d ≡ some us
      → length us ≡ d.register_count
  planned-length d us c e =
      of_decoded (d.decode (raw_slice address ws d))
        (of_then (same_type d.register_type holding && covers address ws d) _ e)
    where
      of_then : (b : Bool) (o : Option (List ℕ)) → (if b then o else none) ≡ some us → o ≡ some us
      of_then true o e = e
      of_then false o e = cc

      of_encoded : (r : V × Bool) → encoded d r ≡ some us → length us ≡ d.register_count
      of_encoded (v, true) e = cc
      of_encoded (v, false) e = c v us e

      of_decoded : (o : Option V) → accepted d o ≡ some us → length us ≡ d.register_count
      of_decoded none e = cc
      of_decoded (some v) e =
          of_encoded (apply_rules p d.name v)
            (of_then (d.writable && all_accept p.validators d.name v) _ e)

  pub Round-Fate :
      (d x : GatewayRegisterDef V) (m : RegisterMap V) (r : Processed V)
      → IsValid m
      → lookup d.name m.defs ≡ some d
      → lookup x.name m.defs ≡ some x
      → Round d m r
      → Kept m r × Fate x m (x.name == d.name) r
  Round-Fate d x m (raised m') i l k e =
      ((subst IsValid (sym e) i, ap (λ y. y.defs) e), inl (ap (raw x) e))
  Round-Fate d x m (finished m' cs) i l k (inl (e, n)) =
      ((subst IsValid (sym e) i, ap (λ y. y.defs) e), ap (raw x) e ∙ stays (x.name == d.name) refl)
    where
      stays :
          (b : Bool)
          → (x.name == d.name) ≡ b
          → raw x m ≡ (if b then chosen (planned x) (raw x m) else raw x m)
      stays false q = refl
      stays true q =
          let same : x ≡ d =
            ground (arith, k, l, (string_equality.is_equal_iff x.name d.name).0 q) in
          rw (ap planned same ∙ n) refl
  Round-Fate d x m (finished m' cs) i l k (inr (us, e, w)) =
      let len = planned-length d us (i.coded d.name d l) e in
      let fit = i.fits d.name d l in
      (
        (
          subst IsValid (sym w) (write-IsValid d us m (ground (arith, len, fit)) i),
          ap (λ y. y.defs) w ∙ same_defs d us m,
        ),
        ap (raw x) w ∙ written (x.name == d.name) refl len fit,
      )
    where
      written :
          (b : Bool)
          → (x.name == d.name) ≡ b
          → length us ≡ d.register_count
          → d.address + d.register_count ≤ m.size
          → raw x (write d us m) ≡ (if b then chosen (planned x) (raw x m) else raw x m)
      written false q len fit =
          raw-write_apart d x us m len fit i (i.separated x.name d.name x d k l q)
      written true q len fit =
          let same : x ≡ d =
            ground (arith, k, l, (string_equality.is_equal_iff x.name d.name).0 q) in
          rw (ap planned same ∙ e)
            (ap (λ y. raw y (write d us m)) same ∙ raw-write d us m len fit i)
