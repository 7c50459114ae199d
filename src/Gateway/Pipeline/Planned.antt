-- ===== src/Gateway/Pipeline/Planned.antt =====
-- What a processed write does to the registers (csp_lib/modbus_gateway/pipeline.py).
use csp_lib.Base.{
  ℕ, ◌<◌, String, Bool, true, false, ◌&&◌, ◌||◌, ◌≡◌, refl, sym, ap, ◌∙◌, inl, inr, Option, none,
  some, List, [], ◌∷◌, length, filter, map, contains, All, All-map, Distinct, ◌==◌, if◌then◌else◌,
  string_equality, arith, subst,
}
use csp_lib.Base.Dict.{Dict, values, lookup}
use csp_lib.Gateway.RegisterMap.{
  holding, GatewayRegisterDef, RegisterMap, same_type, overlaps, find_affected_registers,
}
use csp_lib.Gateway.RegisterMap.Valid.{IsValid}
use csp_lib.Gateway.RegisterMap.Access.{raw}
use csp_lib.Gateway.RegisterMap.Entries.{
  contains-filter, filter-Distinct, filter-All, named-entries,
}
use csp_lib.Gateway.Pipeline.{
  Changes, Processed, finished, raised, WritePipeline, covers, process_one, continue, process_all,
  process_write,
}
use csp_lib.Gateway.Pipeline.Rounds.{planned, chosen, Fate, Kept, process_one-Round, Round-Fate}

module _ {V : Type 0} (p : WritePipeline V) (address : ℕ) (ws : List ℕ) where
  abbrev names : List (GatewayRegisterDef V) → List String
  names ds = map (λ d. d.name) ds

  -- Definitions of holding registers that stand in a dict under their names.
  abbrev Found : List (GatewayRegisterDef V) → Dict String (GatewayRegisterDef V) → Type 0
  Found ds defs =
      All (λ d. (same_type d.register_type holding ≡ true) × (lookup d.name defs ≡ some d)) ds

  process_all-Fate :
      (x : GatewayRegisterDef V) (ds : List (GatewayRegisterDef V)) (m : RegisterMap V)
      (cs : Changes V)
      → IsValid m
      → Found ds m.defs
      → Distinct (names ds)
      → lookup x.name m.defs ≡ some x
      → (let r = process_all p address ws ds m cs in
          Kept p address ws m r × Fate p address ws x m (contains x.name (names ds)) r)
  unfolding process_all
  process_all-Fate x [] m cs i l u k = ((i, refl), refl)
  process_all-Fate x (d ∷ ds) m cs i ((h, t), l) (a, u) k =
      onward (process_one p address ws d m cs)
        (Round-Fate p address ws d x m _ i t k (process_one-Round p address ws d m cs h t))
        (λ m₁ cs₁ j q.
          process_all-Fate x ds m₁ cs₁ j (subst (Found ds) (sym q) l) u (ap (lookup x.name) q ∙ k))
    where
      twice :
          (o : Option (List ℕ)) (us : List ℕ)
          → chosen p address ws o (chosen p address ws o us) ≡ chosen p address ws o us
      twice none us = refl
      twice (some vs) us = refl

      later :
          (m₁ : RegisterMap V) (r : Processed V) (b e : Bool)
          → (m₁.defs ≡ m.defs)
          → (b ≡ true → e ≡ false)
          → raw x m₁
            ≡ (if b then chosen p address ws (planned p address ws x) (raw x m) else raw x m)
          → Kept p address ws m₁ r × Fate p address ws x m₁ e r
          → Kept p address ws m r × Fate p address ws x m (b || e) r
      later m₁ r true true q o w f = absurd (ground (arith, o refl))
      later m₁ (finished m' ds') true false q o w ((j, g), f) = ((j, g ∙ q), f ∙ w)
      later m₁ (finished m' ds') false true q o w ((j, g), f) =
          ((j, g ∙ q), f ∙ ap (chosen p address ws (planned p address ws x)) w)
      later m₁ (finished m' ds') false false q o w ((j, g), f) = ((j, g ∙ q), f ∙ w)
      later m₁ (raised m') true false q o w ((j, g), inl f) = ((j, g ∙ q), inr (f ∙ w))
      later m₁ (raised m') true false q o w ((j, g), inr f) = (
        (j, g ∙ q),
        inr (
            f
            ∙ ap (chosen p address ws (planned p address ws x)) w
            ∙ twice (planned p address ws x) (raw x m)),
      )
      later m₁ (raised m') false e q o w ((j, g), inl f) = ((j, g ∙ q), inl (f ∙ w))
      later m₁ (raised m') false e q o w ((j, g), inr f) =
          ((j, g ∙ q), inr (f ∙ ap (chosen p address ws (planned p address ws x)) w))

      onward :
          (r : Processed V)
          → Kept p address ws m r × Fate p address ws x m (x.name == d.name) r
          → ((m₁ : RegisterMap V) (cs₁ : Changes V)
              → IsValid m₁
              → m₁.defs ≡ m.defs
              → (let r' = process_all p address ws ds m₁ cs₁ in
                  Kept p address ws m₁ r' × Fate p address ws x m₁ (contains x.name (names ds)) r'))
          → (let r' = continue r (process_all p address ws ds) in
              Kept p address ws m r'
              × Fate p address ws x m (x.name == d.name || contains x.name (names ds)) r')
      onward (raised m') f rest = f
      onward (finished m₁ cs₁) ((j, q), w) rest =
          later m₁ _ (x.name == d.name) (contains x.name (names ds)) q
            (λ y. rw ((string_equality.is_equal_iff x.name d.name).0 y) a) w (rest m₁ cs₁ j q)

module _ {V : Type 0} where
  -- A register that the loop does not visit has nothing planned.
  unaffected :
      (p : WritePipeline V) (address : ℕ) (ws : List ℕ) (x : GatewayRegisterDef V)
      → 0 < x.register_count
      → (same_type x.register_type holding
          && overlaps x.address x.register_count address (length ws))
        ≡ false
      → planned p address ws x ≡ none
  unaffected p address ws x c g =
      let off : (same_type x.register_type holding && covers address ws x) ≡ false =
        ground (arith, g, c) in
      rw off refl

  turn :
      (p : WritePipeline V) (address : ℕ) (ws : List ℕ) (x : GatewayRegisterDef V)
      (m : RegisterMap V) (r : Processed V) (b : Bool)
      → (b ≡ false → planned p address ws x ≡ none)
      → Fate p address ws x m b r
      → Fate p address ws x m true r
  turn p address ws x m r true o f = f
  turn p address ws x m (finished m' cs) false o f =
      f ∙ ap (λ y. chosen p address ws y (raw x m)) (sym (o refl))
  turn p address ws x m (raised m') false o f = f

  -- On a well-formed map, whatever the write, the validators, the rules and the codings: the map
  -- stays well-formed with the same definitions; after a write that finished, each register of at
  -- least one number holds what was planned for it, or what it held before where nothing was; and
  -- after one that raised, each register holds one of the two.
  pub process_write-planned :
      (p : WritePipeline V) (address : ℕ) (ws : List ℕ) (m : RegisterMap V) (n : String)
      (x : GatewayRegisterDef V)
      → IsValid m
      → lookup n m.defs ≡ some x
      → 0 < x.register_count
      → (let r = process_write p address ws m in
          Kept p address ws m r × Fate p address ws x m true r)
  unfolding process_write find_affected_registers
  process_write-planned p address ws m n x i k c =
      let f : GatewayRegisterDef V → Bool = λ d.
        same_type d.register_type holding
        && overlaps d.address d.register_count address (length ws) in
      let both = named-entries m i in
      let named = All-map m.defs (λ q h. h.0) both in
      let stands : lookup x.name m.defs ≡ some x =
        subst (λ y. lookup y m.defs ≡ some x) (sym (i.named n x k)) k in
      let (kept, fate) =
        process_all-Fate p address ws x (filter f (values m.defs)) m [] i
          (filter-All f _ m.defs (
            All-map m.defs
              (λ q h t. (ground (arith, t), subst (λ y. lookup y m.defs ≡ some q.1) (sym h.0) h.1))
              both))
          (filter-Distinct f m.defs i.distinct named) stands in
      (
        kept,
        turn p address ws x m _ (f x) (λ g. unaffected p address ws x c g)
            (subst (λ b. Fate p address ws x m b (process_write p address ws m))
              (contains-filter f x m.defs i.distinct named stands) fate),
      )
