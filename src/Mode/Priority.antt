-- ===== src/Mode/Priority.antt =====
-- Which mode is in effect, and the order of the base modes (controller/system/mode.py).
use csp_lib.Base.{
  String, ◌≡◌, refl, sym, ◌∙◌, true, none, some, List, [], ◌∷◌, arith, contains, All,
  string_equality, ==_refl, Option-cases, Bool-cases, inl, inr, ◌⊎◌, ◌≢◌, ap,
}
use csp_lib.Base.Dict.{Dict, lookup}
use csp_lib.Base.Int.{◌≤ℤ◌, ltb_ℤ}
use csp_lib.Mode.{ModeDefinition, ModeManager, best_of, effective_mode}
use csp_lib.Mode.Validity.{IsValid, IsRegistered}

-- No mode among the names has a higher priority.
abbrev pub IsHighest : Dict String ModeDefinition → List String → ModeDefinition → Type 0
IsHighest modes ns m =
    All (λ n. (k : ModeDefinition) → lookup n modes ≡ some k → k.priority ≤ℤ m.priority) ns

-- The mode stands under one of the names.
abbrev pub StandsIn : Dict String ModeDefinition → List String → ModeDefinition → Type 0
StandsIn modes ns m = (n : String) × (contains n ns ≡ true) × (lookup n modes ≡ some m)

-- The outcome of the loop from a best mode so far: that mode or one of the names', not below any.
record Best (modes : Dict String ModeDefinition) (ns : List String) (b m : ModeDefinition)
    : Type 0 where
  result : best_of modes ns (some b) ≡ some m
  origin : (m ≡ b) ⊎ StandsIn modes ns m
  at_least : b.priority ≤ℤ m.priority
  highest : IsHighest modes ns m

best_of-Best :
    (modes : Dict String ModeDefinition) (ns : List String) (b : ModeDefinition)
    → (m : ModeDefinition) × Best modes ns b m
unfolding best_of
best_of-Best modes [] b =
    (b, record { result = refl; origin = inl refl; at_least = omega arith; highest = tt })
best_of-Best modes (n ∷ ns) b = elim (Option-cases (lookup n modes)) [
  | inl missing ↦
      let (m, r) = best_of-Best modes ns b in
      (
        m,
        record {
          result = rw (missing, best_of) r.result;
          origin = later m r.origin;
          at_least = r.at_least;
          highest = ((λ k e. cc (missing)), r.highest);
        },
      )
  | inr (k, found) ↦ elim (Bool-cases (ltb_ℤ b.priority k.priority)) [
    | inl above ↦
        let (m, r) = best_of-Best modes ns k in
        (
          m,
          record {
            result = ground (arith, found, above, r.result);
            origin = first m k found r.origin;
            at_least = ground (arith, above, r.at_least);
            highest = ((λ k' e. ground (arith, found, e, r.at_least)), r.highest);
          },
        )
    | inr below ↦
        let (m, r) = best_of-Best modes ns b in
        (
          m,
          record {
            result = ground (arith, found, below, r.result);
            origin = later m r.origin;
            at_least = r.at_least;
            highest = ((λ k' e. ground (arith, found, e, below, r.at_least)), r.highest);
          },
        )
  ]
]
  where
    later :
        (m : ModeDefinition) → (m ≡ b) ⊎ StandsIn modes ns m → (m ≡ b) ⊎ StandsIn modes (n ∷ ns) m
    later m (inl e) = inl e
    later m (inr (j, at, e)) = inr (j, ground (arith, at), e)

    first :
        (m k : ModeDefinition)
        → lookup n modes ≡ some k
        → (m ≡ k) ⊎ StandsIn modes ns m
        → (m ≡ b) ⊎ StandsIn modes (n ∷ ns) m
    first m k found (inl e) = inr (n, ground (arith, ==_refl n), found ∙ ap some (sym e))
    first m k found (inr (j, at, e)) = inr (j, ground (arith, at), e)

-- With an override in force, the mode in effect is one of the overrides', and no override has a
-- higher priority, whatever the base modes are.
pub effective_mode-IsHighest :
    (s : ModeManager)
    → IsValid s
    → s.override_names ≢ []
    → (m : ModeDefinition) × (effective_mode s ≡ some m)
      × StandsIn s.modes s.override_names m
      × IsHighest s.modes s.override_names m
unfolding effective_mode
effective_mode-IsHighest s v h = among s.override_names v.overrides_registered h refl
  where
    among :
        (ns : List String)
        → All (IsRegistered s.modes) ns
        → ns ≢ []
        → s.override_names ≡ ns
        → (m : ModeDefinition) × (effective_mode s ≡ some m)
          × StandsIn s.modes s.override_names m
          × IsHighest s.modes s.override_names m
    among [] r ne e = absurd (ne refl)
    among (n ∷ ns) r ne e = elim (Option-cases (lookup n s.modes)) [
      | inl missing ↦ absurd (absent n missing r.0)
      | inr (b, found) ↦
          let (m, best) = best_of-Best s.modes ns b in
          (
            m,
            rw (e, effective_mode) (unfold best_of in rw (found, best_of) best.result),
            rw e (origin n ns b m found best.origin),
            rw e ((λ k f. ground (arith, found, f, best.at_least)), best.highest),
          )
    ]
      where
        absent : (n : String) → lookup n s.modes ≡ none → IsRegistered s.modes n → ⊥
        absent n missing r = ground (arith, missing, r)

        origin :
            (n : String) (ns : List String) (b m : ModeDefinition)
            → lookup n s.modes ≡ some b
            → (m ≡ b) ⊎ StandsIn s.modes ns m
            → StandsIn s.modes (n ∷ ns) m
        origin n ns b m found (inl e) = (n, ground (arith, ==_refl n), found ∙ ap some (sym e))
        origin n ns b m found (inr (j, at, e)) = (j, ground (arith, at), e)
