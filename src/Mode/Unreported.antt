-- ===== src/Mode/Unreported.antt =====
-- Where the change callback and the effective strategy part (controller/system/mode.py).
use csp_lib.Base.{
  String, ◌≡◌, true, false, none, some, List, [], ◌∷◌, ◌++◌, arith, contains, string_equality, ◌==◌,
  eqb, Option, refl, ap, Bool-cases, inl, inr, contains-append, ==_refl,
}
use csp_lib.Base.Dict.{lookup, insert, member, lookup-insert}
use csp_lib.Mode.{
  ModeDefinition, ModeManager, Strategy, on_deactivate, on_activate, on_strategy_change, ok, switch,
  add_base_mode, with_source, SwitchSource, update_mode_strategy, effective_strategy,
  effective_mode, best_of,
}

-- With no override in force, two base modes leave no strategy in effect.
several :
    (a b : String) (rest : List String) (s : ModeManager)
    → s.override_names ≡ []
    → s.base_names ≡ a ∷ b ∷ rest
    → effective_strategy s ≡ none
unfolding effective_strategy effective_mode
several a b rest s o two = ground (arith, o, two)

several-with_source :
    (source : Option SwitchSource) (a b : String) (rest : List String) (s : ModeManager)
    → s.override_names ≡ []
    → s.base_names ≡ a ∷ b ∷ rest
    → effective_strategy (with_source source s) ≡ none
several-with_source none a b rest s o two = several a b rest s o two
several-with_source (some x) a b rest s o two =
    several a b rest (record s { last_switch_source = some x }) o two

same_names :
    (source : Option SwitchSource) (s : ModeManager)
    → (with_source source s).base_names ≡ s.base_names
same_names none s = refl
same_names (some x) s = refl

-- With no override in force and two base modes or more, adding a registered mode tells the callback
-- nothing, whatever the source and whether the mode was among the base modes or not: the effective
-- strategy is `None` before and after, though the mode is among the base modes then, of which the
-- caller composes its strategy.
pub add_base_mode_unreported :
    (name a b : String) (rest : List String) (source : Option SwitchSource) (s : ModeManager)
    → s.override_names ≡ []
    → s.base_names ≡ a ∷ b ∷ rest
    → member name s.modes ≡ true
    → (effective_strategy s ≡ none)
      × (s' : ModeManager) × (add_base_mode name source s ≡ ok (s', []))
      × (effective_strategy s' ≡ none)
      × (contains name s'.base_names ≡ true)
unfolding add_base_mode switch
add_base_mode_unreported name a b rest source s o two r =
    let before = several a b rest s o two in
    elim (Bool-cases (contains name s.base_names)) [
      | inl old ↦ (before, s, ground (arith, r, old), before, old)
      | inr new ↦
          let s' : ModeManager = record s { base_names = s.base_names ++ name ∷ [] } in
          let two' : s'.base_names ≡ a ∷ b ∷ (rest ++ name ∷ []) =
            ap (λ names. names ++ name ∷ []) two in
          let after = several a b (rest ++ name ∷ []) s' o two' in
          (
            before,
            with_source source s',
            ground (arith, r, new, before, after),
            several-with_source source a b (rest ++ name ∷ []) s' o two',
            ground (
              arith,
              same_names source s',
              contains-append name s.base_names (name ∷ []),
              ==_refl name,
            ),
          )
    ]

-- Updating the strategy of a base mode while another mode is in force as an override does not
-- change the effective strategy, and yet the callback is told of a change to the new strategy.
pub update_mode_strategy_overridden :
    (name other : String) (x : Strategy) (s : ModeManager) (old : ModeDefinition)
    → s.override_names ≡ other ∷ []
    → (other == name) ≡ false
    → contains name s.base_names ≡ true
    → lookup name s.modes ≡ some old
    → s.has_callback ≡ true
    → eqb old.strategy x ≡ false
    → (s' : ModeManager) × (update_mode_strategy name x none none s
        ≡ ok (
          s',
          on_deactivate old.strategy
              ∷ (on_activate x ∷ (on_strategy_change (some old.strategy) (some x) ∷ [])),
        ))
      × (effective_strategy s' ≡ effective_strategy s)
unfolding update_mode_strategy effective_strategy effective_mode best_of
update_mode_strategy_overridden name other x s old o ne b found callback differs =
    let mode : ModeDefinition = record {
      name = name;
      strategy = x;
      priority = old.priority;
      description = old.description;
    } in
    (
      record s { modes = insert name mode s.modes },
      ground (arith, found, b, callback, differs),
      ground (arith, o, ne, lookup-insert other name mode s.modes),
    )
