-- ===== src/Mode/Tests.antt =====
-- Runs of the mode manager on concrete modes, and its theorems at them.
use csp_lib.Base.{contains, ℕ, String, ◌≡◌, refl, true, none, some, List, [], ◌∷◌, string_equality}
use csp_lib.Base.Int.{pos}
use csp_lib.Mode
use csp_lib.Mode.{
  ModeDefinition, ModeManager, Effect, on_deactivate, on_activate, on_strategy_change, ok, new,
  notify, base_mode_names, base_strategies, modes_of, update_mode_strategy, add_base_mode,
  push_override, pop_override, effective_mode, effective_strategy,
}
use csp_lib.Mode.Validity.{IsValid}
use csp_lib.Mode.Calls.{
  Call, register_call, set_base_call, push_call, pop_call, unregister_call, dispatch, run_switches,
  run_switches-IsValid,
}
use csp_lib.Mode.Priority.{IsHighest, StandsIn, effective_mode-IsHighest}
use csp_lib.Mode.Notify.{changes, told, dispatch-changes}
use csp_lib.Mode.Unreported.{add_base_mode_unreported}

abbrev calls : List Call
calls =
    register_call "pq" 1 (pos 10) ""
    ∷ register_call "stop" 2 (pos 100) ""
    ∷ register_call "manual" 3 (pos 50) ""
    ∷ set_base_call (some "pq") none
    ∷ push_call "manual" none
    ∷ push_call "stop" none
    ∷ push_call "stop" none
    ∷ unregister_call "manual"
    ∷ []

run_switches-IsValid_example : IsValid (run_switches calls (new true))
run_switches-IsValid_example = run_switches-IsValid calls true

abbrev definition : String → ℕ → ℕ → ModeDefinition
definition name strategy priority = record {
  name = name;
  strategy = strategy;
  priority = pos priority;
  description = "";
}

-- One base mode under two overrides.
abbrev site : ModeManager
site = record {
  modes =
      ("pq", definition "pq" 1 10)
      ∷ ("stop", definition "stop" 2 100)
      ∷ ("manual", definition "manual" 3 50)
      ∷ ("fp", definition "fp" 4 10)
      ∷ [];
  base_names = "pq" ∷ [];
  override_names = "manual" ∷ "stop" ∷ [];
  has_callback = true;
  last_switch_source = none;
}

site-IsValid : IsValid site
site-IsValid = record {
  one_each = (refl, (refl, (refl, (refl, tt))));
  named = (refl, (refl, (refl, (refl, tt))));
  bases_distinct = (refl, tt);
  bases_registered = (refl, tt);
  overrides_distinct = (refl, (refl, tt));
  overrides_registered = (refl, (refl, tt));
}

effective_mode-IsHighest_example :
    (m : ModeDefinition) × (effective_mode site ≡ some m)
    × StandsIn site.modes site.override_names m
    × IsHighest site.modes site.override_names m
effective_mode-IsHighest_example = effective_mode-IsHighest site site-IsValid (λ e. cc)

abbrev popped : ModeManager
popped = record site { override_names = "manual" ∷ [] }

dispatch-changes_example : changes (on_strategy_change (some 2) (some 3) ∷ []) ≡ told site popped
dispatch-changes_example =
    dispatch-changes (pop_call "stop" none) site {s' = popped}
      {es = on_strategy_change (some 2) (some 3) ∷ []} tt pop_stop
  where
    pop_stop :
        dispatch (pop_call "stop" none) site
        ≡ ok (popped, on_strategy_change (some 2) (some 3) ∷ [])
    pop_stop =
        unfold dispatch pop_override Mode.switch effective_strategy effective_mode Mode.best_of in
        refl

abbrev two_bases : ModeManager
two_bases = record site { base_names = "pq" ∷ "fp" ∷ []; override_names = [] }

add_base_mode_unreported_example :
    (effective_strategy two_bases ≡ none)
    × (s' : ModeManager) × (add_base_mode "manual" none two_bases ≡ ok (s', []))
    × (effective_strategy s' ≡ none)
    × (contains "manual" s'.base_names ≡ true)
add_base_mode_unreported_example =
    add_base_mode_unreported "manual" "pq" "fp" [] none two_bases refl refl refl

abbrev overridden : ModeManager
overridden = record site { override_names = "stop" ∷ [] }
