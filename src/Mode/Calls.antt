-- ===== src/Mode/Calls.antt =====
-- Sequences of calls of the mode manager's methods (controller/system/mode.py).
use csp_lib.Base.{
  String, refl, Bool, Option, none, some, List, [], ◌∷◌, contains, string_equality, Option-cases,
  Bool-cases, inl, inr,
}
use csp_lib.Base.Dict.{lookup, member}
use csp_lib.Base.Int.{ℤ}
use csp_lib.Mode.{
  ModeManager, SwitchSource, Strategy, ok, raised, Method, new, switch, register, unregister,
  set_base_mode, add_base_mode, remove_base_mode, update_mode_strategy, async_unregister,
  push_override, pop_override, clear_overrides,
}
use csp_lib.Mode.Validity.{
  IsValid, Keeps, with_source-IsValid, insert-IsValid, forget-IsValid, bases-IsValid,
  overrides-IsValid, append-IsNames, remove-IsNames,
}

switch-Keeps :
    (source : Option SwitchSource) (s s' : ModeManager)
    → IsValid s'
    → Keeps (ok (switch source s s'))
unfolding switch
switch-Keeps source s s' v = with_source-IsValid source s' v

register-Keeps :
    (name : String) (strategy : Strategy) (priority : ℤ) (description : String) (s : ModeManager)
    → IsValid s
    → Keeps (register name strategy priority description s)
unfolding register
register-Keeps name strategy priority description s v = elim (Bool-cases (member name s.modes)) [
  | inl old ↦ rw old tt
  | inr free ↦ rw free (insert-IsValid name _ s refl v)
]

unregister-Keeps : (name : String) (s : ModeManager) → IsValid s → Keeps (unregister name s)
unfolding unregister
unregister-Keeps name s v = elim (Bool-cases (member name s.modes)) [
  | inl old ↦ rw old (forget-IsValid name s v)
  | inr free ↦ rw free tt
]

set_base_mode-Keeps :
    (name : Option String) (source : Option SwitchSource) (s : ModeManager)
    → IsValid s
    → Keeps (set_base_mode name source s)
unfolding set_base_mode
set_base_mode-Keeps none source s v =
    switch-Keeps source s _ (bases-IsValid s [] (record { distinct = tt; registered = tt }) v)
set_base_mode-Keeps (some name) source s v = elim (Bool-cases (member name s.modes)) [
  | inl old ↦
      rw (old, set_base_mode)
        (switch-Keeps source s _ (
          bases-IsValid s (name ∷ []) (record { distinct = (refl, tt); registered = (old, tt) }) v))
  | inr free ↦ rw (free, set_base_mode) tt
]

add_base_mode-Keeps :
    (name : String) (source : Option SwitchSource) (s : ModeManager)
    → IsValid s
    → Keeps (add_base_mode name source s)
unfolding add_base_mode
add_base_mode-Keeps name source s v = elim (Bool-cases (member name s.modes)) [
  | inr free ↦ rw free tt
  | inl old ↦ elim (Bool-cases (contains name s.base_names)) [
    | inl there ↦ rw (old, there) v
    | inr absent ↦
        rw (old, absent)
          (switch-Keeps source s _ (
            bases-IsValid s _
              (append-IsNames s.modes name s.base_names v.bases_distinct v.bases_registered absent
                old)
              v))
  ]
]

remove_base_mode-Keeps :
    (name : String) (source : Option SwitchSource) (s : ModeManager)
    → IsValid s
    → Keeps (remove_base_mode name source s)
unfolding remove_base_mode
remove_base_mode-Keeps name source s v = elim (Bool-cases (contains name s.base_names)) [
  | inl there ↦ rw there (
      switch-Keeps source s _ (
        bases-IsValid s _
          (remove-IsNames s.modes name s.base_names v.bases_distinct v.bases_registered) v))
  | inr absent ↦ rw absent tt
]

update_mode_strategy-Keeps :
    (name : String) (strategy : Strategy) (source : Option SwitchSource)
    (description : Option String) (s : ModeManager)
    → IsValid s
    → Keeps (update_mode_strategy name strategy source description s)
unfolding update_mode_strategy
update_mode_strategy-Keeps name strategy source description s v =
    elim (Option-cases (lookup name s.modes)) [
      | inl missing ↦ rw (missing, update_mode_strategy) tt
      | inr (old, found) ↦
          rw (found, update_mode_strategy)
            (with_source-IsValid source _ (insert-IsValid name _ s refl v))
    ]

async_unregister-Keeps :
    (name : String) (source : Option SwitchSource) (s : ModeManager)
    → IsValid s
    → Keeps (async_unregister name source s)
unfolding async_unregister switch
async_unregister-Keeps name source s v = elim (Option-cases (lookup name s.modes)) [
  | inl missing ↦ rw (missing, async_unregister) tt
  | inr (old, found) ↦
      rw (found, async_unregister) (with_source-IsValid source _ (forget-IsValid name s v))
]

push_override-Keeps :
    (name : String) (source : Option SwitchSource) (s : ModeManager)
    → IsValid s
    → Keeps (push_override name source s)
unfolding push_override
push_override-Keeps name source s v = elim (Bool-cases (member name s.modes)) [
  | inr free ↦ rw free tt
  | inl old ↦ elim (Bool-cases (contains name s.override_names)) [
    | inl there ↦ rw (old, there) tt
    | inr absent ↦
        rw (old, absent)
          (switch-Keeps source s _ (
            overrides-IsValid s _
              (append-IsNames s.modes name s.override_names v.overrides_distinct
                v.overrides_registered absent old)
              v))
  ]
]

pop_override-Keeps :
    (name : String) (source : Option SwitchSource) (s : ModeManager)
    → IsValid s
    → Keeps (pop_override name source s)
unfolding pop_override
pop_override-Keeps name source s v = elim (Bool-cases (contains name s.override_names)) [
  | inl there ↦ rw there (
      switch-Keeps source s _ (
        overrides-IsValid s _
          (remove-IsNames s.modes name s.override_names v.overrides_distinct v.overrides_registered)
          v))
  | inr absent ↦ rw absent tt
]

clear_overrides-Keeps : (s : ModeManager) → IsValid s → Keeps (clear_overrides s)
unfolding clear_overrides
clear_overrides-Keeps s v =
    switch-Keeps none s _ (overrides-IsValid s [] (record { distinct = tt; registered = tt }) v)

-- A call of a method with its arguments.
pub data Call : Type 0 where
  register_call : String → Strategy → ℤ → String → Call
  unregister_call : String → Call
  set_base_call : Option String → Option SwitchSource → Call
  add_base_call remove_base_call : String → Option SwitchSource → Call
  update_call : String → Strategy → Option SwitchSource → Option String → Call
  async_unregister_call push_call pop_call : String → Option SwitchSource → Call
  clear_call : Call

unfoldable pub dispatch : Call → ModeManager → Method
dispatch (register_call n x p d) s = register n x p d s
dispatch (unregister_call n) s = unregister n s
dispatch (set_base_call n source) s = set_base_mode n source s
dispatch (add_base_call n source) s = add_base_mode n source s
dispatch (remove_base_call n source) s = remove_base_mode n source s
dispatch (update_call n x source d) s = update_mode_strategy n x source d s
dispatch (async_unregister_call n source) s = async_unregister n source s
dispatch (push_call n source) s = push_override n source s
dispatch (pop_call n source) s = pop_override n source s
dispatch clear_call s = clear_overrides s

dispatch-Keeps : (c : Call) (s : ModeManager) → IsValid s → Keeps (dispatch c s)
unfolding dispatch
dispatch-Keeps (register_call n x p d) s v = register-Keeps n x p d s v
dispatch-Keeps (unregister_call n) s v = unregister-Keeps n s v
dispatch-Keeps (set_base_call n source) s v = set_base_mode-Keeps n source s v
dispatch-Keeps (add_base_call n source) s v = add_base_mode-Keeps n source s v
dispatch-Keeps (remove_base_call n source) s v = remove_base_mode-Keeps n source s v
dispatch-Keeps (update_call n x source d) s v = update_mode_strategy-Keeps n x source d s v
dispatch-Keeps (async_unregister_call n source) s v = async_unregister-Keeps n source s v
dispatch-Keeps (push_call n source) s v = push_override-Keeps n source s v
dispatch-Keeps (pop_call n source) s v = pop_override-Keeps n source s v
dispatch-Keeps clear_call s v = clear_overrides-Keeps s v

-- What a call leaves behind: a raise leaves the manager as it was.
abbrev pub state_after : ModeManager → Method → ModeManager
state_after s (ok r) = r.0
state_after s (raised e) = s

state_after-IsValid :
    (s : ModeManager) (r : Method) → IsValid s → Keeps r → IsValid (state_after s r)
state_after-IsValid s (ok r) v k = k
state_after-IsValid s (raised e) v k = v

pub run_switches : List Call → ModeManager → ModeManager
run_switches [] s = s
run_switches (c ∷ cs) s = run_switches cs (state_after s (dispatch c s))

run_switches-keeps : (cs : List Call) (s : ModeManager) → IsValid s → IsValid (run_switches cs s)
unfolding run_switches
run_switches-keeps [] s v = v
run_switches-keeps (c ∷ cs) s v =
    run_switches-keeps cs _ (state_after-IsValid s (dispatch c s) v (dispatch-Keeps c s v))

-- After any calls on a new manager, raising ones included, every base mode and every override is
-- registered and stands once in its list, and every mode is registered once, under its own name.
pub run_switches-IsValid :
    (cs : List Call) (callback : Bool) → IsValid (run_switches cs (new callback))
run_switches-IsValid cs callback = run_switches-keeps cs (new callback) (record {
  one_each = tt;
  named = tt;
  bases_distinct = tt;
  bases_registered = tt;
  overrides_distinct = tt;
  overrides_registered = tt;
})
