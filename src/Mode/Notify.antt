-- ===== src/Mode/Notify.antt =====
-- What the change callback is told (controller/system/mode.py).
use csp_lib.Base.{
  String, ◌≡◌, refl, Bool, true, false, Option, none, some, List, [], ◌∷◌, ◌++◌, arith,
  if◌then◌else◌, contains, string_equality, ==_refl, Option-cases, Bool-cases, inl, inr, subst,
  contains-append, remove-append_one,
}
use csp_lib.Base.Dict.{lookup, member}
use csp_lib.Mode.{
  ModeManager, SwitchSource, Strategy, Effect, on_deactivate, on_activate, on_strategy_change, ok,
  raised, Method, with_source, switch, notify, is_same, forget, set_base_mode, add_base_mode,
  remove_base_mode, async_unregister, push_override, pop_override, clear_overrides,
  effective_strategy, effective_mode, is_active,
}
use csp_lib.Mode.Calls.{
  Call, dispatch, register_call, unregister_call, set_base_call, add_base_call, remove_base_call,
  update_call, async_unregister_call, push_call, pop_call, clear_call,
}

effective_strategy-with_source :
    (source : Option SwitchSource) (s : ModeManager)
    → effective_strategy (with_source source s) ≡ effective_strategy s
unfolding effective_strategy effective_mode
effective_strategy-with_source none s = refl
effective_strategy-with_source (some x) s = refl

is_same_refl : (o : Option Strategy) → is_same o o ≡ true
is_same_refl none = refl
is_same_refl (some a) = ground arith

-- Pushing an override that is registered and not in force, then popping it, gives back the
-- manager as it was, and the callback is told of the two changes of strategy in turn.
pub push-pop :
    (name : String) (s : ModeManager)
    → member name s.modes ≡ true
    → contains name s.override_names ≡ false
    → (s' : ModeManager) × (push_override name none s
        ≡ ok (s', notify s.has_callback (effective_strategy s) (effective_strategy s')))
      × (pop_override name none s'
          ≡ ok (s, notify s.has_callback (effective_strategy s') (effective_strategy s)))
unfolding push_override pop_override switch
push-pop name s r a =
    let s' = record s { override_names = s.override_names ++ name ∷ [] } in
    let there : contains name (s.override_names ++ name ∷ []) ≡ true =
      rw (contains-append, a, ==_refl name) in
    (s', rw (r, a), rw (there, remove-append_one name s.override_names a))

-- The changes of strategy that the callback is told of.
abbrev pub changes : List Effect → List (Option Strategy × Option Strategy)
changes [] = []
changes (on_strategy_change old new ∷ es) = (old, new) ∷ changes es
changes (on_deactivate x ∷ es) = changes es
changes (on_activate x ∷ es) = changes es

-- The methods that switch modes, and tell the callback.
abbrev pub Switches : Call → Type 0
Switches (register_call n x p d) = ⊥
Switches (unregister_call n) = ⊥
Switches (update_call n x source d) = ⊥
Switches _ = Unit

-- The callback is told of the change from `s` to `s'`, if there is a callback and a change.
abbrev pub told : ModeManager → ModeManager → List (Option Strategy × Option Strategy)
told s s' =
    if is_same (effective_strategy s) (effective_strategy s')
    then []
    else if s.has_callback
    then (effective_strategy s, effective_strategy s') ∷ []
    else []

abbrev Reports : ModeManager → Method → Type 0
Reports s (ok r) = changes r.1 ≡ told s r.0
Reports s (raised e) = Unit

switch-Reports :
    (source : Option SwitchSource) (s s' : ModeManager) → Reports s (ok (switch source s s'))
unfolding switch
switch-Reports source s s' =
    rw (effective_strategy-with_source source s')
      (go (is_same (effective_strategy s) (effective_strategy s')) s.has_callback)
  where
    go :
        (a b : Bool)
        → changes (
            if a
            then []
            else if b
            then on_strategy_change (effective_strategy s) (effective_strategy s') ∷ []
            else [])
          ≡ (if a then [] else if b then (effective_strategy s, effective_strategy s') ∷ [] else [])
    go true b = refl
    go false true = refl
    go false false = refl

unchanged-Reports : (s : ModeManager) → Reports s (ok (s, []))
unchanged-Reports s = rw (is_same_refl (effective_strategy s))

set_base_mode-Reports :
    (name : Option String) (source : Option SwitchSource) (s : ModeManager)
    → Reports s (set_base_mode name source s)
unfolding set_base_mode
set_base_mode-Reports none source s = switch-Reports source s _
set_base_mode-Reports (some name) source s = elim (Bool-cases (member name s.modes)) [
  | inl old ↦ rw (old, set_base_mode) (switch-Reports source s _)
  | inr free ↦ rw (free, set_base_mode) tt
]

add_base_mode-Reports :
    (name : String) (source : Option SwitchSource) (s : ModeManager)
    → Reports s (add_base_mode name source s)
unfolding add_base_mode
add_base_mode-Reports name source s = elim (Bool-cases (member name s.modes)) [
  | inr free ↦ rw free tt
  | inl old ↦ elim (Bool-cases (contains name s.base_names)) [
    | inl there ↦ rw (old, there) (unchanged-Reports s)
    | inr absent ↦ rw (old, absent) (switch-Reports source s _)
  ]
]

remove_base_mode-Reports :
    (name : String) (source : Option SwitchSource) (s : ModeManager)
    → Reports s (remove_base_mode name source s)
unfolding remove_base_mode
remove_base_mode-Reports name source s = elim (Bool-cases (contains name s.base_names)) [
  | inl there ↦ rw there (switch-Reports source s _)
  | inr absent ↦ rw absent tt
]

async_unregister-Reports :
    (name : String) (source : Option SwitchSource) (s : ModeManager)
    → Reports s (async_unregister name source s)
unfolding async_unregister
async_unregister-Reports name source s = elim (Option-cases (lookup name s.modes)) [
  | inl missing ↦ rw (missing, async_unregister) tt
  | inr (old, found) ↦ elim (Bool-cases (is_active name s)) [
    | inl active ↦
        rw (found, async_unregister) (rw active (switch-Reports source s (forget name s)))
    | inr idle ↦ rw (found, async_unregister) (rw idle (switch-Reports source s (forget name s)))
  ]
]

push_override-Reports :
    (name : String) (source : Option SwitchSource) (s : ModeManager)
    → Reports s (push_override name source s)
unfolding push_override
push_override-Reports name source s = elim (Bool-cases (member name s.modes)) [
  | inr free ↦ rw free tt
  | inl old ↦ elim (Bool-cases (contains name s.override_names)) [
    | inl there ↦ rw (old, there) tt
    | inr absent ↦ rw (old, absent) (switch-Reports source s _)
  ]
]

pop_override-Reports :
    (name : String) (source : Option SwitchSource) (s : ModeManager)
    → Reports s (pop_override name source s)
unfolding pop_override
pop_override-Reports name source s = elim (Bool-cases (contains name s.override_names)) [
  | inl there ↦ rw there (switch-Reports source s _)
  | inr absent ↦ rw absent tt
]

dispatch-Reports : (c : Call) (s : ModeManager) → Switches c → Reports s (dispatch c s)
unfolding dispatch
dispatch-Reports (register_call n x p d) s w = absurd w
dispatch-Reports (unregister_call n) s w = absurd w
dispatch-Reports (update_call n x source d) s w = absurd w
dispatch-Reports (set_base_call n source) s w = set_base_mode-Reports n source s
dispatch-Reports (add_base_call n source) s w = add_base_mode-Reports n source s
dispatch-Reports (remove_base_call n source) s w = remove_base_mode-Reports n source s
dispatch-Reports (async_unregister_call n source) s w = async_unregister-Reports n source s
dispatch-Reports (push_call n source) s w = push_override-Reports n source s
dispatch-Reports (pop_call n source) s w = pop_override-Reports n source s
dispatch-Reports clear_call s w = unfold clear_overrides in switch-Reports none s _

-- Every method that switches modes (the base modes set, added or removed, an override pushed,
-- popped or cleared, a mode unregistered asynchronously) tells the callback, where there is one,
-- of the old and new effective strategies exactly once if these differ, and of nothing if not.
pub dispatch-changes :
    (c : Call) (s : ModeManager) {s' : ModeManager} {es : List Effect}
    → Switches c
    → dispatch c s ≡ ok (s', es)
    → changes es ≡ told s s'
dispatch-changes c s w e = subst (Reports s) e (dispatch-Reports c s w)
