-- ===== src/Mode.antt =====
-- The mode manager, csp_lib/controller/system/mode.py: registered modes, the base modes and the
-- overrides. A strategy is a number for the object's identity, which is all that the manager
-- compares. What it calls outside (the strategies' hooks, the change callback) is a list of
-- effects; those calls return normally, and every `raise` stands before the first of them.
pub mod Validity
pub mod Calls
pub mod Priority
pub mod Order
pub mod Notify
pub mod Unreported
mod Tests
use csp_lib.Base.{
  ℕ, String, Bool, true, false, not, ◌&&◌, ◌||◌, Option, none, some, List, [], ◌∷◌, ◌++◌, map, eqb,
  if◌then◌else◌, contains, remove, is_some, string_equality,
}
use csp_lib.Base.Dict.{Dict, lookup, member, insert, erase}
use csp_lib.Base.Int.{ℤ, ltb_ℤ, leb_ℤ}

pub data SwitchSource : Type 0 where
  manual schedule event internal : SwitchSource

abbrev pub Strategy : Type 0
Strategy = ℕ

pub record ModeDefinition : Type 0 where
  pub name : String
  pub strategy : Strategy
  pub priority : ℤ
  pub description : String

pub record ModeManager : Type 0 where
  pub modes : Dict String ModeDefinition
  pub base_names : List String
  pub override_names : List String
  -- `on_strategy_change is not None`.
  pub has_callback : Bool
  pub last_switch_source : Option SwitchSource

-- `__init__`.
abbrev pub new : Bool → ModeManager
new callback = record {
  modes = [];
  base_names = [];
  override_names = [];
  has_callback = callback;
  last_switch_source = none;
}

pub data Error : Type 0 where
  mode_exists mode_unknown base_inactive override_active override_inactive : String → Error

pub data Effect : Type 0 where
  on_deactivate on_activate : Strategy → Effect
  on_strategy_change : Option Strategy → Option Strategy → Effect

pub data Result (A : Type 0) : Type 0 where
  ok : A → Result A
  raised : Error → Result A

abbrev pub Method : Type 0
Method = Result (ModeManager × List Effect)

-- One step of the loop of `effective_mode`: the first of the highest priority is kept.
abbrev pub better : Option ModeDefinition → Option ModeDefinition → Option ModeDefinition
better none best = best
better (some m) none = some m
better (some m) (some b) = if ltb_ℤ b.priority m.priority then some m else some b

unfoldable pub best_of :
    Dict String ModeDefinition → List String → Option ModeDefinition → Option ModeDefinition
best_of modes [] best = best
best_of modes (n ∷ ns) best = best_of modes ns (better (lookup n modes) best)

abbrev single_base : ModeManager → List String → Option ModeDefinition
single_base s [] = none
single_base s (n ∷ []) = lookup n s.modes
single_base s (n ∷ k ∷ ns) = none

abbrev best_override : ModeManager → List String → Option ModeDefinition
best_override s [] = single_base s s.base_names
best_override s (n ∷ ns) = best_of s.modes (n ∷ ns) none

unfoldable pub effective_mode : ModeManager → Option ModeDefinition
effective_mode s = best_override s s.override_names

abbrev pub strategy_of : Option ModeDefinition → Option Strategy
strategy_of none = none
strategy_of (some m) = some m.strategy

unfoldable pub effective_strategy : ModeManager → Option Strategy
effective_strategy s = strategy_of (effective_mode s)

-- `old_strategy is new_strategy`.
abbrev pub is_same : Option Strategy → Option Strategy → Bool
is_same none none = true
is_same none (some b) = false
is_same (some a) none = false
is_same (some a) (some b) = eqb a b

-- `_notify_change`.
abbrev pub notify : Bool → Option Strategy → Option Strategy → List Effect
notify callback old new =
    if is_same old new then [] else if callback then on_strategy_change old new ∷ [] else []

-- `if source is not None: self._last_switch_source = source`.
abbrev pub with_source : Option SwitchSource → ModeManager → ModeManager
with_source none s = s
with_source (some source) s = record s { last_switch_source = some source }

-- The common tail of the switching methods: from `s` to `s'`, the source recorded, the change of
-- the effective strategy reported.
unfoldable pub switch : Option SwitchSource → ModeManager → ModeManager → ModeManager × List Effect
switch source s s' =
    (with_source source s', notify s.has_callback (effective_strategy s) (effective_strategy s'))

unfoldable pub register : String → Strategy → ℤ → String → ModeManager → Method
register name strategy priority description s =
    if member name s.modes
    then raised (mode_exists name)
    else ok (
      record s {
        modes =
            insert name
              (record {
                name = name;
                strategy = strategy;
                priority = priority;
                description = description;
              })
              s.modes;
      },
      [],
    )

-- The removal that `unregister` and `async_unregister` share. Removing an absent name from a
-- list changes nothing, so the tests before `remove` are part of it.
abbrev pub forget : String → ModeManager → ModeManager
forget name s = record s {
  modes = erase name s.modes;
  base_names = remove name s.base_names;
  override_names = remove name s.override_names;
}

unfoldable pub unregister : String → ModeManager → Method
unregister name s =
    if member name s.modes then ok (forget name s, []) else raised (mode_unknown name)

abbrev pub base_list : Option String → List String
base_list none = []
base_list (some name) = name ∷ []

abbrev unknown : Option String → ModeManager → Option String
unknown none s = none
unknown (some name) s = if member name s.modes then none else some name

unfoldable pub set_base_mode : Option String → Option SwitchSource → ModeManager → Method
set_base_mode name source s = elim (unknown name s) [
  | some missing ↦ raised (mode_unknown missing)
  | none ↦ ok (switch source s (record s { base_names = base_list name }))
]

unfoldable pub add_base_mode : String → Option SwitchSource → ModeManager → Method
add_base_mode name source s =
    if not (member name s.modes)
    then raised (mode_unknown name)
    else if contains name s.base_names
    then ok (s, [])
    else ok (switch source s (record s { base_names = s.base_names ++ name ∷ [] }))

unfoldable pub remove_base_mode : String → Option SwitchSource → ModeManager → Method
remove_base_mode name source s =
    if contains name s.base_names
    then ok (switch source s (record s { base_names = remove name s.base_names }))
    else raised (base_inactive name)

-- The mode stands among the base modes or the overrides.
abbrev pub is_active : String → ModeManager → Bool
is_active name s = contains name s.base_names || contains name s.override_names

abbrev keep_or : Option String → String → String
keep_or none old = old
keep_or (some description) old = description

unfoldable pub update_mode_strategy :
    String → Strategy → Option SwitchSource → Option String → ModeManager → Method
update_mode_strategy name strategy source description s = elim (lookup name s.modes) [
  | none ↦ raised (mode_unknown name)
  | some old ↦
      let mode : ModeDefinition = record {
        name = name;
        strategy = strategy;
        priority = old.priority;
        description = keep_or description old.description;
      } in
      let s' = with_source source (record s { modes = insert name mode s.modes }) in
      ok (
        s',
        if is_active name s
            then on_deactivate old.strategy
              ∷ (on_activate strategy ∷ notify s.has_callback (some old.strategy) (some strategy))
            else [],
      )
]

unfoldable pub async_unregister : String → Option SwitchSource → ModeManager → Method
async_unregister name source s = elim (lookup name s.modes) [
  | none ↦ raised (mode_unknown name)
  | some mode ↦
      let (s', effects) = switch source s (forget name s) in
      ok (s', if is_active name s then on_deactivate mode.strategy ∷ effects else effects)
]

unfoldable pub push_override : String → Option SwitchSource → ModeManager → Method
push_override name source s =
    if not (member name s.modes)
    then raised (mode_unknown name)
    else if contains name s.override_names
    then raised (override_active name)
    else ok (switch source s (record s { override_names = s.override_names ++ name ∷ [] }))

unfoldable pub pop_override : String → Option SwitchSource → ModeManager → Method
pop_override name source s =
    if contains name s.override_names
    then ok (switch source s (record s { override_names = remove name s.override_names }))
    else raised (override_inactive name)

unfoldable pub clear_overrides : ModeManager → Method
clear_overrides s = ok (switch none s (record s { override_names = [] }))

-- The registered modes among some names, in their order.
unfoldable pub modes_of : Dict String ModeDefinition → List String → List ModeDefinition
modes_of modes [] = []
modes_of modes (n ∷ ns) = elim (lookup n modes) [
  | none ↦ modes_of modes ns
  | some m ↦ m ∷ modes_of modes ns
]

-- `sort(key=priority, reverse=True)`, which keeps the order of equals.
insert_mode : ModeDefinition → List ModeDefinition → List ModeDefinition
insert_mode m [] = m ∷ []
insert_mode m (x ∷ xs) = if leb_ℤ x.priority m.priority then m ∷ x ∷ xs else x ∷ insert_mode m xs

unfoldable pub sort_modes : List ModeDefinition → List ModeDefinition
unfolding insert_mode
sort_modes [] = []
sort_modes (m ∷ ms) = insert_mode m (sort_modes ms)

unfoldable pub base_mode_names : ModeManager → List String
base_mode_names s = map (λ m. m.name) (sort_modes (modes_of s.modes s.base_names))

unfoldable pub base_strategies : ModeManager → List Strategy
base_strategies s = map (λ m. m.strategy) (sort_modes (modes_of s.modes s.base_names))
