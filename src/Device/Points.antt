-- ===== src/Device/Points.antt =====
-- The points of `AsyncModbusDevice` (csp_lib/equipment/device/base.py): which are disabled, what a
-- read makes of the latest values, and `write` and the digital outputs (mixins.py). A value is a
-- number for the object; which of them are floats that are not finite is a parameter.
pub mod Latest
pub mod Rejected
pub mod Writes
use csp_lib.Base.{
  ℕ, String, Bool, true, false, not, ◌&&◌, ◌||◌, Option, none, some, List, [], ◌∷◌, ◌++◌, map,
  filter, contains, remove, if◌then◌else◌, ◌==◌, nat_equality, string_equality,
}
use csp_lib.Base.Dict.{Dict, keys, lookup, member, insert}
use csp_lib.Base.Sets.{add}

pub record ReadPoint : Type 0 where
  pub name : String
  pub reject_non_finite : Bool

pub record Points : Type 0 where
  pub read_points_always : List ReadPoint
  pub read_points_rotating : List (List ReadPoint)
  pub write_points : List String
  pub disabled_points : List String
  pub latest_values : Dict String ℕ

pub data PointEvent : Type 0 where
  point_toggled : String → Bool → PointEvent
  value_change : String → Option ℕ → ℕ → PointEvent
  write_complete : String → ℕ → PointEvent
  write_error : String → ℕ → PointEvent

abbrev pub names_of : List ReadPoint → List String
names_of ps = map (λ p. p.name) ps

abbrev pub rotating_names : List (List ReadPoint) → List String
rotating_names [] = []
rotating_names (g ∷ gs) = names_of g ++ rotating_names gs

-- `all_point_names`.
unfoldable pub all_point_names : Points → List String
all_point_names s =
    names_of s.read_points_always ++ rotating_names s.read_points_rotating ++ s.write_points

-- `enable_point` and `disable_point`; `none` is a `KeyError`.
unfoldable pub enable_point : String → Points → Option (Points × List PointEvent)
unfolding all_point_names
enable_point name s =
    if contains name (all_point_names s)
    then some
        (record s { disabled_points = remove name s.disabled_points }, point_toggled name true ∷ [])
    else none

unfoldable pub disable_point : String → Points → Option (Points × List PointEvent)
unfolding all_point_names
disable_point name s =
    if contains name (all_point_names s)
    then some
        (record s { disabled_points = add name s.disabled_points }, point_toggled name false ∷ [])
    else none

-- `is_point_enabled`.
unfoldable pub is_point_enabled : String → Points → Bool
is_point_enabled name s = not (contains name s.disabled_points)

-- The points of a `ReconfigureSpec`; `none` keeps what there is.
pub record ReconfigureSpec : Type 0 where
  pub always_points : Option (List ReadPoint)
  pub rotating_points : Option (List (List ReadPoint))
  pub new_write_points : Option (List String)

abbrev pub or_kept {ℓ} : {A : Type ℓ} → Option A → A → A
or_kept none x = x
or_kept (some y) x = y

-- `reconfigure`: the points, then the disabled ones among them.
unfoldable pub reconfigure : ReconfigureSpec → Points → Points
unfolding all_point_names
reconfigure spec s =
    let s₁ = record s {
      read_points_always = or_kept spec.always_points s.read_points_always;
      read_points_rotating = or_kept spec.rotating_points s.read_points_rotating;
      write_points = or_kept spec.new_write_points s.write_points;
    } in
    record s₁ { disabled_points = filter (λ n. contains n (all_point_names s₁)) s₁.disabled_points }

-- `_build_read_point_lookup`: the first rotating point of a name, unless there are always read
-- points of the name, of which the last counts.
abbrev pub set_points : List ReadPoint → Dict String ReadPoint → Dict String ReadPoint
set_points [] d = d
set_points (p ∷ ps) d = set_points ps (insert p.name p d)

abbrev pub set_defaults : List ReadPoint → Dict String ReadPoint → Dict String ReadPoint
set_defaults [] d = d
set_defaults (p ∷ ps) d = set_defaults ps (if member p.name d then d else insert p.name p d)

abbrev pub set_groups : List (List ReadPoint) → Dict String ReadPoint → Dict String ReadPoint
set_groups [] d = d
set_groups (g ∷ gs) d = set_groups gs (set_defaults g d)

unfoldable pub build_read_point_lookup : Points → Dict String ReadPoint
build_read_point_lookup s = set_groups s.read_points_rotating (set_points s.read_points_always [])

abbrev pub rejects : Option ReadPoint → Bool
rejects none = false
rejects (some p) = p.reject_non_finite

abbrev pub any_rejects : Dict String ReadPoint → Bool
any_rejects [] = false
any_rejects (e ∷ d) = e.1.reject_non_finite || any_rejects d

module _ (is_non_finite : ℕ → Bool) (same : ℕ → ℕ → Bool) where
  -- `_should_reject_non_finite`.
  unfoldable pub should_reject_non_finite : String → ℕ → Points → Bool
  unfolding build_read_point_lookup
  should_reject_non_finite name v s =
      let points = build_read_point_lookup s in
      any_rejects points && rejects (lookup name points) && is_non_finite v

  abbrev pub changes : Option ℕ → ℕ → Bool
  changes none v = true
  changes (some old) v = not (same old v)

  abbrev pub with_value : String → ℕ → Points → Points
  with_value name v s = record s { latest_values = insert name v s.latest_values }

  -- `_process_values`.
  unfoldable pub process_values : Dict String ℕ → Points → Points × List PointEvent
  unfolding should_reject_non_finite
  process_values [] s = (s, [])
  process_values (e ∷ values) s =
      let skipped = contains e.0 s.disabled_points || should_reject_non_finite e.0 e.1 s in
      let old = lookup e.0 s.latest_values in
      let (s₁, es) = process_values values (if skipped then s else with_value e.0 e.1 s) in
      (s₁, if not skipped && changes old e.1 then value_change e.0 old e.1 ∷ es else es)

  abbrev pub or_value : Option ℕ → ℕ → ℕ
  or_value none v = v
  or_value (some old) v = old

  -- `_resolve_effective_values`.
  unfoldable pub resolve_effective_values : Dict String ℕ → Points → Dict String ℕ
  unfolding should_reject_non_finite
  resolve_effective_values [] s = []
  resolve_effective_values (e ∷ values) s =
      (
        e.0,
        if should_reject_non_finite e.0 e.1 s
            then or_value (lookup e.0 s.latest_values) e.1
            else e.1,
      )
      ∷ resolve_effective_values values s

-- `WriteStatus`, without the statuses that only the writer gives.
pub data WriteStatus : Type 0 where
  success validation_failed : WriteStatus
  failed : ℕ → WriteStatus

-- The result of `ValidatedWriter.write` for a point and a value.
abbrev pub Writer : Type 0
Writer = String → ℕ → WriteStatus

-- A call of the writer.
abbrev pub Sent : Type 0
Sent = List (String × ℕ)

pub record Written : Type 0 where
  pub status : WriteStatus
  pub sent : Sent
  pub events : List PointEvent

abbrev pub report : WriteStatus → String → ℕ → PointEvent
report success name v = write_complete name v
report validation_failed name v = write_error name v
report (failed n) name v = write_error name v

-- `write`.
unfoldable pub write : Writer → String → ℕ → Points → Written
write writer name v s =
    if contains name s.disabled_points
    then record { status = validation_failed; sent = []; events = [] }
    else if contains name s.write_points
    then record {
      status = writer name v;
      sent = (name, v) ∷ [];
      events = report (writer name v) name v ∷ [];
    }
    else record { status = validation_failed; sent = []; events = [] }

pub data DoMode : Type 0 where
  sustained toggle pulse : DoMode

pub record DoActionConfig : Type 0 where
  pub label : String
  pub point_name : String
  pub mode : DoMode
  pub on_value : ℕ
  pub off_value : ℕ

-- The result of an action, the latest values after it, and whether a pulse is to be ended.
pub record Acted : Type 0 where
  pub written : Written
  pub points : Points
  pub pulse_task : Bool

abbrev pub is_success : WriteStatus → Bool
is_success success = true
is_success validation_failed = false
is_success (failed n) = false

abbrev pub toggled : (ℕ → ℕ → Bool) → DoActionConfig → Option ℕ → ℕ
toggled same c none = if same c.off_value c.on_value then c.off_value else c.on_value
toggled same c (some current) = if same current c.on_value then c.off_value else c.on_value

abbrev pub act : (ℕ → ℕ → Bool) → Writer → DoMode → DoActionConfig → Bool → Points → Acted
act same writer sustained c turn_off s = record {
  written = write writer c.point_name (if turn_off then c.off_value else c.on_value) s;
  points = s;
  pulse_task = false;
}
act same writer toggle c turn_off s =
    let v = toggled same c (lookup c.point_name s.latest_values) in
    let w = write writer c.point_name v s in
    record {
      written = w;
      points =
          if is_success w.status
          then record s { latest_values = insert c.point_name v s.latest_values }
          else s;
      pulse_task = false;
    }
act same writer pulse c turn_off s =
    let w = write writer c.point_name c.on_value s in
    record { written = w; points = s; pulse_task = is_success w.status }

-- `execute_do_action`, of an action that is configured; an unknown label is a `ValueError`.
unfoldable pub execute_do_action :
    (ℕ → ℕ → Bool) → Writer → Dict String DoActionConfig → String → Bool → Points → Option Acted
unfolding write
execute_do_action same writer actions label turn_off s = acted (lookup label actions)
  where
    acted : Option DoActionConfig → Option Acted
    acted none = none
    acted (some c) = some (act same writer c.mode c turn_off s)
