-- ===== src/Schedule/Service.antt =====
-- `ScheduleService` (csp_lib/manager/schedule/service.py), and the two calls of the system controller
-- that it makes (csp_lib/integration/system_controller.py), on what they do to the schedule's mode
-- (csp_lib/controller/system/mode.py). The factory is outside, and makes a strategy or nothing. A
-- rule's key is kept as its parts, which Python joins to a text.
use csp_lib.Base.{
  ℕ, String, Bool, true, false, ◌&&◌, Option, none, some, List, [], ◌∷◌, if◌then◌else◌, ◌==◌,
  nat_equality, string_equality,
}
use csp_lib.Base.Int.{ℤ, leb_ℤ}
use csp_lib.Schedule.{ScheduleType, once, daily, weekly, StrategyType, ScheduleRule}

pub data ScheduleAction : Type 0 where
  no_match deactivated unchanged switched factory_failed : ScheduleAction

-- `_make_rule_key`.
pub record RuleKey : Type 0 where
  pub name : String
  pub schedule_type : ScheduleType
  pub priority : ℤ
  pub config : ℕ

unfoldable pub make_rule_key : ScheduleRule → RuleKey
make_rule_key r = record {
  name = r.name;
  schedule_type = r.schedule_type;
  priority = r.priority;
  config = r.strategy_config;
}

abbrev pub same_schedule : ScheduleType → ScheduleType → Bool
same_schedule once once = true
same_schedule daily daily = true
same_schedule weekly weekly = true
same_schedule once daily = false
same_schedule once weekly = false
same_schedule daily once = false
same_schedule daily weekly = false
same_schedule weekly once = false
same_schedule weekly daily = false

abbrev pub same_key : RuleKey → RuleKey → Bool
same_key k l =
    k.name == l.name
    && same_schedule k.schedule_type l.schedule_type
    && (leb_ℤ k.priority l.priority && leb_ℤ l.priority k.priority)
    && k.config == l.config

abbrev pub is_current : RuleKey → Option RuleKey → Bool
is_current k none = false
is_current k (some l) = same_key k l

-- The mode `__schedule__` of the mode manager: the strategy it is registered with, and whether it
-- stands among the base modes. It is no override, and nothing else changes it.
pub record Controller : Type 0 where
  pub registered : Option ℕ
  pub in_base : Bool

-- Where a call of the controller raises, if it comes there: in the old strategy's `on_deactivate`,
-- in the new one's `on_activate`, or in the callback that is told of a change.
pub data Fate : Type 0 where
  goes deactivation_raises activation_raises callback_raises : Fate

abbrev pub tells : Fate → Bool
tells goes = true
tells deactivation_raises = true
tells activation_raises = true
tells callback_raises = false

-- `update_mode_strategy` of the mode while it is a base mode; with whether it returned.
abbrev pub updated : ℕ → Fate → Controller → Controller × Bool
updated x goes c = (record c { registered = some x }, true)
updated x deactivation_raises c = (c, false)
updated x activation_raises c = (record c { registered = some x }, false)
updated x callback_raises c = (record c { registered = some x }, false)

abbrev pub activate_as : Option ℕ → ℕ → Fate → Controller → Controller × Bool
activate_as none x fate c = (record { registered = some x; in_base = true }, tells fate)
activate_as (some old) x fate c =
    if c.in_base
    then updated x fate c
    else (record { registered = some x; in_base = true }, tells fate)

-- `activate_schedule_mode`. A mode that is no base mode is updated with no call of a strategy or of
-- the callback, and is added before the callback is told.
unfoldable pub activate_schedule_mode : ℕ → Fate → Controller → Controller × Bool
activate_schedule_mode x fate c = activate_as c.registered x fate c

-- `deactivate_schedule_mode`, which takes the mode off before the callback is told.
unfoldable pub deactivate_schedule_mode : Fate → Controller → Controller × Bool
deactivate_schedule_mode fate c =
    if c.in_base then (record c { in_base = false }, tells fate) else (c, true)

pub record Service : Type 0 where
  pub current_rule_key : Option RuleKey
  pub controller : Controller

abbrev pub Factory : Type 0
Factory = StrategyType → ℕ → Option ℕ

-- A round with its action, or where the controller raised.
pub data Round : Type 0 where
  acted : ScheduleAction → Service → Round
  raised : Service → Round

-- The key is set once the controller's call returned.
abbrev pub concluded : ScheduleAction → Option RuleKey → Controller × Bool → Service → Round
concluded action key (c, true) s = acted action (record { current_rule_key = key; controller = c })
concluded action key (c, false) s = raised (record s { controller = c })

abbrev pub activated : ScheduleRule → Option ℕ → Fate → Service → Round
activated r none fate s = acted factory_failed s
activated r (some strategy) fate s =
    concluded switched (some (make_rule_key r)) (activate_schedule_mode strategy fate s.controller)
      s

abbrev pub withdrawn : Option RuleKey → Fate → Service → Round
withdrawn none fate s = acted no_match s
withdrawn (some k) fate s =
    concluded deactivated none (deactivate_schedule_mode fate s.controller) s

-- `_reconcile_work`, with the rules that are active and the fate of the controller's call.
unfoldable pub reconcile_work : Factory → List ScheduleRule → Fate → Service → Round
unfolding make_rule_key activate_schedule_mode deactivate_schedule_mode
reconcile_work factory [] fate s = withdrawn s.current_rule_key fate s
reconcile_work factory (r ∷ rules) fate s =
    if is_current (make_rule_key r) s.current_rule_key
    then acted unchanged s
    else activated r (factory r.strategy_type r.strategy_config) fate s

-- `reconcile_once` swallows the exception.
abbrev pub after : Round → Service
after (acted action s) = s
after (raised s) = s

-- A round of `_poll_loop`, of a node that leads or not.
unfoldable pub poll : Factory → Bool → List ScheduleRule → Fate → Service → Service
unfolding reconcile_work
poll factory is_leader rules fate s =
    if is_leader then after (reconcile_work factory rules fate s) else s
