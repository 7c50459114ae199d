-- ===== src/Schedule.antt =====
-- The schedules, csp_lib/manager/schedule: rules (schema.py), their matching (matcher.py) and the
-- repository in memory (in_memory.py). A configuration is a number for its sorted JSON text, a date
-- a number of days, and a time of day its text "HH:MM", compared as Python compares texts.
pub mod Due
pub mod Ranked
pub mod Service
pub mod Following
mod Tests
use csp_lib.Base.{
  ℕ, String, Bool, true, false, not, ◌&&◌, ◌||◌, Option, none, some, List, [], ◌∷◌, filter,
  contains, ltb, if◌then◌else◌, ◌==◌, nat_equality, string_equality,
}
use csp_lib.Base.Int.{ℤ, leb_ℤ}
use csp_lib.Base.Sets.{text_leb}

pub data ScheduleType : Type 0 where
  once daily weekly : ScheduleType

pub data StrategyType : Type 0 where
  pq pv_smooth qv fp island bypass stop : StrategyType

pub record ScheduleRule : Type 0 where
  pub name : String
  pub site_id : String
  pub schedule_type : ScheduleType
  pub strategy_type : StrategyType
  pub strategy_config : ℕ
  pub start_time : String
  pub end_time : String
  pub priority : ℤ
  pub enabled : Bool
  pub days_of_week : List ℕ
  pub start_date : Option ℕ
  pub end_date : Option ℕ

-- `now` in the site's time zone: the text of the time, the weekday from Monday, and the date.
pub record Now : Type 0 where
  pub time : String
  pub weekday : ℕ
  pub date : ℕ

-- `matches_time`; a text is less where it is not at least.
unfoldable pub matches_time : ScheduleRule → String → Bool
matches_time r now_time_str =
    if text_leb r.start_time r.end_time
    then text_leb r.start_time now_time_str && text_leb now_time_str r.end_time
    else text_leb r.start_time now_time_str || text_leb now_time_str r.end_time

abbrev pub is_before : ℕ → Option ℕ → Bool
is_before date none = false
is_before date (some start) = ltb date start

abbrev pub is_after : ℕ → Option ℕ → Bool
is_after date none = false
is_after date (some end) = ltb end date

abbrev pub matches_type : ScheduleType → ScheduleRule → ℕ → ℕ → Bool
matches_type daily r now_weekday now_date = true
matches_type weekly r now_weekday now_date = contains now_weekday r.days_of_week
matches_type once r now_weekday now_date =
    not (is_before now_date r.start_date) && not (is_after now_date r.end_date)

-- `matches_schedule`.
unfoldable pub matches_schedule : ScheduleRule → ℕ → ℕ → Bool
matches_schedule r now_weekday now_date = matches_type r.schedule_type r now_weekday now_date

-- `upsert`: the rules are the values of the dict, whose keys are their sites and names.
unfoldable pub upsert : ScheduleRule → List ScheduleRule → List ScheduleRule
upsert r [] = r ∷ []
upsert r (x ∷ rules) =
    if r.site_id == x.site_id && r.name == x.name then r ∷ rules else x ∷ upsert r rules

-- `get_all_enabled`.
unfoldable pub get_all_enabled : String → List ScheduleRule → List ScheduleRule
get_all_enabled site rules = filter (λ r. r.site_id == site && r.enabled) rules

unfoldable pub insert_rule : ScheduleRule → List ScheduleRule → List ScheduleRule
insert_rule r [] = r ∷ []
insert_rule r (x ∷ rules) =
    if leb_ℤ x.priority r.priority then r ∷ x ∷ rules else x ∷ insert_rule r rules

-- `matched.sort(key=lambda r: r.priority, reverse=True)`, which keeps the order of equals.
unfoldable pub sort_rules : List ScheduleRule → List ScheduleRule
unfolding insert_rule
sort_rules [] = []
sort_rules (r ∷ rules) = insert_rule r (sort_rules rules)

abbrev pub is_matched : Now → ScheduleRule → Bool
is_matched now r = matches_time r now.time && matches_schedule r now.weekday now.date

-- `find_active_rules`.
unfoldable pub find_active_rules : String → Now → List ScheduleRule → List ScheduleRule
unfolding get_all_enabled sort_rules
find_active_rules site now rules = sort_rules (filter (is_matched now) (get_all_enabled site rules))
