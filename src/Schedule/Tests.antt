-- ===== src/Schedule/Tests.antt =====
-- Runs of the schedule model on concrete rules, and its theorems at them.
use csp_lib.Base.{
  String, if◌then◌else◌, arith, ℕ, ◌≡◌, refl, true, false, none, some, List, [], ◌∷◌, ◌==◌, ◌↔◌,
  string_equality,
}
use csp_lib.Base.Int.{pos}
use csp_lib.Schedule.{ScheduleRule, daily, pq, Now, find_active_rules}
use csp_lib.Base.Sets.{lex_leb}
use csp_lib.Schedule.Due.{IsTimed, IsDue}
use csp_lib.Schedule.Ranked.{IsIn, IsRanked, find_active_rules-IsRanked}
use csp_lib.Schedule.Service.{
  Service, Factory, Fate, goes, acted, unchanged, make_rule_key, is_current, reconcile_work, after,
}
use csp_lib.Schedule.Following.{Tracks, Polled, run_polls}
use csp_lib.Schedule.Following.Settled.{fresh, run_polls-Tracks}

abbrev night : ScheduleRule
night = record {
  name = "night";
  site_id = "s1";
  schedule_type = daily;
  strategy_type = pq;
  strategy_config = 1;
  start_time = "22:00";
  end_time = "06:00";
  priority = pos 2;
  enabled = true;
  days_of_week = [];
  start_date = none;
  end_date = none;
}

abbrev midnight : Now
midnight = record { time = "00:30"; weekday = 1; date = 100 }

abbrev minutes : String → ℕ
minutes t = if t == "22:00" then 1320 else if t == "06:00" then 360 else 30

night-IsTimed : IsTimed minutes midnight night
unfolding lex_leb
night-IsTimed = record {
  of_day = omega arith;
  window = record { ordered = refl; of_day = omega arith };
  opening = record { ordered = refl; of_day = omega arith };
  closing = refl;
}

find_active_rules-IsRanked_example :
    IsRanked (find_active_rules "s1" midnight (night ∷ []))
    × ((r : ScheduleRule)
        → IsIn r (find_active_rules "s1" midnight (night ∷ [])) ↔ (
            IsIn r (night ∷ [])
            × (r.site_id ≡ "s1")
            × (r.enabled ≡ true)
            × IsDue minutes midnight r))
find_active_rules-IsRanked_example =
    find_active_rules-IsRanked minutes "s1" midnight (night ∷ []) (night-IsTimed, tt)

abbrev maker : Factory
maker type config = some config

abbrev polls : List Polled
polls =
    record { is_leader = false; rules = night ∷ []; fate = goes }
    ∷ record { is_leader = true; rules = night ∷ []; fate = goes }
    ∷ []

run_polls-Tracks_example :
    let s = run_polls maker polls fresh in
    Tracks maker s.current_rule_key s.controller
    × ((t : Service) (r : ScheduleRule) (rules : List ScheduleRule) (strategy : ℕ) (fate : Fate)
        → is_current (make_rule_key r) t.current_rule_key ≡ false
        → maker r.strategy_type r.strategy_config ≡ some strategy
        → (let t' = after (reconcile_work maker (r ∷ rules) goes t) in
            (t' ≡ record {
              current_rule_key = some (make_rule_key r);
              controller = record { registered = some strategy; in_base = true };
            })
            × (reconcile_work maker (r ∷ rules) fate t' ≡ acted unchanged t')))
run_polls-Tracks_example = run_polls-Tracks maker polls (refl, (refl, tt))
