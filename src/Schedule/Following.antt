-- ===== src/Schedule/Following.antt =====
-- How the schedule mode follows the rules (csp_lib/manager/schedule/service.py).
pub mod Settled
use csp_lib.Base.{
  All, subst, ℕ, Bool, true, false, ◌≡◌, refl, sym, ap, ◌∙◌, inl, inr, Option, none, some, List, [],
  ◌∷◌, ==_refl, nat_equality, string_equality, if◌then◌else◌, arith, Bool-cases, Option-cases,
}
use csp_lib.Schedule.{ScheduleType, once, daily, weekly, StrategyType, ScheduleRule}
use csp_lib.Schedule.Service.{
  no_match, deactivated, unchanged, switched, factory_failed, RuleKey, make_rule_key, same_schedule,
  same_key, is_current, Service, Factory, acted, raised, Controller, Fate, goes, callback_raises,
  activate_schedule_mode, deactivate_schedule_mode, concluded, activated, withdrawn, reconcile_work,
  after, poll,
}

-- The schedule mode is a base mode exactly when a rule is current, and then it has a strategy that
-- the factory makes from the configuration in the rule's key, for some type of strategy.
abbrev pub Tracks : Factory → Option RuleKey → Controller → Type 0
Tracks factory none c = c.in_base ≡ false
Tracks factory (some k) c =
    (c.in_base ≡ true)
    × (type : StrategyType) × (strategy : ℕ) × (factory type k.config ≡ some strategy)
    × (c.registered ≡ some strategy)

pub record Polled : Type 0 where
  pub is_leader : Bool
  pub rules : List ScheduleRule
  pub fate : Fate

unfoldable pub run_polls : Factory → List Polled → Service → Service
run_polls factory [] s = s
run_polls factory (p ∷ ps) s = run_polls factory ps (poll factory p.is_leader p.rules p.fate s)

same_key_refl : (k : RuleKey) → same_key k k ≡ true
same_key_refl k = ground (arith, ==_refl k.name, ==_refl k.config, of_type k.schedule_type)
  where
    of_type : (t : ScheduleType) → same_schedule t t ≡ true
    of_type once = refl
    of_type daily = refl
    of_type weekly = refl

activates :
    (x : ℕ) (c : Controller)
    → activate_schedule_mode x goes c ≡ (record { registered = some x; in_base = true }, true)
unfolding activate_schedule_mode
activates x c = ground arith

withdraws :
    (c : Controller)
    → deactivate_schedule_mode goes c
      ≡ (record { registered = c.registered; in_base = false }, true)
unfolding deactivate_schedule_mode
withdraws c = ground arith

-- A round whose call goes through, in the four cases.
none_due :
    (factory : Factory) (s : Service)
    → s.current_rule_key ≡ none
    → reconcile_work factory [] goes s ≡ acted no_match s
unfolding reconcile_work
none_due factory s n = ap (λ o. withdrawn o goes s) n

all_gone :
    (factory : Factory) (k : RuleKey) (s : Service)
    → s.current_rule_key ≡ some k
    → reconcile_work factory [] goes s
      ≡ acted deactivated (record {
        current_rule_key = none;
        controller = record { registered = s.controller.registered; in_base = false };
      })
unfolding reconcile_work
all_gone factory k s e =
    ap (λ o. withdrawn o goes s) e
    ∙ ap (λ q. concluded deactivated none q s) (withdraws s.controller)

same_rule :
    (factory : Factory) (r : ScheduleRule) (rules : List ScheduleRule) (fate : Fate) (s : Service)
    → is_current (make_rule_key r) s.current_rule_key ≡ true
    → reconcile_work factory (r ∷ rules) fate s ≡ acted unchanged s
unfolding reconcile_work make_rule_key
same_rule factory r rules fate s t = rw t refl

new_rule :
    (factory : Factory) (r : ScheduleRule) (rules : List ScheduleRule) (s : Service) (x : ℕ)
    → is_current (make_rule_key r) s.current_rule_key ≡ false
    → factory r.strategy_type r.strategy_config ≡ some x
    → reconcile_work factory (r ∷ rules) goes s
      ≡ acted switched (record {
        current_rule_key = some (make_rule_key r);
        controller = record { registered = some x; in_base = true };
      })
unfolding reconcile_work make_rule_key
new_rule factory r rules s x f m =
    ap
      (λ b.
        if b
        then acted unchanged s
        else activated r (factory r.strategy_type r.strategy_config) goes s)
      f
    ∙ ap (λ o. activated r o goes s) m
    ∙ ap (λ q. concluded switched (some (make_rule_key r)) q s) (activates x s.controller)

not_made :
    (factory : Factory) (r : ScheduleRule) (rules : List ScheduleRule) (fate : Fate) (s : Service)
    → is_current (make_rule_key r) s.current_rule_key ≡ false
    → factory r.strategy_type r.strategy_config ≡ none
    → reconcile_work factory (r ∷ rules) fate s ≡ acted factory_failed s
unfolding reconcile_work make_rule_key
not_made factory r rules fate s f n =
    ap
      (λ b.
        if b
        then acted unchanged s
        else activated r (factory r.strategy_type r.strategy_config) fate s)
      f
    ∙ ap (λ o. activated r o fate s) n

key_config :
    (factory : Factory) (r : ScheduleRule) (x : ℕ)
    → factory r.strategy_type r.strategy_config ≡ some x
    → factory r.strategy_type (make_rule_key r).config ≡ some x
unfolding make_rule_key
key_config factory r x m = m

abbrev IsTracked : Factory → Service → Type 0
IsTracked factory s = Tracks factory s.current_rule_key s.controller

work-Tracks :
    (factory : Factory) (rules : List ScheduleRule) (s : Service)
    → IsTracked factory s
    → IsTracked factory (after (reconcile_work factory rules goes s))
work-Tracks factory [] s h = elim (Option-cases s.current_rule_key) [
  | inl n ↦ subst (λ x. IsTracked factory (after x)) (sym (none_due factory s n)) h
  | inr (k, e) ↦ subst (λ x. IsTracked factory (after x)) (sym (all_gone factory k s e)) refl
]
work-Tracks factory (r ∷ rules) s h =
    elim (Bool-cases (is_current (make_rule_key r) s.current_rule_key)) [
      | inl t ↦
          subst (λ x. IsTracked factory (after x)) (sym (same_rule factory r rules goes s t)) h
      | inr f ↦ elim (Option-cases (factory r.strategy_type r.strategy_config)) [
        | inl n ↦
            subst (λ x. IsTracked factory (after x)) (sym (not_made factory r rules goes s f n)) h
        | inr (x, m) ↦
            subst (λ x. IsTracked factory (after x)) (sym (new_rule factory r rules s x f m))
              (refl, r.strategy_type, x, key_config factory r x m, refl)
      ]
    ]

run_polls-IsTracked :
    (factory : Factory) (ps : List Polled) (s : Service)
    → All (λ p. p.fate ≡ goes) ps
    → IsTracked factory s
    → IsTracked factory (run_polls factory ps s)
unfolding run_polls poll
run_polls-IsTracked factory [] s g h = h
run_polls-IsTracked factory (p ∷ ps) s g h =
    run_polls-IsTracked factory ps (poll factory p.is_leader p.rules p.fate s) g.1 (
      subst (λ fate. IsTracked factory (poll factory p.is_leader p.rules fate s)) (sym g.0)
        (polled p.is_leader))
  where
    polled :
        (b : Bool)
        → IsTracked factory (if b then after (reconcile_work factory p.rules goes s) else s)
    polled true = work-Tracks factory p.rules s h
    polled false = h
