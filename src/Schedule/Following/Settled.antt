-- ===== src/Schedule/Following/Settled.antt =====
-- What rounds of the schedule service lead to (csp_lib/manager/schedule/service.py).
use csp_lib.Base.{
  All, subst, ℕ, true, false, ◌≡◌, refl, sym, ap, ◌∙◌, inl, inr, none, some, List, [], ◌∷◌,
  nat_equality, string_equality, if◌then◌else◌, arith, Option-cases,
}
use csp_lib.Schedule.{StrategyType, ScheduleRule}
use csp_lib.Schedule.Service.{
  no_match, deactivated, unchanged, make_rule_key, is_current, Service, Factory, acted, Fate, goes,
  callback_raises, activate_schedule_mode, deactivate_schedule_mode, concluded, activated,
  withdrawn, reconcile_work, after,
}
use csp_lib.Schedule.Following.{
  Tracks, Polled, run_polls, same_key_refl, same_rule, new_rule, run_polls-IsTracked,
}

abbrev pub fresh : Service
fresh = record {
  current_rule_key = none;
  controller = record { registered = none; in_base = false };
}

-- After any rounds from a new service, of a node that leads now and then, with any rules, where no
-- call of the controller raised: the schedule mode is a base mode exactly when a rule is current,
-- and then it has a strategy that the factory makes from that rule's configuration. And from any
-- state at all, so after calls that raised too, a round whose call goes through, with a first rule
-- that is not current and whose strategy the factory makes, makes this rule current and the mode a
-- base mode with this strategy, and a next round with the same rules changes nothing.
pub run_polls-Tracks :
    (factory : Factory) (ps : List Polled)
    → All (λ p. p.fate ≡ goes) ps
    → (let s = run_polls factory ps fresh in
        Tracks factory s.current_rule_key s.controller
        × ((t : Service) (r : ScheduleRule) (rules : List ScheduleRule) (strategy : ℕ) (fate : Fate)
            → is_current (make_rule_key r) t.current_rule_key ≡ false
            → factory r.strategy_type r.strategy_config ≡ some strategy
            → (let t' = after (reconcile_work factory (r ∷ rules) goes t) in
                (t' ≡ record {
                  current_rule_key = some (make_rule_key r);
                  controller = record { registered = some strategy; in_base = true };
                })
                × (reconcile_work factory (r ∷ rules) fate t' ≡ acted unchanged t'))))
run_polls-Tracks factory ps g = (
  run_polls-IsTracked factory ps fresh g refl,
  λ t r rules x fate f m.
      let e = ap after (new_rule factory r rules t x f m) in
      (
        e,
        same_rule factory r rules fate (after (reconcile_work factory (r ∷ rules) goes t)) (
            ap (λ s. is_current (make_rule_key r) s.current_rule_key) e
            ∙ same_key_refl (make_rule_key r)),
      ),
)

-- Where the callback raises as the schedule mode is taken off, the mode is off and its rule stays
-- current, so that no later round with this rule in front runs it again.
pub raised_deactivation_forgotten :
    (factory : Factory) (r : ScheduleRule) (rules : List ScheduleRule) (fate : Fate) (s : Service)
    → is_current (make_rule_key r) s.current_rule_key ≡ true
    → s.controller.in_base ≡ true
    → (let s' = after (reconcile_work factory [] callback_raises s) in
        (s'.controller.in_base ≡ false)
        × (reconcile_work factory (r ∷ rules) fate s' ≡ acted unchanged s'))
unfolding reconcile_work deactivate_schedule_mode
raised_deactivation_forgotten factory r rules fate s t b = elim (Option-cases s.current_rule_key) [
  | inl n ↦ absurd (ground (arith, n, t))
  | inr (k, e) ↦
      let off : Service = record s { controller = record s.controller { in_base = false } } in
      let taken : after (reconcile_work factory [] callback_raises s) ≡ off =
        ap (λ o. after (withdrawn o callback_raises s)) e
        ∙ ap
            (λ q. after (
              concluded deactivated none
                (if q
                  then (record s.controller { in_base = false }, false)
                  else (s.controller, true))
                s))
            b in
      subst
        (λ x.
          (x.controller.in_base ≡ false)
          × (reconcile_work factory (r ∷ rules) fate x ≡ acted unchanged x))
        (sym taken) (refl, same_rule factory r rules fate off t)
]

-- Where the callback raises as the schedule mode is started, the mode stays a base mode with no
-- rule current, and no later round without rules takes it off.
pub raised_activation_lingers :
    (factory : Factory) (r : ScheduleRule) (rules : List ScheduleRule) (x : ℕ) (fate : Fate)
    → factory r.strategy_type r.strategy_config ≡ some x
    → (let s' = after (reconcile_work factory (r ∷ rules) callback_raises fresh) in
        (s'.controller.in_base ≡ true) × (reconcile_work factory [] fate s' ≡ acted no_match s'))
unfolding reconcile_work activate_schedule_mode
raised_activation_lingers factory r rules x fate m =
    let on : Service = record {
      current_rule_key = none;
      controller = record { registered = some x; in_base = true };
    } in
    let started : after (reconcile_work factory (r ∷ rules) callback_raises fresh) ≡ on =
      ap (λ o. after (activated r o callback_raises fresh)) m in
    subst
      (λ s. (s.controller.in_base ≡ true) × (reconcile_work factory [] fate s ≡ acted no_match s))
      (sym started) (refl, refl)

-- A rule's key leaves out the type of its strategy: where a rule is current, the rule with any
-- other type of strategy in its place is taken for it, and the strategy of the old type stays.
pub type_change_unnoticed :
    (factory : Factory) (r : ScheduleRule) (rules : List ScheduleRule) (type : StrategyType)
    (fate : Fate) (s : Service)
    → is_current (make_rule_key r) s.current_rule_key ≡ true
    → reconcile_work factory (record r { strategy_type = type } ∷ rules) fate s ≡ acted unchanged s
unfolding reconcile_work make_rule_key
type_change_unnoticed factory r rules type fate s h =
    ap
      (λ b.
        if b
        then acted unchanged s
        else activated (record r { strategy_type = type }) (factory type r.strategy_config) fate s)
      h
