-- ===== src/Schedule/Ranked.antt =====
-- The rules that are found (csp_lib/manager/schedule/in_memory.py).
use csp_lib.Base.{
  ℕ, All, String, Bool, true, false, ◌&&◌, ◌≡◌, sym, ap, ◌∙◌, ◌⊎◌, ◌↔◌, inl, inr, List, [], ◌∷◌,
  filter, ◌==◌, string_equality, arith, Bool-cases, subst,
}
use csp_lib.Base.Int.{leb_ℤ}
use csp_lib.Schedule.Due.{IsTimed, IsDue, is_matched_lem}
use csp_lib.Schedule.{
  ScheduleRule, Now, is_matched, get_all_enabled, insert_rule, sort_rules, find_active_rules,
}

abbrev pub IsIn : ScheduleRule → List ScheduleRule → Type 0
IsIn r [] = ⊥
IsIn r (x ∷ rules) = (r ≡ x) ⊎ IsIn r rules

-- The priorities do not ascend.
abbrev pub IsRanked : List ScheduleRule → Type 0
IsRanked [] = Unit
IsRanked (x ∷ rules) =
    ((r : ScheduleRule) → IsIn r rules → leb_ℤ r.priority x.priority ≡ true) × IsRanked rules

swapped :
    (r x y : ScheduleRule) (rules new_rules : List ScheduleRule)
    → IsIn r new_rules ↔ IsIn r (x ∷ rules)
    → IsIn r (y ∷ new_rules) ↔ IsIn r (x ∷ y ∷ rules)
swapped r x y rules new_rules (there, back) = (onto, from)
  where
    moved : (r ≡ x) ⊎ IsIn r rules → IsIn r (x ∷ y ∷ rules)
    moved (inl e) = inl e
    moved (inr h) = inr (inr h)

    onto : IsIn r (y ∷ new_rules) → IsIn r (x ∷ y ∷ rules)
    onto (inl e) = inr (inl e)
    onto (inr h) = moved (there h)

    from : IsIn r (x ∷ y ∷ rules) → IsIn r (y ∷ new_rules)
    from (inl e) = inr (back (inl e))
    from (inr (inl e)) = inl e
    from (inr (inr h)) = inr (back (inr h))

insert_rule-IsIn :
    (r x : ScheduleRule) (rules : List ScheduleRule)
    → IsIn r (insert_rule x rules) ↔ IsIn r (x ∷ rules)
unfolding insert_rule
insert_rule-IsIn r x [] = (λ h. h, λ h. h)
insert_rule-IsIn r x (y ∷ rules) = elim (Bool-cases (leb_ℤ y.priority x.priority)) [
  | inl t ↦ rw t (λ h. h, λ h. h)
  | inr f ↦ rw f (swapped r x y rules (insert_rule x rules) (insert_rule-IsIn r x rules))
]

sort_rules-IsIn :
    (r : ScheduleRule) (rules : List ScheduleRule) → IsIn r (sort_rules rules) ↔ IsIn r rules
unfolding sort_rules
sort_rules-IsIn r [] = (λ h. h, λ h. h)
sort_rules-IsIn r (x ∷ rules) =
    let (there, back) = insert_rule-IsIn r x (sort_rules rules) in
    let (on, off) = sort_rules-IsIn r rules in
    (λ h. lift _ _ on (there h), λ h. back (lift _ _ off h))
  where
    lift : (xs ys : List ScheduleRule) → (IsIn r xs → IsIn r ys) → IsIn r (x ∷ xs) → IsIn r (x ∷ ys)
    lift xs ys f (inl e) = inl e
    lift xs ys f (inr h) = inr (f h)

insert_rule-IsRanked :
    (x : ScheduleRule) (rules : List ScheduleRule) → IsRanked rules → IsRanked (insert_rule x rules)
unfolding insert_rule
insert_rule-IsRanked x [] h = (λ r k. elim k [ ], tt)
insert_rule-IsRanked x (y ∷ rules) (a, h) = elim (Bool-cases (leb_ℤ y.priority x.priority)) [
  | inl t ↦ rw t (below t, (a, h))
  | inr f ↦
      rw f (λ r k. above f r ((insert_rule-IsIn r x rules).0 k), insert_rule-IsRanked x rules h)
]
  where
    below :
        leb_ℤ y.priority x.priority ≡ true
        → (r : ScheduleRule) → IsIn r (y ∷ rules)
        → leb_ℤ r.priority x.priority ≡ true
    below t r (inl e) = subst (λ z. leb_ℤ z.priority x.priority ≡ true) (sym e) t
    below t r (inr k) = ground (arith, t, a r k)

    above :
        leb_ℤ y.priority x.priority ≡ false
        → (r : ScheduleRule) → IsIn r (x ∷ rules)
        → leb_ℤ r.priority y.priority ≡ true
    above f r (inl e) = subst (λ z. leb_ℤ z.priority y.priority ≡ true) (sym e) (ground (arith, f))
    above f r (inr k) = a r k

sort_rules-IsRanked : (rules : List ScheduleRule) → IsRanked (sort_rules rules)
unfolding sort_rules
sort_rules-IsRanked [] = tt
sort_rules-IsRanked (x ∷ rules) =
    insert_rule-IsRanked x (sort_rules rules) (sort_rules-IsRanked rules)

filter-IsIn :
    (f : ScheduleRule → Bool) (r : ScheduleRule) (rules : List ScheduleRule)
    → IsIn r (filter f rules) ↔ (IsIn r rules × (f r ≡ true))
filter-IsIn f r [] = (λ h. elim h [ ], λ h. elim h.0 [ ])
filter-IsIn f r (x ∷ rules) = elim (Bool-cases (f x)) [
  | inl t ↦ rw t (kept t (filter-IsIn f r rules))
  | inr g ↦ rw g (dropped g (filter-IsIn f r rules))
]
  where
    kept :
        f x ≡ true
        → IsIn r (filter f rules) ↔ (IsIn r rules × (f r ≡ true))
        → IsIn r (x ∷ filter f rules) ↔ (IsIn r (x ∷ rules) × (f r ≡ true))
    kept t (on, off) = (onto, from)
      where
        onto : IsIn r (x ∷ filter f rules) → IsIn r (x ∷ rules) × (f r ≡ true)
        onto (inl e) = (inl e, ap f e ∙ t)
        onto (inr h) = (inr (on h).0, (on h).1)

        from : IsIn r (x ∷ rules) × (f r ≡ true) → IsIn r (x ∷ filter f rules)
        from (inl e, y) = inl e
        from (inr h, y) = inr (off (h, y))

    dropped :
        f x ≡ false
        → IsIn r (filter f rules) ↔ (IsIn r rules × (f r ≡ true))
        → IsIn r (filter f rules) ↔ (IsIn r (x ∷ rules) × (f r ≡ true))
    dropped g (on, off) = (λ h. (inr (on h).0, (on h).1), from)
      where
        from : IsIn r (x ∷ rules) × (f r ≡ true) → IsIn r (filter f rules)
        from (inl e, y) = absurd (ground (arith, y, ap f e, g))
        from (inr h, y) = off (h, y)

All-IsIn :
    (P : ScheduleRule → Type 0) (r : ScheduleRule) (rules : List ScheduleRule)
    → All P rules
    → IsIn r rules
    → P r
All-IsIn P r [] h i = elim i [ ]
All-IsIn P r (x ∷ rules) h (inl e) = subst P (sym e) h.0
All-IsIn P r (x ∷ rules) h (inr i) = All-IsIn P r rules h.1 i

-- The rules found for a site at a time are those of the repository that are of the site, enabled
-- and due, and no rule stands behind one of a lower priority. A rule is due where the time lies in
-- its window, which may go over midnight, and the day is one of its days: any of a daily rule, the
-- weekdays of a weekly one, and the dates between the first and the last one of any other. The
-- times of the rules and of the present are texts whose order is that of the minutes of the day.
pub find_active_rules-IsRanked :
    (minutes : String → ℕ) (site : String) (now : Now) (rules : List ScheduleRule)
    → All (IsTimed minutes now) rules
    → IsRanked (find_active_rules site now rules)
      × ((r : ScheduleRule)
          → IsIn r (find_active_rules site now rules)
            ↔ (IsIn r rules × (r.site_id ≡ site) × (r.enabled ≡ true) × IsDue minutes now r))
unfolding find_active_rules get_all_enabled
find_active_rules-IsRanked minutes site now rules h = (
  sort_rules-IsRanked (filter (is_matched now) (get_all_enabled site rules)),
  λ r.
      let (on, off) = sort_rules-IsIn r (filter (is_matched now) (get_all_enabled site rules)) in
      let (onto, from) = filter-IsIn (is_matched now) r (get_all_enabled site rules) in
      let (there, back) = filter-IsIn (λ r. r.site_id == site && r.enabled) r rules in
      let of_site = string_equality.is_equal_iff r.site_id site in
      (
        λ k.
            let (l, m) = onto (on k) in
            let (i, e) = there l in
            (
              i,
              of_site.0 (ground (arith, e)),
              ground (arith, e),
              (is_matched_lem minutes now r (All-IsIn _ r rules h i)).0 m,
            ),
        λ k.
            let m = (is_matched_lem minutes now r (All-IsIn _ r rules h k.0)).1 k.3 in
            off (from (back (k.0, ground (arith, of_site.1 k.1, k.2)), m)),
      ),
)
