-- ===== src/Schedule/Due.antt =====
-- When a rule of a schedule is due, told apart from the tests of its matcher
-- (csp_lib/manager/schedule/matcher.py).
use csp_lib.Base.{
  ℕ, String, true, not, ◌&&◌, ◌||◌, ◌+◌, ◌-◌, ◌≤◌, ◌<◌, ◌≡◌, refl, ◌⊎◌, ◌↔◌, inl, inr, Option, none,
  some, List, [], ◌∷◌, contains, leb, if◌then◌else◌, ◌==◌, nat_equality, arith, Bool-cases,
}
use csp_lib.Base.Sets.{text_leb}
use csp_lib.Schedule.{
  ScheduleType, once, daily, weekly, ScheduleRule, Now, matches_time, matches_type, is_before,
  is_after, matches_schedule, is_matched,
}

-- The minutes that pass from one time of day until the next time that it is another.
abbrev pub elapsed : ℕ → ℕ → ℕ
elapsed from until = if leb from until then until - from else until + 1440 - from

abbrev pub IsAmong : ℕ → List ℕ → Type 0
IsAmong d [] = ⊥
IsAmong d (x ∷ days) = (d ≡ x) ⊎ IsAmong d days

abbrev pub IsNotBefore : ℕ → Option ℕ → Type 0
IsNotBefore date none = Unit
IsNotBefore date (some start) = start ≤ date

abbrev pub IsNotAfter : ℕ → Option ℕ → Type 0
IsNotAfter date none = Unit
IsNotAfter date (some end) = date ≤ end

abbrev pub IsDayOf : ScheduleType → ScheduleRule → Now → Type 0
IsDayOf daily r now = Unit
IsDayOf weekly r now = IsAmong now.weekday r.days_of_week
IsDayOf once r now = IsNotBefore now.date r.start_date × IsNotAfter now.date r.end_date

-- The window of the minutes from `s` to `e`.
clock_lem :
    (s e n : ℕ)
    → s < 1440
    → e < 1440
    → n < 1440
    → ((if leb s e then leb s n && leb n e else leb s n || leb n e) ≡ true)
      ↔ (elapsed s n ≤ elapsed s e)
clock_lem s e n hs he hn = elim (Bool-cases (leb s e)) [
  | inl t ↦ elim (Bool-cases (leb s n)) [
    | inl u ↦ rw (t, u) (λ m. ground (arith, m, t, u), λ l. ground (arith, l, t, u))
    | inr g ↦ rw (t, g) (λ m. cc, λ l. absurd (ground (arith, l, t, g, hs, he, hn)))
  ]
  | inr f ↦ elim (Bool-cases (leb s n)) [
    | inl u ↦ rw (f, u) (λ m. ground (arith, f, u, hs, he, hn), λ l. refl)
    | inr g ↦ rw (f, g) (λ m. ground (arith, m, f, g, hs, hn), λ l. ground (arith, l, f, g, hs, hn))
  ]
]

module _ (minutes : String → ℕ) where
  -- Texts that are times of day: the order of the texts is that of the minutes they stand for.
  pub record IsClock (s t : String) : Type 0 where
    pub ordered : text_leb s t ≡ leb (minutes s) (minutes t)
    pub of_day : minutes t < 1440

  pub record IsTimed (now : Now) (r : ScheduleRule) : Type 0 where
    pub of_day : minutes r.start_time < 1440
    pub window : IsClock r.start_time r.end_time
    pub opening : IsClock r.start_time now.time
    pub closing : text_leb now.time r.end_time ≡ leb (minutes now.time) (minutes r.end_time)

  -- From the rule's start the present comes round no later than the rule's end, and the day is
  -- one of the rule's.
  pub record IsDue (now : Now) (r : ScheduleRule) : Type 0 where
    pub in_window :
        elapsed (minutes r.start_time) (minutes now.time)
        ≤ elapsed (minutes r.start_time) (minutes r.end_time)
    pub on_day : IsDayOf r.schedule_type r now

  window_lem :
      (now : Now) (r : ScheduleRule)
      → IsTimed now r
      → (matches_time r now.time ≡ true) ↔ (
          elapsed (minutes r.start_time) (minutes now.time)
          ≤ elapsed (minutes r.start_time) (minutes r.end_time))
  unfolding matches_time
  window_lem now r h =
      let (on, off) =
        clock_lem (minutes r.start_time) (minutes r.end_time) (minutes now.time) h.of_day
          h.window.of_day h.opening.of_day in
      rw (h.window.ordered, h.opening.ordered, h.closing) (on, off)

among_lem : (d : ℕ) (days : List ℕ) → (contains d days ≡ true) ↔ IsAmong d days
among_lem d [] = (λ h. absurd (cc), λ h. elim h [ ])
among_lem d (x ∷ days) =
    let (on, off) = among_lem d days in
    (
      λ h. elim (Bool-cases (d == x)) [
        | inl t ↦ inl ((nat_equality.is_equal_iff d x).0 t)
        | inr f ↦ inr (on (ground (arith, h, f)))
      ],
      λ h. elim h [
        | inl e ↦ ground (arith, (nat_equality.is_equal_iff d x).1 e)
        | inr k ↦ ground (arith, off k)
      ],
    )

once_lem :
    (date : ℕ) (start end : Option ℕ)
    → ((not (is_before date start) && not (is_after date end)) ≡ true)
      ↔ (IsNotBefore date start × IsNotAfter date end)
once_lem date none none = (λ h. (tt, tt), λ h. refl)
once_lem date (some a) none = (λ h. (ground (arith, h), tt), λ h. ground (arith, h.0))
once_lem date none (some b) = (λ h. (tt, ground (arith, h)), λ h. ground (arith, h.1))
once_lem date (some a) (some b) =
    (λ h. (ground (arith, h), ground (arith, h)), λ h. ground (arith, h.0, h.1))

day_lem :
    (t : ScheduleType) (r : ScheduleRule) (now : Now)
    → (matches_type t r now.weekday now.date ≡ true) ↔ IsDayOf t r now
day_lem daily r now = (λ h. tt, λ h. refl)
day_lem weekly r now = among_lem now.weekday r.days_of_week
day_lem once r now = once_lem now.date r.start_date r.end_date

-- A rule matches exactly when it is due.
pub is_matched_lem :
    (minutes : String → ℕ) (now : Now) (r : ScheduleRule)
    → IsTimed minutes now r
    → (is_matched now r ≡ true) ↔ IsDue minutes now r
unfolding matches_schedule
is_matched_lem minutes now r h =
    let (open_to, open_from) = window_lem minutes now r h in
    let (day_to, day_from) = day_lem r.schedule_type r now in
    (
      λ m. record { in_window = open_to (ground (arith, m)); on_day = day_to (ground (arith, m)) },
      λ d. ground (arith, open_from d.in_window, day_from d.on_day),
    )
