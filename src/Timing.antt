-- ===== src/Timing.antt =====
-- The time anchor of the periodic loops (csp_lib/core/_time_anchor.py). Times are whole numbers of
-- ticks of the clock.
mod Tests
use csp_lib.Base.{
  ℕ, suc, ◌+◌, ◌-◌, ◌*◌, ◌≤◌, ◌<◌, ◌≡◌, refl, Bool, true, false, List, [], ◌∷◌, ltb, leb,
  if◌then◌else◌, arith, Bool-cases, inl, inr,
}

-- The delay to sleep, the anchor and the completed ticks.
pub record Tick : Type 0 where
  pub delay : ℕ
  pub anchor : ℕ
  pub completed : ℕ

-- `next_tick_delay` at the time `now`; `delay <= -interval` is `next_tick + interval <= now`.
unfoldable pub next_tick_delay : ℕ → ℕ → ℕ → ℕ → Tick
next_tick_delay now anchor completed interval =
    let next_tick = anchor + (completed + 1) * interval in
    if ltb now next_tick
    then record { delay = next_tick - now; anchor = anchor; completed = completed + 1 }
    else if leb (next_tick + interval) now
    then record { delay = 0; anchor = now; completed = 0 }
    else record { delay = 0; anchor = anchor; completed = completed + 1 }

-- A loop is on its grid: the ticks that it completed are those up to now.
pub record IsOnGrid (anchor completed interval now : ℕ) : Type 0 where
  pub begun : anchor + completed * interval ≤ now
  pub before_next : now < anchor + (completed + 1) * interval

next_multiple : (n k : ℕ) → (n + 1) * k ≡ n * k + k
next_multiple n k = omega arith

-- A loop on its grid that works until any time, and then asks for its delay, is on its grid again
-- when it wakes, after at most one interval. Where the next point of the grid is still to come, it
-- wakes at that point exactly; where that point passed less than an interval ago, it wakes at once;
-- in both cases the grid is kept and one more tick is counted. Where the point passed an interval
-- ago or more, it wakes at once, the grid begins at that time, and no tick of it is counted.
pub next_tick_delay-IsOnGrid :
    (anchor completed interval woke now : ℕ)
    → 0 < interval
    → IsOnGrid anchor completed interval woke
    → woke ≤ now
    → (let t = next_tick_delay now anchor completed interval in
        IsOnGrid t.anchor t.completed interval (now + t.delay)
        × (t.delay ≤ interval)
        × (now < anchor + (completed + 1) * interval
            → (now + t.delay ≡ anchor + (completed + 1) * interval)
              × (t.anchor ≡ anchor)
              × (t.completed ≡ completed + 1))
        × (anchor + (completed + 1) * interval ≤ now
            → now < anchor + (completed + 1) * interval + interval
            → (t.delay ≡ 0) × (t.anchor ≡ anchor) × (t.completed ≡ completed + 1))
        × (anchor + (completed + 1) * interval + interval ≤ now
            → (t.delay ≡ 0) × (t.anchor ≡ now) × (t.completed ≡ 0)))
unfolding next_tick_delay
next_tick_delay-IsOnGrid anchor completed interval woke now p g w =
    let one = next_multiple completed interval in
    let two = next_multiple (completed + 1) interval in
    elim (Bool-cases (ltb now (anchor + (completed + 1) * interval))) [
      | inl t ↦ rw t (
        record { begun = ground (arith, t); before_next = ground (arith, t, one, two) },
        ground (arith, t, g.begun, w, one),
        λ h. (ground (arith, t), refl, refl),
        λ h k. absurd (ground (arith, t, h)),
        λ h. absurd (ground (arith, t, h)),
      )
      | inr f ↦ elim (Bool-cases (leb (anchor + (completed + 1) * interval + interval) now)) [
        | inl t ↦
            rw (f, t)
              (
                record { begun = ground (arith, p); before_next = ground (arith, p) },
                ground (arith, p),
                λ h. absurd (ground (arith, h, f)),
                λ h k. absurd (ground (arith, t, k)),
                λ h. (refl, refl, refl),
              )
        | inr o ↦
            rw (f, o)
              (
                record { begun = ground (arith, f); before_next = ground (arith, f, o, one, two) },
                ground (arith, p),
                λ h. absurd (ground (arith, h, f)),
                λ h k. (refl, refl, refl),
                λ h. absurd (ground (arith, h, o)),
              )
      ]
    ]
