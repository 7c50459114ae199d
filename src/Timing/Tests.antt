-- ===== src/Timing/Tests.antt =====
-- Runs of the time anchor.
use csp_lib.Base.{◌+◌, ◌*◌, ◌≤◌, ◌<◌, ◌≡◌, arith}
use csp_lib.Timing.{next_tick_delay, IsOnGrid, next_tick_delay-IsOnGrid}

on_grid : IsOnGrid 100 2 10 121
on_grid = record { begun = ground arith; before_next = ground arith }

next_tick_delay-IsOnGrid_example :
    let t = next_tick_delay 127 100 2 10 in
    IsOnGrid t.anchor t.completed 10 (127 + t.delay)
    × (t.delay ≤ 10)
    × (127 < 100 + (2 + 1) * 10
        → (127 + t.delay ≡ 100 + (2 + 1) * 10) × (t.anchor ≡ 100) × (t.completed ≡ 2 + 1))
    × (100 + (2 + 1) * 10 ≤ 127
        → 127 < 100 + (2 + 1) * 10 + 10
        → (t.delay ≡ 0) × (t.anchor ≡ 100) × (t.completed ≡ 2 + 1))
    × (100 + (2 + 1) * 10 + 10 ≤ 127 → (t.delay ≡ 0) × (t.anchor ≡ 127) × (t.completed ≡ 0))
next_tick_delay-IsOnGrid_example =
    next_tick_delay-IsOnGrid 100 2 10 121 127 (ground arith) on_grid (ground arith)
