-- ===== src/Gateway/Watchdog.antt =====
-- `CommunicationWatchdog` (csp_lib/modbus_gateway/watchdog.py). A time is a number, a callback
-- that raises is one that was called, and a round of the check loop is one step.
use csp_lib.Base.{
  ℕ, Bool, true, false, not, ◌&&◌, ◌≡◌, refl, ◌∙◌, Bool-cases, inl, inr, List, [], ◌∷◌, ◌++◌, ltb,
  ◌-◌, if◌then◌else◌, subst,
}

pub record Watchdog : Type 0 where
  pub last_comm : ℕ
  pub timed_out : Bool

pub data Report : Type 0 where
  timeout recovered : Report

-- `touch` and a round of `_check_loop`, each at a time.
pub data Event : Type 0 where
  touched : ℕ → Event
  checked : ℕ → Event

-- `start`, of an enabled watchdog.
unfoldable pub start : ℕ → Watchdog
start now = record { last_comm = now; timed_out = false }

-- `touch`.
unfoldable pub touch : ℕ → Watchdog → Watchdog
touch now s = record s { last_comm = now }

-- `elapsed > timeout_seconds`; no time that has elapsed is less than 0.
abbrev pub is_late : ℕ → ℕ → Watchdog → Bool
is_late timeout_seconds now s = ltb timeout_seconds (now - s.last_comm)

-- A round of `_check_loop`.
unfoldable pub check : ℕ → ℕ → Watchdog → Watchdog × List Report
check timeout_seconds now s =
    if is_late timeout_seconds now s && not s.timed_out
    then (record s { timed_out = true }, timeout ∷ [])
    else if not (is_late timeout_seconds now s) && s.timed_out
    then (record s { timed_out = false }, recovered ∷ [])
    else (s, [])

unfoldable pub run : ℕ → List Event → Watchdog → Watchdog × List Report
unfolding touch check
run timeout_seconds [] s = (s, [])
run timeout_seconds (touched now ∷ es) s = run timeout_seconds es (touch now s)
run timeout_seconds (checked now ∷ es) s =
    let (s₁, rs) = check timeout_seconds now s in
    let (s₂, qs) = run timeout_seconds es s₁ in (s₂, rs ++ qs)

-- The reports take turns, a timeout first where the watchdog was not timed out, and lead from the
-- one state to the other.
abbrev pub LeadsTo : Bool → List Report → Bool → Type 0
LeadsTo b [] e = e ≡ b
LeadsTo b (timeout ∷ rs) e = (b ≡ false) × LeadsTo true rs e
LeadsTo b (recovered ∷ rs) e = (b ≡ true) × LeadsTo false rs e

-- The last check of a history was late, if it had one; a touch alone changes nothing.
abbrev pub last_verdict : ℕ → ℕ → Bool → List Event → Bool
last_verdict limit last before [] = before
last_verdict limit last before (touched now ∷ es) = last_verdict limit now before es
last_verdict limit last before (checked now ∷ es) =
    last_verdict limit last (ltb limit (now - last)) es

append-LeadsTo :
    (b e f : Bool) (rs qs : List Report) → LeadsTo b rs e → LeadsTo e qs f → LeadsTo b (rs ++ qs) f
append-LeadsTo b e f [] qs h k = subst (λ x. LeadsTo x qs f) h k
append-LeadsTo b e f (timeout ∷ rs) qs (h, k) l = (h, append-LeadsTo true e f rs qs k l)
append-LeadsTo b e f (recovered ∷ rs) qs (h, k) l = (h, append-LeadsTo false e f rs qs k l)

check_lem :
    (limit now : ℕ) (s : Watchdog)
    → (let r = check limit now s in
        (r.0.timed_out ≡ is_late limit now s)
        × (r.0.last_comm ≡ s.last_comm)
        × LeadsTo s.timed_out r.1 r.0.timed_out)
unfolding check
check_lem limit now s = elim (Bool-cases (is_late limit now s)) [
  | inl t ↦ elim (Bool-cases s.timed_out) [
    | inl y ↦ rw (t, y) (refl, refl, refl)
    | inr n ↦ rw (t, n) (refl, refl, (refl, refl))
  ]
  | inr f ↦ elim (Bool-cases s.timed_out) [
    | inl y ↦ rw (f, y) (refl, refl, (refl, refl))
    | inr n ↦ rw (f, n) (refl, refl, refl)
  ]
]

-- Over any touches and checks, the watchdog is timed out exactly when the last check found the
-- last touch before it longer ago than the timeout, and its callbacks take turns, a timeout first
-- unless it was timed out already.
pub run_reports :
    (limit : ℕ) (es : List Event) (s : Watchdog)
    → (let r = run limit es s in
        (r.0.timed_out ≡ last_verdict limit s.last_comm s.timed_out es)
        × LeadsTo s.timed_out r.1 r.0.timed_out)
unfolding run touch
run_reports limit [] s = (refl, refl)
run_reports limit (touched now ∷ es) s = run_reports limit es (touch now s)
run_reports limit (checked now ∷ es) s =
    let r = check limit now s in
    let (verdict, same, led) = check_lem limit now s in
    let (q, w) = run_reports limit es r.0 in
    (
      q ∙ rw (verdict, same) refl,
      append-LeadsTo s.timed_out r.0.timed_out (run limit es r.0).0.timed_out r.1
          (run limit es r.0).1 led w,
    )
