-- ===== src/Alarm/Manager/Updates.antt =====
-- `AlarmStateManager.update` against the alarms one by one (equipment/alarm/state.py).
use csp_lib.Base.{
  ℕ, String, ◌≡◌, refl, Bool, true, false, Option, none, some, List, [], ◌∷◌, arith, if◌then◌else◌,
  contains, Distinct, string_equality, ◌==◌, ==_refl, Option-cases, Bool-cases, inl, inr,
}
use csp_lib.Base.Dict.{Dict, lookup, keys, lookup-insert, contains-keys}
use csp_lib.Alarm.{AlarmState, AlarmEvent, update}
use csp_lib.Alarm.Manager.{Manager, prepend, update_one, update_all, get_state}

-- What one evaluation, if there is one, makes of one alarm.
abbrev pub after : ℕ → Option Bool → AlarmState → AlarmState
after now none s = s
after now (some b) s = (update now b s).0

abbrev pub after? : ℕ → Option Bool → Option AlarmState → Option AlarmState
after? now b none = none
after? now b (some s) = some (after now b s)

lookup-update_one :
    (j c : String) (now : ℕ) (b : Bool) (m : Manager)
    → lookup j (update_one now c b m).0
      ≡ (if j == c then after? now (some b) (lookup c m) else lookup j m)
unfolding update_one
lookup-update_one j c now b m = elim (Option-cases (lookup c m)) [
  | inl missing ↦ ground (arith, missing, string_equality.is_equal_iff j c)
  | inr (s, found) ↦ ground (arith, found, lookup-insert j c (update now b s).0 m)
]

-- After `update` every alarm is what its own evaluation makes of it: one that is not in the
-- evaluations is as it was, and no alarm is registered or lost. A dict holds a key once.
pub lookup-update_all :
    (j : String) (clock : String → ℕ) (evaluations : Dict String Bool) (m : Manager)
    → Distinct (keys evaluations)
    → get_state j (update_all clock evaluations m).0
      ≡ after? (clock j) (lookup j evaluations) (get_state j m)
unfolding update_all
lookup-update_all j clock [] m h = elim (Option-cases (lookup j m)) [
  | inl missing ↦ ground (arith, missing)
  | inr (s, found) ↦ ground (arith, found)
]
lookup-update_all j clock (p ∷ evaluations) m h = elim (Bool-cases (j == p.0)) [
  | inl here ↦ ground (
    arith,
    string_equality.is_equal_iff j p.0,
    h.0,
    contains-keys p.0 evaluations,
    lookup-update_all j clock evaluations (update_one (clock p.0) p.0 p.1 m).0 h.1,
    lookup-update_one j p.0 (clock p.0) p.1 m,
    Option-cases (lookup j m),
  )
  | inr there ↦ ground (
    arith,
    there,
    lookup-update_all j clock evaluations (update_one (clock p.0) p.0 p.1 m).0 h.1,
    lookup-update_one j p.0 (clock p.0) p.1 m,
  )
]

-- The events that the alarms report one by one, read off the states before the update.
pub events_of : (String → ℕ) → Dict String Bool → (String → Option AlarmState) → List AlarmEvent
events_of clock [] states = []
events_of clock ((code, b) ∷ evaluations) states = elim (states code) [
  | none ↦ events_of clock evaluations states
  | some s ↦ prepend (update (clock code) b s).1 (events_of clock evaluations states)
]

events_of-agree :
    (clock : String → ℕ) (evaluations : Dict String Bool) (f g : String → Option AlarmState)
    → ((j : String) → contains j (keys evaluations) ≡ true → f j ≡ g j)
    → events_of clock evaluations f ≡ events_of clock evaluations g
unfolding events_of
events_of-agree clock [] f g h = refl
events_of-agree clock (p ∷ evaluations) f g h = ground (
  arith,
  h p.0 (rw (==_refl p.0)),
  events_of-agree clock evaluations f g
      (λ j k. h j (elim (Bool-cases (j == p.0)) [ inl t ↦ rw t | inr n ↦ rw n k ])),
)

update_one_event :
    (now : ℕ) (c : String) (b : Bool) (m : Manager)
    → (update_one now c b m).1 ≡ elim (lookup c m) [ none ↦ none | some s ↦ (update now b s).1 ]
unfolding update_one
update_one_event now c b m = elim (Option-cases (lookup c m)) [
  | inl missing ↦ ground (arith, missing)
  | inr (s, found) ↦ ground (arith, found)
]

-- A key that the later evaluations do not have is not touched by them, and the other way round.
later_untouched :
    (j c : String) (now : ℕ) (b : Bool) (m : Manager) (evaluations : Dict String Bool)
    → contains c (keys evaluations) ≡ false
    → contains j (keys evaluations) ≡ true
    → lookup j (update_one now c b m).0 ≡ lookup j m
later_untouched j c now b m evaluations absent present =
    ground (arith, string_equality.is_equal_iff j c, absent, present, lookup-update_one j c now b m)

-- `update` reports, in the order of the evaluations, exactly the events of the alarms one by one,
-- if the evaluations hold each code once, as a dict does.
pub update_all-events_of :
    (clock : String → ℕ) (evaluations : Dict String Bool) (m : Manager)
    → Distinct (keys evaluations)
    → (update_all clock evaluations m).1 ≡ events_of clock evaluations (λ j. get_state j m)
unfolding update_all events_of
update_all-events_of clock [] m h = refl
update_all-events_of clock (p ∷ evaluations) m h =
    let m' = (update_one (clock p.0) p.0 p.1 m).0 in
    let later =
      events_of-agree clock evaluations (λ j. lookup j m') (λ j. lookup j m)
        (λ j k. later_untouched j p.0 (clock p.0) p.1 m evaluations h.0 k) in
    ground (
      arith,
      update_all-events_of clock evaluations m' h.1,
      later,
      update_one_event (clock p.0) p.0 p.1 m,
    )
