-- ===== src/Alarm/History.antt =====
-- The whole life of one alarm: its evaluations from the newest to the oldest, against a
-- specification that has no counters, and the events of any sequence of operations.
use csp_lib.Base.{
  ℕ, suc, ◌≡◌, refl, Bool, true, false, not, ◌&&◌, ◌||◌, Option, none, some, List, [], ◌∷◌, arith,
  leb,
}
use csp_lib.Alarm.{AlarmDefinition, AlarmState, AlarmEvent, triggered, cleared, fresh, update}
use csp_lib.Alarm.Hysteresis.{Operation, apply, apply_reports_flip, flip_event, time_of}

-- The evaluations of one alarm with their times, the newest first.
abbrev pub History : Type 0
History = List (ℕ × Bool)

-- The state of a newly registered alarm after a history.
pub replay : AlarmDefinition → History → AlarmState
replay d [] = fresh d
replay d (e ∷ older) = (update e.0 e.1 (replay d older)).0

-- How many of the newest evaluations agree with `b`, up to the first that does not.
pub run_length : Bool → History → ℕ
run_length b [] = 0
run_length true ((t, true) ∷ older) = suc (run_length true older)
run_length true ((t, false) ∷ older) = 0
run_length false ((t, true) ∷ older) = 0
run_length false ((t, false) ∷ older) = suc (run_length false older)

-- When an alarm ought to be active: from the moment a run of triggers has the activation length
-- until a run of non-triggers has the clearing length.
unfoldable pub should_be_active : AlarmDefinition → History → Bool
unfolding run_length
should_be_active d [] = false
should_be_active d ((t, true) ∷ older) =
    should_be_active d older
    || leb d.hysteresis.activate_threshold (run_length true ((t, true) ∷ older))
should_be_active d ((t, false) ∷ older) =
    should_be_active d older
    && not (leb d.hysteresis.clear_threshold (run_length false ((t, false) ∷ older)))

record Tracks (d : AlarmDefinition) (h : History) (s : AlarmState) : Type 0 where
  same_definition : s.definition ≡ d
  counts_triggers : s.activate_count ≡ run_length true h
  counts_clears : s.clear_count ≡ run_length false h
  on : s.is_active ≡ should_be_active d h

update-Tracks :
    (d : AlarmDefinition) (h : History) (s : AlarmState) (t : ℕ) (b : Bool)
    → Tracks d h s
    → Tracks d ((t, b) ∷ h) (update t b s).0
unfolding update should_be_active
update-Tracks d h s t true k = ground arith
update-Tracks d h s t false k = ground arith

replay-Tracks : (d : AlarmDefinition) (h : History) → Tracks d h (replay d h)
unfolding replay should_be_active fresh
replay-Tracks d [] = record {
  same_definition = refl;
  counts_triggers = refl;
  counts_clears = refl;
  on = refl;
}
replay-Tracks d ((t, b) ∷ older) =
    update-Tracks d older (replay d older) t b (replay-Tracks d older)

-- After any history of evaluations the counters are the lengths of the newest runs, and the
-- alarm is active exactly when the specification of the hysteresis says so.
pub replay-should_be_active :
    (d : AlarmDefinition) (h : History)
    → ((replay d h).is_active ≡ should_be_active d h)
      × ((replay d h).activate_count ≡ run_length true h)
      × ((replay d h).clear_count ≡ run_length false h)
replay-should_be_active d h =
    let k = replay-Tracks d h in (k.on, k.counts_triggers, k.counts_clears)

-- What an operation reports comes before what the later ones report.
abbrev prepend : Option AlarmEvent → List AlarmEvent → List AlarmEvent
prepend none es = es
prepend (some e) es = e ∷ es

-- The operations in order, and the events that they report.
pub run : List Operation → AlarmState → AlarmState × List AlarmEvent
run [] s = (s, [])
run (op ∷ ops) s = let (s', e) = apply op s in let (final, es) = run ops s' in (final, prepend e es)

-- The events turn the alarm on and off in turn, starting from `a` and ending at `b`.
abbrev pub Alternates : Bool → Bool → List AlarmEvent → Type 0
Alternates a b [] = a ≡ b
Alternates false b (e ∷ es) = (e.event_type ≡ triggered) × Alternates true b es
Alternates true b (e ∷ es) = (e.event_type ≡ cleared) × Alternates false b es

prepend-Alternates :
    (a a' b : Bool) (e : Option AlarmEvent) (es : List AlarmEvent) (s : AlarmState) (now : ℕ)
    → e ≡ flip_event a a' s now
    → Alternates a' b es
    → Alternates a b (prepend e es)
prepend-Alternates false false b e es s now h k = rw h k
prepend-Alternates false true b e es s now h k = rw h (refl, k)
prepend-Alternates true false b e es s now h k = rw h (refl, k)
prepend-Alternates true true b e es s now h k = rw h k

-- Over any sequence of operations, in any state, TRIGGERED and CLEARED events alternate, and
-- they account for the state of the alarm at the end.
pub run-Alternates :
    (ops : List Operation) (s : AlarmState)
    → Alternates s.is_active (run ops s).0.is_active (run ops s).1
unfolding run
run-Alternates [] s = refl
run-Alternates (op ∷ ops) s =
    prepend-Alternates s.is_active (apply op s).0.is_active (run ops (apply op s).0).0.is_active
      (apply op s).1 (run ops (apply op s).0).1 s (time_of op) (apply_reports_flip op s).0
      (run-Alternates ops (apply op s).0)
