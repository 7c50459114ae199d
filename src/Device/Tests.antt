-- ===== src/Device/Tests.antt =====
-- Runs of the device model, and its theorems at them.
use csp_lib.Base.{
  Distinct, ℕ, String, ◌≡◌, refl, Bool, true, false, none, some, List, [], ◌∷◌, ◌++◌, ◌==◌,
  nat_equality, string_equality, arith, Bool-cases, inl, inr,
}
use csp_lib.Base.Dict.{keys, Dict, lookup, member}
use csp_lib.Device.Link.{
  Config, Link, new, linked, Attempt, run_reads, disconnected, disconnect, read_once, read_failed,
  handle_read_failure, check_disconnect_threshold,
}
use csp_lib.Device.Link.Counting.{IsCounting, Alternate, failures_since, run_reads-IsCounting}
use csp_lib.Device.Emitter
use csp_lib.Device.Emitter.{
  interrupted, start, request_stop, cancel_worker, on, emit, accepts, work, process_event,
}
use csp_lib.Device.Delivery.{
  Step, started, stopping, timed_out, registered, emitted, worked, cut_off, run, step, waiting,
}
use csp_lib.Device.Heard.{heard, subscribers}
use csp_lib.Device.Heard.Runs.{run_deliveries}
use csp_lib.Device.Points.{
  Points, DoActionConfig, toggle, success, Writer, process_values, resolve_effective_values,
}
use csp_lib.Device.Points.Rejected.{is_refused, leaves, IsFree}
use csp_lib.Device.Points.Latest.{process_values_lem}
use csp_lib.Device.Points.Writes.{IsConsistent, Change, enabled, disabled, reconfigured}

abbrev config : Config
config = record { disconnect_threshold = 2; reconnect_interval = 5 }

abbrev up : Link
up = linked new

up-IsCounting : IsCounting config 0 up
up-IsCounting = record {
  client = refl;
  counted = refl;
  responsive = refl;
  timed = λ h. absurd (ground (arith, h));
}

abbrev attempt : ℕ → Bool → Attempt
attempt now goes = record { now = now; client_connects = true; read_goes = goes }

abbrev hour : List Attempt
hour = attempt 1 true ∷ attempt 2 false ∷ attempt 3 false ∷ attempt 4 true ∷ []

run_reads-IsCounting_example :
    let r = run_reads config hour up in
    IsCounting config (failures_since 0 hour) r.0 × Alternate true r.1 r.0.device_responsive
run_reads-IsCounting_example = run_reads-IsCounting config hour 0 up (ground arith) up-IsCounting

-- A device that is already reported disconnected is so again by `disconnect`.
abbrev lost : List Attempt
lost = attempt 1 false ∷ attempt 2 false ∷ []

twice : (disconnect true (run_reads config lost up).0).events ≡ disconnected 0 ∷ []
unfolding disconnect run_reads read_once read_failed handle_read_failure check_disconnect_threshold
    new
twice = refl

abbrev meter : Points
meter = record {
  read_points_always = record { name = "power"; reject_non_finite = true } ∷ [];
  read_points_rotating = [];
  write_points = "relay" ∷ [];
  disabled_points = [];
  latest_values = ("power", 5) ∷ [];
}

-- The number 0 stands for a float that is not finite.
abbrev not_finite : ℕ → Bool
not_finite v = v == 0

abbrev equals : ℕ → ℕ → Bool
equals old v = old == v

abbrev got : Dict String ℕ
got = ("power", 0) ∷ ("other", 2) ∷ []

meter-IsFree : IsFree not_finite equals meter
meter-IsFree name v e = elim (Bool-cases (name == "power")) [
  | inl t ↦ let q : v ≡ 5 = ground (arith, e, t) in rw (q, t) refl
  | inr f ↦ absurd (ground (arith, e, f))
]

process_values_lem_example :
    let s' = (process_values not_finite equals got meter).0 in
    ((name : String)
      → lookup name s'.latest_values ≡ leaves not_finite equals name (lookup name got) meter)
    × IsFree not_finite equals s'
    × ((name : String) (v : ℕ)
        → lookup name (resolve_effective_values not_finite equals got s') ≡ some v
        → member name s'.latest_values ≡ true
        → is_refused not_finite equals name v s' ≡ false)
process_values_lem_example =
    process_values_lem not_finite equals got meter (refl, (refl, tt)) meter-IsFree

meter-IsConsistent : IsConsistent meter
meter-IsConsistent = record { known = λ n h. absurd (ground (arith, h)); once = tt }

abbrev upkeep : List Change
upkeep =
    disabled "power"
    ∷ enabled "relay"
    ∷ reconfigured
        (record { always_points = some []; rotating_points = none; new_write_points = none })
    ∷ []

abbrev relay : DoActionConfig
relay = record { label = "relay"; point_name = "relay"; mode = toggle; on_value = 1; off_value = 0 }

abbrev willing : Writer
willing n v = success

abbrev traffic : List Step
traffic =
    registered "value_change" 1
    ∷ emitted "value_change" 4
    ∷ started
    ∷ emitted "value_change" 5
    ∷ registered "value_change" 2
    ∷ cut_off (λ h. true) 0
    ∷ emitted "value_change" 6
    ∷ []

new_once : Distinct (keys Emitter.new.handlers)
unfolding Emitter.new
new_once = tt

run_deliveries_example :
    let r = run 10 traffic Emitter.new in
    (r.processed ++ waiting r.emitter.queue ≡ waiting Emitter.new.queue ++ r.accepted)
    × (r.calls ≡ heard 10 traffic Emitter.new (subscribers Emitter.new))
run_deliveries_example = run_deliveries 10 traffic Emitter.new new_once

-- The first handler is cancelled, and the second one is not called.
traffic_heard : (run 10 traffic Emitter.new).calls ≡ (1, 5) ∷ []
unfolding run step start on emit accepts work interrupted Emitter.new process_event
traffic_heard = refl

-- A stop that times out twice leaves the sentinel in the queue; after the next start the worker
-- ends at it, and an accepted event is not processed however often it has its turn.
abbrev slow_stop : List Step
slow_stop =
    registered "value_change" 1
    ∷ started
    ∷ stopping
    ∷ timed_out
    ∷ timed_out
    ∷ started
    ∷ worked (λ h. true)
    ∷ worked (λ h. true)
    ∷ emitted "value_change" 5
    ∷ worked (λ h. true)
    ∷ []

unserved : (run 10 slow_stop Emitter.new).processed ≡ []
unfolding run step start request_stop cancel_worker on emit accepts work Emitter.new process_event
unserved = refl
