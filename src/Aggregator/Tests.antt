-- ===== src/Aggregator/Tests.antt =====
-- A run of the aggregator, and its theorems at it.
use csp_lib.Base.{true, false, ◌≡◌, refl, none, some, List, [], ◌∷◌, string_equality}
use csp_lib.Aggregator.{
  watchdog, Hook, AlarmAggregator, active, handle, unbind, Call, device_call, watchdog_call,
  unbind_call, event, mark_call, observe, unobserve, perform, run_calls,
}
use csp_lib.Aggregator.Flags.{Alternates, heard, run_calls-Alternates}
use csp_lib.Aggregator.Cancelling.{unbind_silences}

abbrev gateway : Hook
gateway = record { id = 0; kind = watchdog; source = "gateway" }

abbrev observed : AlarmAggregator
observed = record {
  active_sources = "pcs" ∷ [];
  observers = 7 ∷ [];
  unbinders = ("gateway", gateway) ∷ [];
  cancelled = [];
  next_id = 1;
}

abbrev calls : List Call
calls =
    mark_call "pcs" false
    ∷ event gateway true
    ∷ device_call (some "bms") none
    ∷ observe 8
    ∷ mark_call "bms" true
    ∷ unbind_call "gateway"
    ∷ event gateway true
    ∷ mark_call "bms" false
    ∷ watchdog_call "gateway"
    ∷ unobserve 8
    ∷ []

heard_flags : heard 7 (run_calls calls observed).1 ≡ false ∷ true ∷ false ∷ []
unfolding run_calls perform
heard_flags = refl

run_calls-Alternates_example :
    Alternates
      (active observed)
      (heard 7 (run_calls calls observed).1)
      (active (run_calls calls observed).0)
run_calls-Alternates_example =
    run_calls-Alternates 7 calls observed
      (tt, (tt, (tt, (refl, (tt, (tt, (tt, (tt, (tt, (refl, tt)))))))))) refl

unbind_silences_example :
    (let t = (run_calls calls (unbind "gateway" observed).0).0 in handle gateway true t ≡ (t, []))
unbind_silences_example = unbind_silences "gateway" gateway observed refl refl calls true
