-- ===== src/Integration/InFlight.antt =====
-- Writes under way (csp_lib/integration/command_router.py, command_refresh.py): `try_write_single`
-- awaits the device between its tests and the record of the value, and the refresh of a device goes
-- through a copy of its desired values; other calls run meanwhile.
pub mod Late
use csp_lib.Base.{
  ℕ, String, Bool, true, false, Option, none, some, List, [], ◌∷◌, ◌++◌, if◌then◌else◌,
  string_equality,
}
use csp_lib.Base.Dict.{Dict, lookup}
use csp_lib.Integration.Registry.{Device, DeviceRegistry, get_device}
use csp_lib.Integration.Registry.Calls.{Call, step}
use csp_lib.Integration.Router.{
  Environment, Setting, no_change, number, Desired, is_open, record_written, get_last_written,
}
use csp_lib.Integration.Linked.{Linked, prune}

pub record Pending : Type 0 where
  pub device_id : String
  pub point_name : String
  pub value : ℕ

abbrev pub begin_if :
    DeviceRegistry → Environment → Option Device → String → ℕ → String → Option Pending
begin_if registry env none point value id = none
begin_if registry env (some d) point value id =
    if is_open registry env d
    then some (record { device_id = id; point_name = point; value = value })
    else none

-- `try_write_single` up to the wait for the device; `none` is a return with `False`.
unfoldable pub begin_write :
    DeviceRegistry → Environment → String → String → Setting → Option Pending
begin_write registry env id point no_change = none
begin_write registry env id point (number value) =
    begin_if registry env (get_device id registry) point value id

-- The rest of `try_write_single`, with the answer of the device.
unfoldable pub end_write : Bool → Pending → Desired → Desired
end_write went w desired =
    if went then record_written w.device_id w.point_name w.value desired else desired

-- The linked registry and router, the writes that wait for a device, and what is left of the
-- refresh of a device.
pub record Busy : Type 0 where
  pub system : Linked
  pub under_way : List Pending
  pub device : String
  pub snapshot : Dict String ℕ

abbrev pub with_pending : Option Pending → List Pending → List Pending
with_pending none ws = ws
with_pending (some w) ws = w ∷ ws

abbrev pub finish : Bool → Option Pending → Desired → Desired
finish went none desired = desired
finish went (some w) desired = end_write went w desired

abbrev pub desiring : Desired → Linked → Linked
desiring desired s = record s { desired = desired }

-- A call of the registry, the start of a write, the answer to the latest write or to a former one,
-- the copy of a device's desired values, and the next write of the refresh with its answer.
pub data Step : Type 0 where
  called : Call → Step
  begun : Environment → String → String → Setting → Step
  ended : Bool → Step
  deferred : Step
  snapped : String → Step
  resumed : Environment → Bool → Step

-- The latest write goes behind the others.
abbrev pub rotate : List Pending → List Pending
rotate [] = []
rotate (w ∷ ws) = ws ++ (w ∷ [])

abbrev pub answer : Bool → List Pending → Busy → Busy
answer went [] s = s
answer went (w ∷ ws) s = record s {
  system = desiring (end_write went w s.system.desired) s.system;
  under_way = ws;
}

abbrev pub resume : Environment → Bool → Dict String ℕ → Busy → Busy
resume env went [] s = s
resume env went (e ∷ snapshot) s = record s {
  system =
      desiring
        (finish went (begin_write s.system.registry env s.device e.0 (number e.1)) s.system.desired)
        s.system;
  snapshot = snapshot;
}

unfoldable pub advance : Step → Busy → Busy
unfolding begin_write end_write
advance (called c) s = record s {
  system = record { registry = step c s.system.registry; desired = prune c s.system };
}
advance (begun env id point setting) s = record s {
  under_way = with_pending (begin_write s.system.registry env id point setting) s.under_way;
}
advance (ended went) s = answer went s.under_way s
advance deferred s = record s { under_way = rotate s.under_way }
advance (snapped id) s = record s { device = id; snapshot = get_last_written id s.system.desired }
advance (resumed env went) s = resume env went s.snapshot s

unfoldable pub run_busy : List Step → Busy → Busy
unfolding advance
run_busy [] s = s
run_busy (x ∷ xs) s = run_busy xs (advance x s)
