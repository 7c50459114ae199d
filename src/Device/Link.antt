-- ===== src/Device/Link.antt =====
-- The link of `AsyncModbusDevice` (csp_lib/equipment/device/base.py): `connect`, `disconnect`,
-- `read_once` and the read loop. Times are numbers, and the outcomes of the client's calls are
-- arguments. The events are those about the link.
pub mod Counting
use csp_lib.Base.{
  ℕ, suc, ◌-◌, ◌<◌, Bool, true, false, not, ◌&&◌, ◌≡◌, refl, sym, ap, subst, Option, none, some,
  List, [], ◌∷◌, ◌++◌, ltb, leb, if◌then◌else◌, arith, Bool-cases, inl, inr, is_some,
}

pub record Config : Type 0 where
  pub disconnect_threshold : ℕ
  pub reconnect_interval : ℕ

pub record Link : Type 0 where
  pub client_connected : Bool
  pub device_responsive : Bool
  pub consecutive_failures : ℕ
  pub last_failure_time : Option ℕ

-- `EVENT_CONNECTED`, `EVENT_DISCONNECTED` with the failures in its payload, and `EVENT_READ_ERROR`
-- with them.
pub data LinkEvent : Type 0 where
  connected : LinkEvent
  disconnected : ℕ → LinkEvent
  read_error : ℕ → LinkEvent

-- The link after a call with its events, and whether the call raised.
pub record Called : Type 0 where
  pub link : Link
  pub events : List LinkEvent
  pub raised : Bool

-- `__init__`.
unfoldable pub new : Link
new = record {
  client_connected = false;
  device_responsive = false;
  consecutive_failures = 0;
  last_failure_time = none;
}

-- `is_unreachable`.
unfoldable pub is_unreachable : Link → Bool
is_unreachable s = s.client_connected && not s.device_responsive

-- `should_attempt_read`.
unfoldable pub should_attempt_read : Config → ℕ → Link → Bool
should_attempt_read c now s = if s.device_responsive then true else waited s.last_failure_time
  where
    waited : Option ℕ → Bool
    waited none = true
    waited (some t) = leb c.reconnect_interval (now - t)

abbrev pub linked : Link → Link
linked s = record s { client_connected = true; device_responsive = true; consecutive_failures = 0 }

-- `connect`, whose client connects or not; the read loop connects again alike.
unfoldable pub connect : Bool → Link → Called
connect true s = record { link = linked s; events = connected ∷ []; raised = false }
connect false s = record { link = s; events = []; raised = true }

-- `disconnect`, after `stop`.
unfoldable pub disconnect : Bool → Link → Called
disconnect fine s =
    if s.client_connected
    then if fine
      then record { link = new; events = disconnected 0 ∷ []; raised = false }
      else record { link = s; events = []; raised = true }
    else record { link = s; events = []; raised = false }

-- `_handle_read_failure`.
unfoldable pub handle_read_failure : ℕ → Link → Link × List LinkEvent
handle_read_failure now s =
    let failures = suc s.consecutive_failures in
    (
      record s { consecutive_failures = failures; last_failure_time = some now },
      read_error failures ∷ [],
    )

-- `_check_disconnect_threshold`.
unfoldable pub check_disconnect_threshold : Config → Link → Link × List LinkEvent
check_disconnect_threshold c s =
    if leb c.disconnect_threshold s.consecutive_failures && s.device_responsive
    then (record s { device_responsive = false }, disconnected s.consecutive_failures ∷ [])
    else (s, [])

-- The two ways that the read of a connected client ends.
unfoldable pub read_succeeded : Link → Called
read_succeeded s = record {
  link = record s { consecutive_failures = 0; last_failure_time = none; device_responsive = true };
  events = if s.device_responsive then [] else connected ∷ [];
  raised = false;
}

unfoldable pub read_failed : Config → ℕ → Link → Called
read_failed c now s =
    let (s₁, es) = handle_read_failure now s in
    let (s₂, fs) = check_disconnect_threshold c s₁ in
    record { link = s₂; events = es ++ fs; raised = true }

abbrev pub read_connected : Config → ℕ → Bool → Link → Called
read_connected c now true s = read_succeeded s
read_connected c now false s = read_failed c now s

-- What a call of `read_once` meets: whether a client that is not connected connects, and whether
-- the read goes through.
pub record Attempt : Type 0 where
  pub now : ℕ
  pub client_connects : Bool
  pub read_goes : Bool

-- `read_once`: the link.
unfoldable pub read_once : Config → Attempt → Link → Called
unfolding read_succeeded read_failed
read_once c a s =
    if s.client_connected
    then read_connected c a.now a.read_goes s
    else if a.client_connects
    then read_connected c a.now a.read_goes
        (record s { client_connected = true; consecutive_failures = 0 })
    else record { link = record s { last_failure_time = some a.now }; events = []; raised = true }

-- A round of `_read_loop`: a client that is not connected connects first, or the round ends.
unfoldable pub loop_round : Config → Attempt → Link → Called
unfolding connect read_once
loop_round c a s =
    if s.client_connected
    then read_once c a s
    else if a.client_connects
    then (let r = read_once c a (linked s) in
        record { link = r.link; events = connected ∷ r.events; raised = r.raised })
    else record { link = s; events = []; raised = true }

unfoldable pub run_reads : Config → List Attempt → Link → Link × List LinkEvent
unfolding read_once
run_reads c [] s = (s, [])
run_reads c (a ∷ ts) s =
    let r = read_once c a s in let (s₂, fs) = run_reads c ts r.link in (s₂, r.events ++ fs)
