-- ===== src/Integration/Router.antt =====
-- `CommandRouter` (csp_lib/integration/command_router.py) and the refresh of desired state
-- (command_refresh.py), over a registry of devices. A value is a number for the object, and the
-- devices' answers during a call are parameters: an exception of `write` is a `DeviceError`, and
-- a slot of a capability that a device has resolves to a point. A call is one step here, with answers
-- that do not change; InFlight has writes that wait while other calls run.
pub mod Safety
pub mod Refresh
pub mod Resent
use csp_lib.Base.{
  ℕ, String, Bool, true, false, not, ◌&&◌, Option, none, some, List, [], ◌∷◌, ◌++◌, contains,
  filter, if◌then◌else◌, string_equality,
}
use csp_lib.Base.Dict.{Dict, keys, lookup, insert, erase}
use csp_lib.Integration.Registry.{
  Device, DeviceRegistry, has_capability, get_device, get_responsive_devices_by_trait,
  get_responsive_devices_with_capability,
}

-- How the devices answer: `is_responsive`, `is_protected`, `resolve_point` and whether `write` goes
-- through.
pub record Environment : Type 0 where
  pub is_responsive : String → Bool
  pub is_protected : String → Bool
  pub resolve_point : String → String → String → String
  pub accepts : String → String → ℕ → Bool

pub data Setting : Type 0 where
  no_change : Setting
  number : ℕ → Setting

-- The fields of a `Command`; `none` is `None` or a field that is not there.
abbrev pub Command : Type 0
Command = String → Option Setting

-- `none` where the function raises.
abbrev pub Transform : Type 0
Transform = Option (ℕ → Option ℕ)

pub data Target : Type 0 where
  single : String → Target
  by_trait : String → Target
  auto : Target

-- A target is a device or a trait.
pub record CommandMapping : Type 0 where
  pub command_field : String
  pub point_name : String
  pub is_trait : Bool
  pub target : String
  pub transform : Transform

pub record CapabilityCommandMapping : Type 0 where
  pub command_field : String
  pub capability : String
  pub slot : String
  pub target : Target
  pub transform : Transform

abbrev pub Desired : Type 0
Desired = Dict String (Dict String ℕ)

-- A write that was sent, and whether it went through.
pub record Write : Type 0 where
  pub device_id : String
  pub point_name : String
  pub value : ℕ
  pub accepted : Bool

-- The router's desired state, and the writes sent.
pub record Routed : Type 0 where
  pub last_written : Desired
  pub writes : List Write

abbrev pub or_new : Option (Dict String ℕ) → Dict String ℕ
or_new none = []
or_new (some d) = d

-- `_record_written`.
unfoldable pub record_written : String → String → ℕ → Desired → Desired
record_written id point value desired =
    insert id (insert point value (or_new (lookup id desired))) desired

-- `_on_device_unregistered`.
unfoldable pub on_device_unregistered : String → Desired → Desired
on_device_unregistered id desired = erase id desired

-- `get_last_written` and `get_tracked_device_ids`.
unfoldable pub get_last_written : String → Desired → Dict String ℕ
get_last_written id desired = or_new (lookup id desired)

unfoldable pub get_tracked_device_ids : Desired → List String
get_tracked_device_ids desired = keys desired

abbrev pub transformed : Transform → ℕ → Option ℕ
transformed none v = some v
transformed (some f) v = f v

-- The value of a field to write, if there is one.
abbrev pub value_of : Transform → Option Setting → Option ℕ
value_of f none = none
value_of f (some no_change) = none
value_of f (some (number v)) = transformed f v

-- A query that raised has no devices; after calls of the registry's methods none does.
abbrev pub or_none : Option (List Device) → List Device
or_none none = []
or_none (some ds) = ds

module _ (registry : DeviceRegistry) (env : Environment) where
  -- `_safe_write`, and `_record_written` where it went through.
  unfoldable pub send : Device → String → ℕ → Routed → Routed
  send d point value st =
      let went = env.accepts d.device_id point value in
      record {
        last_written =
            if went
            then record_written d.device_id point value st.last_written
            else st.last_written;
        writes =
            st.writes
            ++ (record {
              device_id = d.device_id;
              point_name = point;
              value = value;
              accepted = went;
            }
                ∷ []);
      }

  abbrev pub is_open : Device → Bool
  is_open d = not (env.is_protected d.device_id) && env.is_responsive d.device_id

  abbrev pub send_if : Option Device → String → ℕ → Routed → Routed
  send_if none point value st = st
  send_if (some d) point value st = if is_open d then send d point value st else st

  -- `try_write_single`, which returns whether the write went through.
  unfoldable pub try_write_single : String → String → Setting → Routed → Routed
  try_write_single id point no_change st = st
  try_write_single id point (number value) st = send_if (get_device id registry) point value st

  -- The loop of a broadcast over responsive devices: a protected one is skipped.
  unfoldable pub broadcast : (Device → String) → ℕ → List Device → Routed → Routed
  unfolding send
  broadcast point value [] st = st
  broadcast point value (d ∷ ds) st =
      broadcast point value ds
        (if env.is_protected d.device_id then st else send d (point d) value st)

  abbrev pub with_trait : String → List Device
  with_trait trait = or_none (get_responsive_devices_by_trait env.is_responsive trait registry)

  -- `_write_trait_broadcast`.
  unfoldable pub write_trait_broadcast : String → String → ℕ → Routed → Routed
  unfolding broadcast
  write_trait_broadcast trait point value st = broadcast (λ d. point) value (with_trait trait) st

  abbrev pub point_of : CapabilityCommandMapping → Device → String
  point_of m d = env.resolve_point d.device_id m.capability m.slot

  abbrev pub capable : CapabilityCommandMapping → List Device → List Device
  capable m ds = filter (has_capability m.capability) ds

  abbrev pub send_capable : CapabilityCommandMapping → Option Device → ℕ → Routed → Routed
  send_capable m none value st = st
  send_capable m (some d) value st =
      if is_open d && has_capability m.capability d then send d (point_of m d) value st else st

  -- `_write_capability_single`, `_write_capability_trait` and `_write_capability_auto`.
  unfoldable pub write_capability : CapabilityCommandMapping → Target → ℕ → Routed → Routed
  unfolding broadcast
  write_capability m (single id) value st = send_capable m (get_device id registry) value st
  write_capability m (by_trait trait) value st =
      broadcast (point_of m) value (capable m (with_trait trait)) st
  write_capability m auto value st =
      broadcast (point_of m) value
        (get_responsive_devices_with_capability env.is_responsive m.capability registry) st

  abbrev pub send_mapped : CommandMapping → Option ℕ → Routed → Routed
  send_mapped m none st = st
  send_mapped m (some value) st =
      if m.is_trait
      then write_trait_broadcast m.target m.point_name value st
      else try_write_single m.target m.point_name (number value) st

  abbrev pub send_capability : CapabilityCommandMapping → Option ℕ → Routed → Routed
  send_capability m none st = st
  send_capability m (some value) st = write_capability m m.target value st

  unfoldable pub route_mappings : Command → List CommandMapping → Routed → Routed
  route_mappings command [] st = st
  route_mappings command (m ∷ ms) st =
      route_mappings command ms (send_mapped m (value_of m.transform (command m.command_field)) st)

  unfoldable pub route_capabilities : Command → List CapabilityCommandMapping → Routed → Routed
  route_capabilities command [] st = st
  route_capabilities command (m ∷ ms) st =
      route_capabilities command ms
        (send_capability m (value_of m.transform (command m.command_field)) st)

  -- `route`.
  unfoldable pub route :
      List CommandMapping → List CapabilityCommandMapping → Command → Routed → Routed
  unfolding route_mappings route_capabilities
  route ms cs command st = route_capabilities command cs (route_mappings command ms st)

  abbrev pub open_devices : List Device → List Device
  open_devices ds = filter is_open ds

  abbrev pub one_capable : CapabilityCommandMapping → Option Device → List Device
  one_capable m none = []
  one_capable m (some d) = if is_open d && has_capability m.capability d then d ∷ [] else []

  -- `_resolve_capability_targets`.
  unfoldable pub resolve_capability_targets : CapabilityCommandMapping → Target → List Device
  resolve_capability_targets m (single id) = one_capable m (get_device id registry)
  resolve_capability_targets m (by_trait trait) = open_devices (capable m (with_trait trait))
  resolve_capability_targets m auto =
      open_devices (get_responsive_devices_with_capability env.is_responsive m.capability registry)

  abbrev pub field_of : Option Command → String → Option Setting
  field_of none field = none
  field_of (some command) field = command field

  abbrev pub send_value : Device → CapabilityCommandMapping → Option ℕ → Routed → Routed
  send_value d m none st = st
  send_value d m (some value) st = send d (point_of m d) value st

  -- The devices' own commands: `_apply_transform_and_write` for each target that has one.
  unfoldable pub route_targets :
      Dict String Command → CapabilityCommandMapping → List Device → Routed → Routed
  unfolding send
  route_targets commands m [] st = st
  route_targets commands m (d ∷ ds) st = route_targets commands m ds (
      send_value d m (value_of m.transform (field_of (lookup d.device_id commands) m.command_field))
        st)

  unfoldable pub route_each : Dict String Command → List CapabilityCommandMapping → Routed → Routed
  unfolding route_targets resolve_capability_targets
  route_each commands [] st = st
  route_each commands (m ∷ ms) st =
      route_each commands ms (route_targets commands m (resolve_capability_targets m m.target) st)

  -- `route_per_device`.
  unfoldable pub route_per_device :
      List CommandMapping
      → List CapabilityCommandMapping
      → Command
      → Dict String Command
      → Routed
      → Routed
  unfolding route_mappings route_each
  route_per_device ms cs command commands st = route_each commands cs (route_mappings command ms st)

  -- The inner loop of `_refresh_once`, over the snapshot of a device.
  unfoldable pub refresh_points : String → Dict String ℕ → Routed → Routed
  unfolding try_write_single
  refresh_points id [] st = st
  refresh_points id (e ∷ snapshot) st =
      refresh_points id snapshot (try_write_single id e.0 (number e.1) st)

  unfoldable pub refresh_devices : List String → Routed → Routed
  unfolding refresh_points
  refresh_devices [] st = st
  refresh_devices (id ∷ ids) st =
      refresh_devices ids (refresh_points id (get_last_written id st.last_written) st)

  abbrev pub filtered : Option (List String) → List String → List String
  filtered none ids = ids
  filtered (some device_filter) ids = filter (λ id. contains id device_filter) ids

  -- `CommandRefreshService._refresh_once`, with the set of devices in some order.
  unfoldable pub refresh_once : Option (List String) → Routed → Routed
  unfolding refresh_devices
  refresh_once device_filter st =
      refresh_devices (filtered device_filter (get_tracked_device_ids st.last_written)) st
