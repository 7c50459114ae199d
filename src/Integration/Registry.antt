-- ===== src/Integration/Registry.antt =====
-- `DeviceRegistry` (csp_lib/integration/registry.py). Of a device the registry reads its id and its
-- capabilities; whether it is responsive at a call is an argument. A metadata value and a callback
-- are numbers for the objects.
pub mod Views
pub mod Indexed
pub mod Forgotten
pub mod Calls
pub mod Found
use Prim.Native.String.{String, ◌++◌ as text_append}
use text.Mathlib.Text.{starts_with}
use csp_lib.Base.{
  ℕ, Bool, true, false, not, ◌&&◌, Option, none, some, List, [], ◌∷◌, ◌++◌, contains, remove,
  filter, length, ltb, eqb, is_some, if◌then◌else◌, ◌==◌, nat_equality, string_equality,
}
use csp_lib.Base.Dict.{Dict, values, lookup, member, insert, erase}
use csp_lib.Base.Sets.{add, sort_texts, text_leb}

pub record Device : Type 0 where
  pub device_id : String
  pub capabilities : List String

abbrev pub Metadata : Type 0
Metadata = Dict String ℕ

pub record DeviceRegistry : Type 0 where
  pub devices : Dict String Device
  pub device_traits : Dict String (List String)
  pub trait_devices : Dict String (List String)
  pub metadata : Dict String Metadata
  pub status_observers : List ℕ
  pub last_responsive : Dict String Bool
  pub unregister_observers : List ℕ

-- `__init__`.
unfoldable pub new : DeviceRegistry
new = record {
  devices = [];
  device_traits = [];
  trait_devices = [];
  metadata = [];
  status_observers = [];
  last_responsive = [];
  unregister_observers = [];
}

-- The calls of observers.
pub data Effect : Type 0 where
  status_changed : ℕ → String → Bool → Effect
  unregistered : ℕ → String → Effect

-- A `ValueError` or a `KeyError`, or the registry after the call.
pub data Result : Type 0 where
  ok : DeviceRegistry → List Effect → Result
  value_error key_error : Result

abbrev pub or_empty : Option (List String) → List String
or_empty none = []
or_empty (some xs) = xs

-- The traits that a device has, and the ids that a trait has.
abbrev pub traits_of : String → DeviceRegistry → List String
traits_of device_id s = or_empty (lookup device_id s.device_traits)

abbrev pub ids_of : String → DeviceRegistry → List String
ids_of trait s = or_empty (lookup trait s.trait_devices)

-- `_add_trait_index`.
unfoldable pub add_trait_index : String → String → DeviceRegistry → DeviceRegistry
add_trait_index device_id trait s = record s {
  device_traits = insert device_id (add trait (traits_of device_id s)) s.device_traits;
  trait_devices = insert trait (add device_id (ids_of trait s)) s.trait_devices;
}

-- A trait without devices leaves the index.
abbrev pub keep_or_drop :
    String → List String → Dict String (List String) → Dict String (List String)
keep_or_drop trait [] index = erase trait index
keep_or_drop trait (id ∷ ids) index = insert trait (id ∷ ids) index

-- `_remove_trait_index`.
unfoldable pub remove_trait_index : String → String → DeviceRegistry → DeviceRegistry
remove_trait_index device_id trait s = record s {
  device_traits = insert device_id (remove trait (traits_of device_id s)) s.device_traits;
  trait_devices =
      if member trait s.trait_devices
      then keep_or_drop trait (remove device_id (ids_of trait s)) s.trait_devices
      else s.trait_devices;
}

unfoldable pub add_traits : String → List String → DeviceRegistry → DeviceRegistry
unfolding add_trait_index
add_traits device_id [] s = s
add_traits device_id (t ∷ ts) s = add_traits device_id ts (add_trait_index device_id t s)

unfoldable pub remove_traits : String → List String → DeviceRegistry → DeviceRegistry
unfolding remove_trait_index
remove_traits device_id [] s = s
remove_traits device_id (t ∷ ts) s = remove_traits device_id ts (remove_trait_index device_id t s)

-- The entries of a new device, before its traits.
abbrev pub enter : Device → Metadata → DeviceRegistry → DeviceRegistry
enter d m s = record s {
  devices = insert d.device_id d s.devices;
  device_traits = insert d.device_id [] s.device_traits;
  metadata = insert d.device_id m s.metadata;
}

-- `register`; absent traits and metadata are empty ones.
unfoldable pub register : Device → List String → Metadata → DeviceRegistry → Result
unfolding add_traits
register d traits m s =
    if member d.device_id s.devices
    then value_error
    else ok (add_traits d.device_id traits (enter d m s)) []

abbrev pub cap_traits : List String → List String
cap_traits [] = []
cap_traits (c ∷ cs) = text_append "cap:" c ∷ cap_traits cs

-- `register_with_capabilities`.
unfoldable pub register_with_capabilities :
    Device → List String → Metadata → DeviceRegistry → Result
unfolding register
register_with_capabilities d extra m s = register d (extra ++ cap_traits d.capabilities) m s

-- The deletions of `unregister`, after the traits.
abbrev pub drop_device : String → DeviceRegistry → DeviceRegistry
drop_device device_id s = record s {
  devices = erase device_id s.devices;
  device_traits = erase device_id s.device_traits;
  metadata = erase device_id s.metadata;
  last_responsive = erase device_id s.last_responsive;
}

abbrev pub tell_unregistered : List ℕ → String → List Effect
tell_unregistered [] device_id = []
tell_unregistered (cb ∷ cbs) device_id = unregistered cb device_id ∷ tell_unregistered cbs device_id

-- `unregister`.
unfoldable pub unregister : String → DeviceRegistry → Result
unfolding remove_traits
unregister device_id s =
    if member device_id s.devices
    then ok (drop_device device_id (remove_traits device_id (traits_of device_id s) s))
        (tell_unregistered s.unregister_observers device_id)
    else ok s []

-- `add_trait` and `remove_trait`.
unfoldable pub add_trait : String → String → DeviceRegistry → Result
unfolding add_trait_index
add_trait device_id trait s =
    if member device_id s.devices then ok (add_trait_index device_id trait s) [] else key_error

unfoldable pub remove_trait : String → String → DeviceRegistry → Result
unfolding remove_trait_index
remove_trait device_id trait s =
    if member device_id s.devices then ok (remove_trait_index device_id trait s) [] else key_error

-- `get_device`.
unfoldable pub get_device : String → DeviceRegistry → Option Device
get_device device_id s = lookup device_id s.devices

abbrev pub collect : Option Device → Option (List Device) → Option (List Device)
collect none rest = none
collect (some d) none = none
collect (some d) (some ds) = some (d ∷ ds)

-- `[self._devices[did] for did in …]`; `none` is a `KeyError`.
unfoldable pub devices_at : List String → DeviceRegistry → Option (List Device)
devices_at [] s = some []
devices_at (id ∷ ids) s = collect (lookup id s.devices) (devices_at ids s)

-- `get_devices_by_trait`.
unfoldable pub get_devices_by_trait : String → DeviceRegistry → Option (List Device)
unfolding devices_at
get_devices_by_trait trait s = devices_at (sort_texts (ids_of trait s)) s

-- The devices of a list that are responsive now.
abbrev pub responsive_of : (String → Bool) → Option (List Device) → Option (List Device)
responsive_of is_responsive none = none
responsive_of is_responsive (some ds) = some (filter (λ d. is_responsive d.device_id) ds)

-- `get_responsive_devices_by_trait`.
unfoldable pub get_responsive_devices_by_trait :
    (String → Bool) → String → DeviceRegistry → Option (List Device)
unfolding get_devices_by_trait
get_responsive_devices_by_trait is_responsive trait s =
    responsive_of is_responsive (get_devices_by_trait trait s)

-- `Device.has_capability`, by the capability's name.
abbrev pub has_capability : String → Device → Bool
has_capability capability d = contains capability d.capabilities

insert_device : Device → List Device → List Device
insert_device d [] = d ∷ []
insert_device d (x ∷ xs) =
    if text_leb d.device_id x.device_id then d ∷ x ∷ xs else x ∷ insert_device d xs

-- `sorted(…, key=lambda d: d.device_id)`.
unfoldable pub sort_devices : List Device → List Device
unfolding insert_device
sort_devices [] = []
sort_devices (d ∷ ds) = insert_device d (sort_devices ds)

-- `get_devices_with_capability`, and the responsive ones of them.
unfoldable pub get_devices_with_capability : String → DeviceRegistry → List Device
get_devices_with_capability capability s =
    sort_devices (filter (has_capability capability) (values s.devices))

unfoldable pub get_responsive_devices_with_capability :
    (String → Bool) → String → DeviceRegistry → List Device
get_responsive_devices_with_capability is_responsive capability s =
    filter (λ d. is_responsive d.device_id) (get_devices_with_capability capability s)

-- `get_traits`.
unfoldable pub get_traits : String → DeviceRegistry → List String
get_traits device_id s = traits_of device_id s

-- The traits for capabilities, `{t for t in … if t.startswith("cap:")}`, and the difference of sets.
abbrev pub only_cap : List String → List String
only_cap ts = filter (λ t. starts_with t "cap:") ts

abbrev pub minus : List String → List String → List String
minus xs ys = filter (λ x. not (contains x ys)) xs

-- `refresh_capability_traits`, with the capabilities that the device has now.
unfoldable pub refresh_capability_traits : String → List String → DeviceRegistry → Result
unfolding add_traits remove_traits
refresh_capability_traits device_id capabilities s =
    let current = only_cap (traits_of device_id s) in
    let desired = cap_traits capabilities in
    if member device_id s.devices
    then ok
        (add_traits device_id (minus desired current)
          (remove_traits device_id (minus current desired) s))
        []
    else key_error

-- The observers' registration.
unfoldable pub on_status_change : ℕ → DeviceRegistry → DeviceRegistry
on_status_change callback s = record s { status_observers = s.status_observers ++ callback ∷ [] }

unfoldable pub remove_status_observer : ℕ → DeviceRegistry → DeviceRegistry
remove_status_observer callback s = record s {
  status_observers = remove callback s.status_observers;
}

unfoldable pub on_unregister : ℕ → DeviceRegistry → DeviceRegistry
on_unregister callback s = record s {
  unregister_observers = s.unregister_observers ++ callback ∷ [];
}

unfoldable pub remove_unregister_observer : ℕ → DeviceRegistry → DeviceRegistry
remove_unregister_observer callback s = record s {
  unregister_observers = remove callback s.unregister_observers;
}

abbrev pub tell_status : List ℕ → String → Bool → List Effect
tell_status [] device_id now = []
tell_status (cb ∷ cbs) device_id now =
    status_changed cb device_id now ∷ tell_status cbs device_id now

abbrev pub flips : Option Bool → Bool → Bool
flips none now = false
flips (some true) now = not now
flips (some false) now = now

-- `notify_status`, of a device that is responsive or not now.
unfoldable pub notify_status : String → Bool → DeviceRegistry → DeviceRegistry × List Effect
notify_status device_id now s =
    if member device_id s.devices
    then (
      record s { last_responsive = insert device_id now s.last_responsive },
      if flips (lookup device_id s.last_responsive) now
          then tell_status s.status_observers device_id now
          else [],
    )
    else (s, [])
