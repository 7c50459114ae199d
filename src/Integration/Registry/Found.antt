-- ===== src/Integration/Registry/Found.antt =====
-- The devices that a query of the registry returns are registered (csp_lib/integration/registry.py).
use csp_lib.Base.{
  String, Bool, true, false, ◌≡◌, refl, ap, ◌∙◌, Option, none, some, List, [], ◌∷◌, contains,
  filter, Distinct, All, All-map, ==_refl, string_equality, arith, Bool-cases, inl, inr,
}
use csp_lib.Base.Dict.{Dict, keys, values, lookup, All-lookup}
use csp_lib.Base.Sets.{sort_texts, text_leb}
use csp_lib.Integration.Registry.{
  Device, DeviceRegistry, devices_at, collect, get_devices_by_trait,
  get_responsive_devices_by_trait, responsive_of, ids_of, has_capability, insert_device,
  sort_devices, get_devices_with_capability, get_responsive_devices_with_capability,
}
use csp_lib.Integration.Registry.Indexed.{IsIndexed}

abbrev pub IsRegistered : DeviceRegistry → Device → Type 0
IsRegistered s d = lookup d.device_id s.devices ≡ some d

pub filter-All {ℓ κ} :
    {A : Type ℓ} (P : A → Type κ) (p : A → Bool) (xs : List A)
    → All P xs
    → All (λ x. P x × (p x ≡ true)) (filter p xs)
filter-All P p [] h = tt
filter-All P p (x ∷ xs) h = elim (Bool-cases (p x)) [
  | inl t ↦ rw t ((h.0, t), filter-All P p xs h.1)
  | inr f ↦ rw f (filter-All P p xs h.1)
]

abbrev pub All? {ℓ κ} : {A : Type ℓ} → (A → Type κ) → Option (List A) → Type κ
All? P none = Unit
All? P (some xs) = All P xs

collect-All :
    (s : DeviceRegistry) (d : Option Device) (ds : Option (List Device))
    → ((x : Device) → d ≡ some x → IsRegistered s x)
    → All? (IsRegistered s) ds
    → All? (IsRegistered s) (collect d ds)
collect-All s none ds h k = tt
collect-All s (some d) none h k = tt
collect-All s (some d) (some ds) h k = (h d refl, k)

pub lookup-IsRegistered :
    (s : DeviceRegistry) (id : String) (d : Device)
    → IsIndexed s
    → lookup id s.devices ≡ some d
    → IsRegistered s d
lookup-IsRegistered s id d i h =
    let own : d.device_id ≡ id = All-lookup (λ p. p.1.device_id ≡ p.0) id d s.devices i.own h in
    ap (λ j. lookup j s.devices) own ∙ h

devices_at-All :
    (ids : List String) (s : DeviceRegistry)
    → IsIndexed s
    → All? (IsRegistered s) (devices_at ids s)
unfolding devices_at
devices_at-All [] s i = tt
devices_at-All (id ∷ ids) s i =
    collect-All s (lookup id s.devices) (devices_at ids s) (λ d h. lookup-IsRegistered s id d i h)
      (devices_at-All ids s i)

responsive_of-All :
    (is_responsive : String → Bool) (s : DeviceRegistry) (ds : Option (List Device))
    → All? (IsRegistered s) ds
    → All?
        (λ d. IsRegistered s d × (is_responsive d.device_id ≡ true))
        (responsive_of is_responsive ds)
responsive_of-All is_responsive s none h = tt
responsive_of-All is_responsive s (some ds) h =
    filter-All (IsRegistered s) (λ d. is_responsive d.device_id) ds h

pub by_trait-All :
    (is_responsive : String → Bool) (t : String) (s : DeviceRegistry)
    → IsIndexed s
    → All?
        (λ d. IsRegistered s d × (is_responsive d.device_id ≡ true))
        (get_responsive_devices_by_trait is_responsive t s)
unfolding get_responsive_devices_by_trait get_devices_by_trait
by_trait-All is_responsive t s i =
    responsive_of-All is_responsive s (devices_at (sort_texts (ids_of t s)) s)
      (devices_at-All (sort_texts (ids_of t s)) s i)

insert_device-All :
    (P : Device → Type 0) (d : Device) (ds : List Device)
    → P d
    → All P ds
    → All P (insert_device d ds)
unfolding insert_device
insert_device-All P d [] h k = (h, tt)
insert_device-All P d (x ∷ xs) h k = elim (Bool-cases (text_leb d.device_id x.device_id)) [
  | inl t ↦ rw t (h, k)
  | inr f ↦ rw f (k.0, insert_device-All P d xs h k.1)
]

sort_devices-All : (P : Device → Type 0) (ds : List Device) → All P ds → All P (sort_devices ds)
unfolding sort_devices
sort_devices-All P [] h = tt
sort_devices-All P (d ∷ ds) h =
    insert_device-All P d (sort_devices ds) h.0 (sort_devices-All P ds h.1)

-- Every entry of a dict is found under its key.
pub entries-All :
    {V : Type 0} (d : Dict String V) → Distinct (keys d) → All (λ e. lookup e.0 d ≡ some e.1) d
entries-All [] h = tt
entries-All (e ∷ d) h = (rw (==_refl e.0) refl, later d (entries-All d h.1) h.0)
  where
    later :
        (es : Dict String _)
        → All (λ x. lookup x.0 d ≡ some x.1) es
        → contains e.0 (keys es) ≡ false
        → All (λ x. lookup x.0 (e ∷ d) ≡ some x.1) es
    later [] k n = tt
    later (x ∷ es) k n = (
      ground (
        arith,
        k.0,
        n,
        string_equality.is_equal_iff x.0 e.0,
        string_equality.is_equal_iff e.0 x.0,
      ),
      later es k.1 (ground (arith, n)),
    )

values-All : (P : Device → Type 0) (d : Dict String Device) → All (λ e. P e.1) d → All P (values d)
values-All P [] h = tt
values-All P (e ∷ d) h = (h.0, values-All P d h.1)

all-IsRegistered : (s : DeviceRegistry) → IsIndexed s → All (IsRegistered s) (values s.devices)
all-IsRegistered s i =
    values-All (IsRegistered s) s.devices
      (All-map s.devices (λ e h. lookup-IsRegistered s e.0 e.1 i h) (entries-All s.devices i.once))

pub with_capability-All :
    (is_responsive : String → Bool) (c : String) (s : DeviceRegistry)
    → IsIndexed s
    → All
        (λ d. IsRegistered s d × (is_responsive d.device_id ≡ true))
        (get_responsive_devices_with_capability is_responsive c s)
unfolding get_responsive_devices_with_capability get_devices_with_capability
with_capability-All is_responsive c s i =
    filter-All (IsRegistered s) (λ d. is_responsive d.device_id)
      (sort_devices (filter (has_capability c) (values s.devices)))
      (sort_devices-All (IsRegistered s) (filter (has_capability c) (values s.devices)) (
        All-map (filter (has_capability c) (values s.devices)) (λ d h. h.0)
          (filter-All (IsRegistered s) (has_capability c) (values s.devices)
            (all-IsRegistered s i))))
