-- ===== src/Integration/Registry/Indexed.antt =====
-- The two indices of the registry agree (csp_lib/integration/registry.py).
use csp_lib.Base.{
  String, true, ◌≡◌, refl, ◌∙◌, not, ◌&&◌, ◌||◌, List, [], ◌∷◌, contains, remove, Distinct, All,
  ◌==◌, string_equality, arith,
}
use csp_lib.Base.Dict.{Dict, keys, member, insert, erase, lookup-insert, lookup-erase}
use csp_lib.Base.Sets.{add, contains-add, contains-discard}
use csp_lib.Integration.Registry.{
  DeviceRegistry, traits_of, ids_of, add_trait_index, remove_trait_index, add_traits, remove_traits,
}
use csp_lib.Integration.Registry.Views.{
  IsFormed, traits_of-Distinct, ids_of-Distinct, traits_of-add, ids_of-add, traits_of-remove,
  ids_of-remove, add_trait_index-IsFormed, remove_trait_index-IsFormed,
}

-- A device has a trait exactly when the trait has the device, and the other dicts have the
-- registered devices.
pub record IsIndexed (s : DeviceRegistry) : Type 0 where
  pub formed : IsFormed s
  pub two_way : (id t : String) → contains t (traits_of id s) ≡ contains id (ids_of t s)
  pub registered : (id : String) → member id s.device_traits ≡ member id s.devices
  pub described : (id : String) → member id s.metadata ≡ member id s.devices
  pub based : (id : String) → member id s.last_responsive ≡ true → member id s.devices ≡ true
  pub own : All (λ e. e.1.device_id ≡ e.0) s.devices
  pub once : Distinct (keys s.devices)
  pub metadata_once : Distinct (keys s.metadata)
  pub statuses_once : Distinct (keys s.last_responsive)

pub member-insert :
    {V : Type 0} (j k : String) (v : V) (d : Dict String V)
    → member j (insert k v d) ≡ (j == k || member j d)
member-insert j k v d = ground (arith, lookup-insert j k v d)

pub member-erase :
    {V : Type 0} (j k : String) (d : Dict String V)
    → Distinct (keys d)
    → member j (erase k d) ≡ (not (j == k) && member j d)
member-erase j k d h = ground (arith, lookup-erase j k d h)

two_way-add :
    (id t : String) (s : DeviceRegistry)
    → ((j u : String) → contains u (traits_of j s) ≡ contains j (ids_of u s))
    → (j u : String)
    → contains u (traits_of j (add_trait_index id t s))
      ≡ contains j (ids_of u (add_trait_index id t s))
two_way-add id t s h j u =
    rw (traits_of-add, ids_of-add)
      (ground (
        arith,
        contains-add u t (traits_of id s),
        contains-add j id (ids_of t s),
        string_equality.is_equal_iff j id,
        string_equality.is_equal_iff u t,
        h j u,
        h id u,
        h j t,
        h id t,
      ))

two_way-remove :
    (id t : String) (s : DeviceRegistry)
    → IsFormed s
    → ((j u : String) → contains u (traits_of j s) ≡ contains j (ids_of u s))
    → (j u : String)
    → contains u (traits_of j (remove_trait_index id t s))
      ≡ contains j (ids_of u (remove_trait_index id t s))
two_way-remove id t s f h j u =
    rw (traits_of-remove, ids_of-remove id t s u f)
      (ground (
        arith,
        contains-discard u t (traits_of id s) (traits_of-Distinct id s f),
        contains-discard j id (ids_of t s) (ids_of-Distinct t s f),
        string_equality.is_equal_iff j id,
        string_equality.is_equal_iff u t,
        h j u,
        h id u,
        h j t,
        h id t,
      ))

-- The traits of a registered device may change in either way.
pub add_trait_index-IsIndexed :
    (id t : String) (s : DeviceRegistry)
    → member id s.devices ≡ true
    → IsIndexed s
    → IsIndexed (add_trait_index id t s)
unfolding add_trait_index
add_trait_index-IsIndexed id t s m i = record {
  formed = add_trait_index-IsFormed id t s i.formed;
  two_way = two_way-add id t s i.two_way;
  registered = λ j. ground (
    arith,
    m,
    member-insert j id (add t (traits_of id s)) s.device_traits,
    string_equality.is_equal_iff j id,
    i.registered j,
  );
  described = i.described;
  based = i.based;
  own = i.own;
  once = i.once;
  metadata_once = i.metadata_once;
  statuses_once = i.statuses_once;
}

pub remove_trait_index-IsIndexed :
    (id t : String) (s : DeviceRegistry)
    → member id s.devices ≡ true
    → IsIndexed s
    → IsIndexed (remove_trait_index id t s)
unfolding remove_trait_index
remove_trait_index-IsIndexed id t s m i = record {
  formed = remove_trait_index-IsFormed id t s i.formed;
  two_way = two_way-remove id t s i.formed i.two_way;
  registered = λ j. ground (
    arith,
    m,
    member-insert j id (remove t (traits_of id s)) s.device_traits,
    string_equality.is_equal_iff j id,
    i.registered j,
  );
  described = i.described;
  based = i.based;
  own = i.own;
  once = i.once;
  metadata_once = i.metadata_once;
  statuses_once = i.statuses_once;
}

-- The devices are left alone by changes of traits.
add_trait_index-devices :
    (id t : String) (s : DeviceRegistry) → (add_trait_index id t s).devices ≡ s.devices
unfolding add_trait_index
add_trait_index-devices id t s = refl

remove_trait_index-devices :
    (id t : String) (s : DeviceRegistry) → (remove_trait_index id t s).devices ≡ s.devices
unfolding remove_trait_index
remove_trait_index-devices id t s = refl

pub add_traits-IsIndexed :
    (id : String) (ts : List String) (s : DeviceRegistry)
    → member id s.devices ≡ true
    → IsIndexed s
    → IsIndexed (add_traits id ts s) × ((add_traits id ts s).devices ≡ s.devices)
unfolding add_traits
add_traits-IsIndexed id [] s m i = (i, refl)
add_traits-IsIndexed id (t ∷ ts) s m i =
    let same = add_trait_index-devices id t s in
    let (j, e) =
      add_traits-IsIndexed id ts (add_trait_index id t s) (rw same m)
        (add_trait_index-IsIndexed id t s m i) in
    (j, e ∙ same)

pub remove_traits-IsIndexed :
    (id : String) (ts : List String) (s : DeviceRegistry)
    → member id s.devices ≡ true
    → IsIndexed s
    → IsIndexed (remove_traits id ts s) × ((remove_traits id ts s).devices ≡ s.devices)
unfolding remove_traits
remove_traits-IsIndexed id [] s m i = (i, refl)
remove_traits-IsIndexed id (t ∷ ts) s m i =
    let same = remove_trait_index-devices id t s in
    let (j, e) =
      remove_traits-IsIndexed id ts (remove_trait_index id t s) (rw same m)
        (remove_trait_index-IsIndexed id t s m i) in
    (j, e ∙ same)
