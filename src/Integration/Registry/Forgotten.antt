-- ===== src/Integration/Registry/Forgotten.antt =====
-- What `register` and `unregister` do to the indices (csp_lib/integration/registry.py).
use csp_lib.Base.{
  String, true, false, ◌≡◌, refl, sym, ap, ◌∙◌, not, ◌&&◌, none, List, [], ◌∷◌, contains, Distinct,
  if◌then◌else◌, ◌==◌, ==_refl, string_equality, arith, Bool-cases, Option-cases, inl, inr,
}
use csp_lib.Base.Dict.{
  Dict, lookup, member, insert, lookup-insert, lookup-erase, insert-Distinct, erase-Distinct,
  All-insert, All-erase,
}
use csp_lib.Base.Sets.{contains-discard}
use csp_lib.Integration.Registry.{
  Device, Metadata, DeviceRegistry, ok, or_empty, traits_of, ids_of, remove_trait_index,
  remove_traits, enter, drop_device, tell_unregistered, unregister, get_device, get_traits,
}
use csp_lib.Integration.Registry.Views.{
  IsFormed, traits_of-Distinct, traits_of-remove, remove_trait_index-IsFormed,
}
use csp_lib.Integration.Registry.Indexed.{
  IsIndexed, member-insert, member-erase, remove_traits-IsIndexed,
}

missing_lookup :
    {V : Type 0} (k : String) (d : Dict String V) → member k d ≡ false → lookup k d ≡ none
missing_lookup k d h = elim (Option-cases (lookup k d)) [
  | inl n ↦ n
  | inr (v, e) ↦ absurd (ground (arith, e, h))
]

traits_of-insert_empty :
    (id j : String) (d : Dict String (List String))
    → lookup id d ≡ none
    → or_empty (lookup j (insert id [] d)) ≡ or_empty (lookup j d)
traits_of-insert_empty id j d n = rw (lookup-insert j id [] d) (elim (Bool-cases (j == id)) [
  | inl t ↦ rw (t, (string_equality.is_equal_iff j id).0 t, n) refl
  | inr f ↦ rw f refl
])

pub enter-IsIndexed :
    (d : Device) (m : Metadata) (s : DeviceRegistry)
    → member d.device_id s.devices ≡ false
    → IsIndexed s
    → IsIndexed (enter d m s)
enter-IsIndexed d m s absent i =
    let id = d.device_id in
    let none_there = missing_lookup id s.device_traits (i.registered id ∙ absent) in
    record {
      formed = record {
        traits_once = insert-Distinct id [] s.device_traits i.formed.traits_once;
        index_once = i.formed.index_once;
        trait_sets = All-insert (λ e. Distinct e.1) id [] s.device_traits tt i.formed.trait_sets;
        id_sets = i.formed.id_sets;
      };
      two_way = λ j t.
          ap (contains t) (traits_of-insert_empty id j s.device_traits none_there) ∙ i.two_way j t;
      registered = λ j. ground (
        arith,
        member-insert j id [] s.device_traits,
        member-insert j id d s.devices,
        i.registered j,
      );
      described = λ j.
          ground
            (arith, member-insert j id m s.metadata, member-insert j id d s.devices, i.described j);
      based = λ j h. ground (arith, member-insert j id d s.devices, i.based j h);
      own = All-insert (λ e. e.1.device_id ≡ e.0) id d s.devices refl i.own;
      once = insert-Distinct id d s.devices i.once;
      metadata_once = insert-Distinct id m s.metadata i.metadata_once;
      statuses_once = i.statuses_once;
    }

pub enter-member :
    (d : Device) (m : Metadata) (s : DeviceRegistry)
    → member d.device_id (enter d m s).devices ≡ true
enter-member d m s =
    ground (arith, member-insert d.device_id d.device_id d s.devices, ==_refl d.device_id)

-- The traits that are left when some are removed, one by one.
traits_of-remove_traits :
    (id : String) (ts : List String) (s : DeviceRegistry) (j u : String)
    → IsFormed s
    → contains u (traits_of j (remove_traits id ts s)) ≡ (
        if j == id
        then not (contains u ts) && contains u (traits_of id s)
        else contains u (traits_of j s))
unfolding remove_traits
traits_of-remove_traits id [] s j u f = ground (arith, string_equality.is_equal_iff j id)
traits_of-remove_traits id (t ∷ ts) s j u f =
    traits_of-remove_traits id ts (remove_trait_index id t s) j u
      (remove_trait_index-IsFormed id t s f)
    ∙ rw (traits_of-remove id t s j, traits_of-remove id t s id)
        (ground (
          arith,
          ==_refl id,
          string_equality.is_equal_iff j id,
          contains-discard u t (traits_of id s) (traits_of-Distinct id s f),
        ))

pub drop_device-IsIndexed :
    (id : String) (s : DeviceRegistry)
    → ((u : String) → contains u (traits_of id s) ≡ false)
    → IsIndexed s
    → IsIndexed (drop_device id s)
drop_device-IsIndexed id s empty i = record {
  formed = record {
    traits_once = erase-Distinct id s.device_traits i.formed.traits_once;
    index_once = i.formed.index_once;
    trait_sets = All-erase (λ e. Distinct e.1) id s.device_traits i.formed.trait_sets;
    id_sets = i.formed.id_sets;
  };
  two_way = λ j t.
      rw (lookup-erase j id s.device_traits i.formed.traits_once) (elim (Bool-cases (j == id)) [
        | inl e ↦
            rw (e, (string_equality.is_equal_iff j id).0 e) (sym (sym (i.two_way id t) ∙ empty t))
        | inr f ↦ rw f (i.two_way j t)
      ]);
  registered = λ j. ground (
    arith,
    member-erase j id s.device_traits i.formed.traits_once,
    member-erase j id s.devices i.once,
    i.registered j,
  );
  described = λ j. ground (
    arith,
    member-erase j id s.metadata i.metadata_once,
    member-erase j id s.devices i.once,
    i.described j,
  );
  based = λ j h. ground (
    arith,
    h,
    member-erase j id s.last_responsive i.statuses_once,
    member-erase j id s.devices i.once,
    i.based j,
  );
  own = All-erase (λ e. e.1.device_id ≡ e.0) id s.devices i.own;
  once = erase-Distinct id s.devices i.once;
  metadata_once = erase-Distinct id s.metadata i.metadata_once;
  statuses_once = erase-Distinct id s.last_responsive i.statuses_once;
}

-- The registry that `unregister` leaves.
abbrev pub without : String → DeviceRegistry → DeviceRegistry
without id s = drop_device id (remove_traits id (traits_of id s) s)

all_removed :
    (id : String) (s : DeviceRegistry)
    → IsIndexed s
    → (u : String) → contains u (traits_of id (remove_traits id (traits_of id s) s)) ≡ false
all_removed id s i u =
    traits_of-remove_traits id (traits_of id s) s id u i.formed ∙ (ground (arith, ==_refl id))

pub without-IsIndexed :
    (id : String) (s : DeviceRegistry)
    → member id s.devices ≡ true
    → IsIndexed s
    → IsIndexed (without id s)
without-IsIndexed id s m i =
    drop_device-IsIndexed id (remove_traits id (traits_of id s) s) (all_removed id s i)
      (remove_traits-IsIndexed id (traits_of id s) s m i).0

-- In a registry whose indices agree, `unregister` of a registered device tells each observer once,
-- and leaves no trace of the device: it is not found, has no traits, no trait lists it, and the
-- baseline of its status is gone; every other device is found and has its traits as before, and
-- the indices still agree.
pub unregister_forgets :
    (id : String) (s : DeviceRegistry)
    → member id s.devices ≡ true
    → IsIndexed s
    → (s' : DeviceRegistry) × (unregister id s
        ≡ ok s' (tell_unregistered s.unregister_observers id))
      × ((j : String) → get_device j s' ≡ (if j == id then none else get_device j s))
      × ((j u : String)
          → contains u (get_traits j s') ≡ (if j == id then false else contains u (get_traits j s)))
      × ((u : String) → contains id (ids_of u s') ≡ false)
      × (lookup id s'.last_responsive ≡ none)
      × IsIndexed s'
unfolding unregister get_device get_traits
unregister_forgets id s m i =
    let s₁ = remove_traits id (traits_of id s) s in
    let (i₁, same) = remove_traits-IsIndexed id (traits_of id s) s m i in
    let kept = without-IsIndexed id s m i in
    (
      without id s,
      rw m refl,
      λ j. lookup-erase j id s₁.devices i₁.once ∙ rw same refl,
      traits_left,
      λ u. sym (kept.two_way id u) ∙ rw (traits_left id u, ==_refl id) refl,
      lookup-erase id id s₁.last_responsive i₁.statuses_once ∙ rw (==_refl id) refl,
      kept,
    )
  where
    traits_left :
        (j u : String)
        → contains u (traits_of j (without id s))
          ≡ (if j == id then false else contains u (traits_of j s))
    traits_left j u =
        let s₁ = remove_traits id (traits_of id s) s in
        let i₁ = (remove_traits-IsIndexed id (traits_of id s) s m i).0 in
        rw (lookup-erase j id s₁.device_traits i₁.formed.traits_once) (elim (Bool-cases (j == id)) [
          | inl e ↦ rw e refl
          | inr f ↦ rw f (traits_of-remove_traits id (traits_of id s) s j u i.formed ∙ rw f refl)
        ])
