-- ===== src/Integration/Registry/Views.antt =====
-- What the two indices of the registry hold after each change (csp_lib/integration/registry.py).
use csp_lib.Base.{
  String, ◌≡◌, refl, List, [], ◌∷◌, remove, Distinct, All, if◌then◌else◌, ◌==◌, string_equality,
  Bool-cases, Option-cases, inl, inr, remove-Distinct,
}
use csp_lib.Base.Dict.{
  Dict, keys, lookup, member, insert, lookup-insert, lookup-erase, insert-Distinct, erase-Distinct,
  All-lookup, All-insert, All-erase,
}
use csp_lib.Base.Sets.{add, add-Distinct}
use csp_lib.Integration.Registry.{
  DeviceRegistry, or_empty, traits_of, ids_of, add_trait_index, remove_trait_index, keep_or_drop,
}

-- The sets and the dicts are such.
pub record IsFormed (s : DeviceRegistry) : Type 0 where
  pub traits_once : Distinct (keys s.device_traits)
  pub index_once : Distinct (keys s.trait_devices)
  pub trait_sets : All (λ e. Distinct e.1) s.device_traits
  pub id_sets : All (λ e. Distinct e.1) s.trait_devices

or_empty-insert :
    (j k : String) (v : List String) (d : Dict String (List String))
    → or_empty (lookup j (insert k v d)) ≡ (if j == k then v else or_empty (lookup j d))
or_empty-insert j k v d =
    rw (lookup-insert j k v d)
      (elim (Bool-cases (j == k)) [ inl t ↦ rw t refl | inr f ↦ rw f refl ])

or_empty-Distinct :
    (k : String) (d : Dict String (List String))
    → All (λ e. Distinct e.1) d
    → Distinct (or_empty (lookup k d))
or_empty-Distinct k d h = elim (Option-cases (lookup k d)) [
  | inl n ↦ rw n tt
  | inr (v, e) ↦ rw e (All-lookup (λ p. Distinct p.1) k v d h e)
]

pub traits_of-Distinct : (id : String) (s : DeviceRegistry) → IsFormed s → Distinct (traits_of id s)
traits_of-Distinct id s f = or_empty-Distinct id s.device_traits f.trait_sets

pub ids_of-Distinct : (t : String) (s : DeviceRegistry) → IsFormed s → Distinct (ids_of t s)
ids_of-Distinct t s f = or_empty-Distinct t s.trait_devices f.id_sets

pub traits_of-add :
    (id t : String) (s : DeviceRegistry) (j : String)
    → traits_of j (add_trait_index id t s)
      ≡ (if j == id then add t (traits_of id s) else traits_of j s)
unfolding add_trait_index
traits_of-add id t s j = or_empty-insert j id (add t (traits_of id s)) s.device_traits

pub ids_of-add :
    (id t : String) (s : DeviceRegistry) (u : String)
    → ids_of u (add_trait_index id t s) ≡ (if u == t then add id (ids_of t s) else ids_of u s)
unfolding add_trait_index
ids_of-add id t s u = or_empty-insert u t (add id (ids_of t s)) s.trait_devices

pub traits_of-remove :
    (id t : String) (s : DeviceRegistry) (j : String)
    → traits_of j (remove_trait_index id t s)
      ≡ (if j == id then remove t (traits_of id s) else traits_of j s)
unfolding remove_trait_index
traits_of-remove id t s j = or_empty-insert j id (remove t (traits_of id s)) s.device_traits

or_empty-keep_or_drop :
    (u t : String) (ids : List String) (d : Dict String (List String))
    → Distinct (keys d)
    → or_empty (lookup u (keep_or_drop t ids d)) ≡ (if u == t then ids else or_empty (lookup u d))
or_empty-keep_or_drop u t [] d h =
    rw (lookup-erase u t d h) (elim (Bool-cases (u == t)) [ inl e ↦ rw e refl | inr f ↦ rw f refl ])
or_empty-keep_or_drop u t (id ∷ ids) d h = or_empty-insert u t (id ∷ ids) d

pub ids_of-remove :
    (id t : String) (s : DeviceRegistry) (u : String)
    → IsFormed s
    → ids_of u (remove_trait_index id t s) ≡ (if u == t then remove id (ids_of t s) else ids_of u s)
unfolding remove_trait_index
ids_of-remove id t s u f = elim (Option-cases (lookup t s.trait_devices)) [
  | inl n ↦ rw n (elim (Bool-cases (u == t)) [
    | inl e ↦ rw (e, (string_equality.is_equal_iff u t).0 e, n) refl
    | inr d ↦ rw d refl
  ])
  | inr (v, h) ↦ rw h (or_empty-keep_or_drop u t (remove id v) s.trait_devices f.index_once)
]

pub add_trait_index-IsFormed :
    (id t : String) (s : DeviceRegistry) → IsFormed s → IsFormed (add_trait_index id t s)
unfolding add_trait_index
add_trait_index-IsFormed id t s f = record {
  traits_once = insert-Distinct id (add t (traits_of id s)) s.device_traits f.traits_once;
  index_once = insert-Distinct t (add id (ids_of t s)) s.trait_devices f.index_once;
  trait_sets =
      All-insert (λ e. Distinct e.1) id (add t (traits_of id s)) s.device_traits
        (add-Distinct t (traits_of id s) (traits_of-Distinct id s f)) f.trait_sets;
  id_sets =
      All-insert (λ e. Distinct e.1) t (add id (ids_of t s)) s.trait_devices
        (add-Distinct id (ids_of t s) (ids_of-Distinct t s f)) f.id_sets;
}

keep_or_drop-once :
    (t : String) (ids : List String) (d : Dict String (List String))
    → Distinct (keys d)
    → Distinct (keys (keep_or_drop t ids d))
keep_or_drop-once t [] d h = erase-Distinct t d h
keep_or_drop-once t (id ∷ ids) d h = insert-Distinct t (id ∷ ids) d h

keep_or_drop-sets :
    (t : String) (ids : List String) (d : Dict String (List String))
    → Distinct ids
    → All (λ e. Distinct e.1) d
    → All (λ e. Distinct e.1) (keep_or_drop t ids d)
keep_or_drop-sets t [] d h k = All-erase (λ e. Distinct e.1) t d k
keep_or_drop-sets t (id ∷ ids) d h k = All-insert (λ e. Distinct e.1) t (id ∷ ids) d h k

pub remove_trait_index-IsFormed :
    (id t : String) (s : DeviceRegistry) → IsFormed s → IsFormed (remove_trait_index id t s)
unfolding remove_trait_index
remove_trait_index-IsFormed id t s f =
    let traits = remove t (traits_of id s) in
    let ids = remove id (ids_of t s) in
    let once = insert-Distinct id traits s.device_traits f.traits_once in
    let sets =
      All-insert (λ e. Distinct e.1) id traits s.device_traits
        (remove-Distinct t (traits_of id s) (traits_of-Distinct id s f)) f.trait_sets in
    elim (Bool-cases (member t s.trait_devices)) [
      | inr n ↦ record {
        traits_once = once;
        index_once = rw n f.index_once;
        trait_sets = sets;
        id_sets = rw n f.id_sets;
      }
      | inl m ↦ record {
        traits_once = once;
        index_once = rw m (keep_or_drop-once t ids s.trait_devices f.index_once);
        trait_sets = sets;
        id_sets = rw m (
            keep_or_drop-sets t ids s.trait_devices
              (remove-Distinct id (ids_of t s) (ids_of-Distinct t s f)) f.id_sets);
      }
    ]
