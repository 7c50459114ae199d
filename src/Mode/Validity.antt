-- ===== src/Mode/Validity.antt =====
-- The invariant of the mode manager under every method (controller/system/mode.py).
use csp_lib.Base.{
  String, ◌≡◌, true, false, Option, none, some, List, [], ◌∷◌, ◌++◌, arith, contains, remove,
  Distinct, All, string_equality, ◌==◌, All-map, All-remove, All_but, All-append,
  contains-remove_self, remove-Distinct, append_one-Distinct,
}
use csp_lib.Base.Dict.{
  Dict, insert, erase, member, keys, lookup-insert, lookup-erase_ne, insert-Distinct, All-insert,
  erase-Distinct, All-erase,
}
use csp_lib.Mode.{
  ModeDefinition, ModeManager, SwitchSource, ok, raised, Method, with_source, forget,
}

-- A name that stands for a mode.
abbrev pub IsRegistered : Dict String ModeDefinition → String → Type 0
IsRegistered modes n = member n modes ≡ true

pub record IsValid (s : ModeManager) : Type 0 where
  pub one_each : Distinct (keys s.modes)
  pub named : All (λ e. e.0 ≡ e.1.name) s.modes
  pub bases_distinct : Distinct s.base_names
  pub bases_registered : All (IsRegistered s.modes) s.base_names
  pub overrides_distinct : Distinct s.override_names
  pub overrides_registered : All (IsRegistered s.modes) s.override_names

abbrev pub Keeps : Method → Type 0
Keeps (ok r) = IsValid r.0
Keeps (raised e) = Unit

pub with_source-IsValid :
    (source : Option SwitchSource) (s : ModeManager) → IsValid s → IsValid (with_source source s)
with_source-IsValid none s v = v
with_source-IsValid (some source) s v = record {
  one_each = v.one_each;
  named = v.named;
  bases_distinct = v.bases_distinct;
  bases_registered = v.bases_registered;
  overrides_distinct = v.overrides_distinct;
  overrides_registered = v.overrides_registered;
}

IsRegistered-insert :
    (name : String) (m : ModeDefinition) (modes : Dict String ModeDefinition) (n : String)
    → IsRegistered modes n
    → IsRegistered (insert name m modes) n
IsRegistered-insert name m modes n h = ground (arith, lookup-insert n name m modes)

IsRegistered-erase :
    (name : String) (modes : Dict String ModeDefinition) (n : String)
    → (n == name) ≡ false
    → IsRegistered modes n
    → IsRegistered (erase name modes) n
IsRegistered-erase name modes n ne h = rw (lookup-erase_ne n name modes ne) h

pub insert-IsValid :
    (name : String) (m : ModeDefinition) (s : ModeManager)
    → name ≡ m.name
    → IsValid s
    → IsValid (record s { modes = insert name m s.modes })
insert-IsValid name m s e v = record {
  one_each = insert-Distinct name m s.modes v.one_each;
  named = All-insert (λ e. e.0 ≡ e.1.name) name m s.modes e v.named;
  bases_distinct = v.bases_distinct;
  bases_registered = All-map s.base_names (IsRegistered-insert name m s.modes) v.bases_registered;
  overrides_distinct = v.overrides_distinct;
  overrides_registered =
      All-map s.override_names (IsRegistered-insert name m s.modes) v.overrides_registered;
}

-- The names that are left after a removal are not the name removed.
left-IsRegistered :
    (name : String) (modes : Dict String ModeDefinition) (ns : List String)
    → Distinct ns
    → All (IsRegistered modes) ns
    → All (IsRegistered (erase name modes)) (remove name ns)
left-IsRegistered name modes ns d h =
    All_but (IsRegistered modes) (IsRegistered (erase name modes)) name (remove name ns)
      (IsRegistered-erase name modes) (contains-remove_self name ns d)
      (All-remove (IsRegistered modes) name ns h)

pub forget-IsValid : (name : String) (s : ModeManager) → IsValid s → IsValid (forget name s)
forget-IsValid name s v = record {
  one_each = erase-Distinct name s.modes v.one_each;
  named = All-erase (λ e. e.0 ≡ e.1.name) name s.modes v.named;
  bases_distinct = remove-Distinct name s.base_names v.bases_distinct;
  bases_registered =
      left-IsRegistered name s.modes s.base_names v.bases_distinct v.bases_registered;
  overrides_distinct = remove-Distinct name s.override_names v.overrides_distinct;
  overrides_registered =
      left-IsRegistered name s.modes s.override_names v.overrides_distinct v.overrides_registered;
}

-- A list of base names or of overrides.
pub record IsNames (modes : Dict String ModeDefinition) (ns : List String) : Type 0 where
  pub distinct : Distinct ns
  pub registered : All (IsRegistered modes) ns

pub bases-IsValid :
    (s : ModeManager) (ns : List String)
    → IsNames s.modes ns
    → IsValid s
    → IsValid (record s { base_names = ns })
bases-IsValid s ns n v = record {
  one_each = v.one_each;
  named = v.named;
  bases_distinct = n.distinct;
  bases_registered = n.registered;
  overrides_distinct = v.overrides_distinct;
  overrides_registered = v.overrides_registered;
}

pub overrides-IsValid :
    (s : ModeManager) (ns : List String)
    → IsNames s.modes ns
    → IsValid s
    → IsValid (record s { override_names = ns })
overrides-IsValid s ns n v = record {
  one_each = v.one_each;
  named = v.named;
  bases_distinct = v.bases_distinct;
  bases_registered = v.bases_registered;
  overrides_distinct = n.distinct;
  overrides_registered = n.registered;
}

pub append-IsNames :
    (modes : Dict String ModeDefinition) (name : String) (ns : List String)
    → Distinct ns
    → All (IsRegistered modes) ns
    → contains name ns ≡ false
    → IsRegistered modes name
    → IsNames modes (ns ++ name ∷ [])
append-IsNames modes name ns d h n r = record {
  distinct = append_one-Distinct name ns d n;
  registered = All-append (IsRegistered modes) ns (name ∷ []) h (r, tt);
}

pub remove-IsNames :
    (modes : Dict String ModeDefinition) (name : String) (ns : List String)
    → Distinct ns
    → All (IsRegistered modes) ns
    → IsNames modes (remove name ns)
remove-IsNames modes name ns d h = record {
  distinct = remove-Distinct name ns d;
  registered = All-remove (IsRegistered modes) name ns h;
}
