-- ===== src/RuntimeParameters.antt =====
-- `RuntimeParameters` (csp_lib/core/runtime_params.py), over any type of values with Python's
-- `==`; `none` is Python's `None`, which may also be stored. The observers are told in the order
-- of the notices, each of every notice, so the notices stand for what an observer sees.
pub mod Mirror
mod Tests
use Prim.Native.Char.{code}
use csp_lib.Base.{
  ℕ, String, Bool, true, false, not, Option, none, some, List, [], ◌∷◌, ◌++◌, eqb, is_some, remove,
  if◌then◌else◌, Equality, ◌==◌, nat_equality, string_equality,
}
use csp_lib.Base.Dict.{Dict, lookup, insert, erase, member}

module _ {V : Type 0} ⦃e : Equality V⦄ where
  abbrev pub is_same : Option V → Option V → Bool
  is_same none none = true
  is_same (some a) (some b) = a == b
  is_same _ _ = false

pub record RuntimeParameters (V : Type 0) : Type 0 where
  pub values : Dict String (Option V)
  pub observers : List ℕ

-- A call of `_notify`: the key, the old value and the new one.
abbrev pub Notice : Type 0 → Type 0
Notice V = String × (Option V × Option V)

abbrev pub starts_private : String → Bool
starts_private String.[] = false
starts_private (String.◌∷◌ c s) = eqb (code c) 95

module _ {V : Type 0} where
  abbrev pub or_default : Option V → Option (Option V) → Option V
  or_default default none = default
  or_default default (some v) = v

  -- `get`.
  unfoldable pub get : String → Option V → RuntimeParameters V → Option V
  get key default s = or_default default (lookup key s.values)

  -- `__contains__`.
  unfoldable pub has : String → RuntimeParameters V → Bool
  has key s = member key s.values

  -- `__getattr__`: `none` is the `AttributeError`.
  unfoldable pub get_attribute : String → RuntimeParameters V → Option (Option V)
  get_attribute name s = if starts_private name then none else lookup name s.values

  -- `on_change` and `remove_observer`.
  unfoldable pub on_change : ℕ → RuntimeParameters V → RuntimeParameters V
  on_change callback s = record s { observers = s.observers ++ callback ∷ [] }

  unfoldable pub remove_observer : ℕ → RuntimeParameters V → RuntimeParameters V
  remove_observer callback s = record s { observers = remove callback s.observers }

  -- `setdefault`, with the value that it returns.
  unfoldable pub set_default :
      String → Option V → RuntimeParameters V → RuntimeParameters V × Option V
  set_default key default s = stored (lookup key s.values)
    where
      stored : Option (Option V) → RuntimeParameters V × Option V
      stored none = (record s { values = insert key default s.values }, default)
      stored (some v) = (s, v)

  abbrev pub deleted : String → Option V → List (Notice V)
  deleted key none = []
  deleted key (some v) = (key, (some v, none)) ∷ []

  -- `delete`.
  unfoldable pub delete : String → RuntimeParameters V → RuntimeParameters V × List (Notice V)
  unfolding get
  delete key s = (record s { values = erase key s.values }, deleted key (get key none s))

module _ {V : Type 0} ⦃e : Equality V⦄ where
  abbrev pub changed : String → Option V → Option V → List (Notice V)
  changed key old new = if is_same old new then [] else (key, (old, new)) ∷ []

  -- `set`.
  unfoldable pub set :
      String → Option V → RuntimeParameters V → RuntimeParameters V × List (Notice V)
  unfolding get
  set key value s =
      (record s { values = insert key value s.values }, changed key (get key none s) value)

  -- `update`: the values under the lock, then the notices.
  unfoldable pub update :
      Dict String (Option V) → RuntimeParameters V → RuntimeParameters V × List (Notice V)
  unfolding set
  update [] s = (s, [])
  update (entry ∷ mapping) s =
      let (s₁, notices) = set entry.0 entry.1 s in
      let (s₂, others) = update mapping s₁ in (s₂, notices ++ others)

  -- `__setattr__`. A name that starts with an underscore is one of the object's own attributes,
  -- not a parameter; such a write is outside, and here leaves the parameters as they are.
  unfoldable pub set_attribute :
      String → Option V → RuntimeParameters V → RuntimeParameters V × List (Notice V)
  unfolding set
  set_attribute name value s = if starts_private name then (s, []) else set name value s

-- The writes that notify.
pub data Write (V : Type 0) : Type 0 where
  set_call : String → Option V → Write V
  update_call : Dict String (Option V) → Write V
  delete_call : String → Write V
  attribute_call : String → Option V → Write V

module _ {V : Type 0} ⦃e : Equality V⦄ where
  unfoldable pub perform : Write V → RuntimeParameters V → RuntimeParameters V × List (Notice V)
  unfolding set update delete set_attribute
  perform (set_call key value) s = set key value s
  perform (update_call mapping) s = update mapping s
  perform (delete_call key) s = delete key s
  perform (attribute_call name value) s = set_attribute name value s

  -- Writes in a row, with their notices.
  unfoldable pub run_writes :
      List (Write V) → RuntimeParameters V → RuntimeParameters V × List (Notice V)
  run_writes [] s = (s, [])
  run_writes (w ∷ ws) s =
      let (s₁, notices) = perform w s in
      let (s₂, others) = run_writes ws s₁ in (s₂, notices ++ others)
