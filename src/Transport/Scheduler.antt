-- ===== src/Transport/Scheduler.antt =====
-- `ReadScheduler` (equipment/transport/scheduler.py), over any type of read groups.
pub mod Rotation
use csp_lib.Base.{
  ℕ, ◌+◌, ◌%◌, Bool, true, false, Option, none, some, List, [], ◌∷◌, ◌++◌, length, get_elem?,
}

pub record ReadScheduler (G : Type 0) : Type 0 where
  pub always_groups : List G
  pub rotating_groups : List (List G)
  pub rotating_index : ℕ

-- An absent argument stands for an empty sequence.
abbrev pub or_empty : {A : Type 0} → Option (List A) → List A
or_empty none = []
or_empty (some xs) = xs

module _ {G : Type 0} where
  -- `__init__`.
  unfoldable pub new : Option (List G) → Option (List (List G)) → ReadScheduler G
  new always rotating = record {
    always_groups = or_empty always;
    rotating_groups = or_empty rotating;
    rotating_index = 0;
  }

  -- `always + rotating[index]`; an index out of range is an `IndexError`.
  abbrev add_rotating : List G → Option (List G) → Option (List G)
  add_rotating always none = none
  add_rotating always (some rotating) = some (always ++ rotating)

  -- The groups of a call, with the rotating groups given.
  groups_at : List (List G) → ReadScheduler G → Option (List G)
  groups_at [] s = some s.always_groups
  groups_at (g ∷ gs) s = add_rotating s.always_groups (get_elem? (g ∷ gs) s.rotating_index)

  abbrev advance : List (List G) → ReadScheduler G → ReadScheduler G
  advance [] s = s
  advance (g ∷ gs) s = record s {
    rotating_index = (s.rotating_index + 1) % length s.rotating_groups;
  }

  -- `get_next_groups`.
  unfoldable pub get_next_groups : ReadScheduler G → ReadScheduler G × Option (List G)
  unfolding groups_at
  get_next_groups s = (advance s.rotating_groups s, groups_at s.rotating_groups s)

  -- `peek_next_groups`.
  unfoldable pub peek_next_groups : ReadScheduler G → Option (List G)
  unfolding groups_at
  peek_next_groups s = groups_at s.rotating_groups s

  abbrev with_always : Option (List G) → ReadScheduler G → ReadScheduler G
  with_always none s = s
  with_always (some always) s = record s { always_groups = always }

  abbrev with_rotating : Option (List (List G)) → ReadScheduler G → ReadScheduler G
  with_rotating none s = s
  with_rotating (some rotating) s = record s { rotating_groups = rotating; rotating_index = 0 }

  -- `update_groups`.
  unfoldable pub update_groups :
      Option (List G) → Option (List (List G)) → ReadScheduler G → ReadScheduler G
  update_groups always rotating s = with_rotating rotating (with_always always s)

  unfoldable pub reset : ReadScheduler G → ReadScheduler G
  reset s = record s { rotating_index = 0 }

  unfoldable pub has_rotating : ReadScheduler G → Bool
  has_rotating s = is_nonempty s.rotating_groups
    where
      is_nonempty : List (List G) → Bool
      is_nonempty [] = false
      is_nonempty (g ∷ gs) = true
