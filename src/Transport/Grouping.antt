-- ===== src/Transport/Grouping.antt =====
-- `PointGrouper` (equipment/transport/base.py, config.py). Of a point the grouper reads its name
-- group, unit, function code, address and register count; a `ReadPoint` always has a function
-- code, since its `__post_init__` fills it in, and a missing unit sorts before any other.
pub mod Sorting
pub mod Merging
pub mod Groups
use csp_lib.Base.{
  ℕ, ◌+◌, ◌-◌, String, Bool, true, false, not, ◌&&◌, Option, none, some, List, [], ◌∷◌, ◌++◌, max,
  ltb, leb, eqb, if◌then◌else◌, ◌==◌, nat_equality, string_equality,
}
use csp_lib.Base.Dict.{Dict, lookup}
use csp_lib.Base.Sets.{codes, lex_leb}

pub record ReadPoint : Type 0 where
  pub name : String
  pub address : ℕ
  pub register_count : ℕ
  pub function_code : ℕ
  pub read_group : String
  pub unit_id : Option ℕ

pub record ReadGroup : Type 0 where
  pub function_code : ℕ
  pub start_address : ℕ
  pub count : ℕ
  pub points : List ReadPoint
  pub unit_id : Option ℕ

abbrev pub Config : Type 0
Config = Dict ℕ ℕ

-- The default `fc_max_length`.
abbrev pub default_config : Config
default_config = (1, 2000) ∷ (2, 2000) ∷ (3, 125) ∷ (4, 125) ∷ []

abbrev or_125 : Option ℕ → ℕ
or_125 none = 125
or_125 (some n) = n

-- `fc_max_length.get(function_code, 125)`.
unfoldable pub max_length : Config → ℕ → ℕ
max_length config function_code = or_125 (lookup function_code config)

-- The place of a unit in the order: -1 for a missing one, all shifted by one.
abbrev pub unit_key : Option ℕ → ℕ
unit_key none = 0
unit_key (some u) = u + 1

-- `_sort_key(p) <= _sort_key(q)`, tuple by tuple.
unfoldable pub key_leb : ReadPoint → ReadPoint → Bool
key_leb p q =
    if ltb (unit_key p.unit_id) (unit_key q.unit_id)
    then true
    else if ltb (unit_key q.unit_id) (unit_key p.unit_id)
    then false
    else if not (lex_leb (codes q.read_group) (codes p.read_group))
    then true
    else if not (lex_leb (codes p.read_group) (codes q.read_group))
    then false
    else if ltb p.function_code q.function_code
    then true
    else if ltb q.function_code p.function_code
    then false
    else leb p.address q.address

insert_point : ReadPoint → List ReadPoint → List ReadPoint
insert_point p [] = p ∷ []
insert_point p (q ∷ qs) = if key_leb p q then p ∷ q ∷ qs else q ∷ insert_point p qs

-- `sorted`, which keeps the order of equals.
unfoldable pub sort_points : List ReadPoint → List ReadPoint
unfolding insert_point
sort_points [] = []
sort_points (p ∷ ps) = insert_point p (sort_points ps)

-- `_bucket_key(p) == _bucket_key(q)`.
abbrev pub same_bucket : ReadPoint → ReadPoint → Bool
same_bucket p q =
    eqb (unit_key p.unit_id) (unit_key q.unit_id)
    && (p.read_group == q.read_group && eqb p.function_code q.function_code)

abbrev add_to_run : ReadPoint → List (List ReadPoint) → List (List ReadPoint)
add_to_run p [] = (p ∷ []) ∷ []
add_to_run p ([] ∷ runs) = (p ∷ []) ∷ runs
add_to_run p ((q ∷ qs) ∷ runs) =
    if same_bucket p q then (p ∷ q ∷ qs) ∷ runs else (p ∷ []) ∷ (q ∷ qs) ∷ runs

-- `itertools.groupby`: the runs of points of the same bucket.
unfoldable pub runs_of : List ReadPoint → List (List ReadPoint)
runs_of [] = []
runs_of (p ∷ ps) = add_to_run p (runs_of ps)

module _ (limit function_code : ℕ) (unit_id : Option ℕ) where
  abbrev flush : List ReadPoint → (start end : ℕ) → ReadGroup
  flush current start end = record {
    function_code = function_code;
    start_address = start;
    count = end - start;
    points = current;
    unit_id = unit_id;
  }

  -- The loop of `_merge_consecutive` from the second point of a group on.
  unfoldable pub merge_from : List ReadPoint → (start end : ℕ) → List ReadPoint → List ReadGroup
  merge_from current start end [] = flush current start end ∷ []
  merge_from current start end (p ∷ ps) =
      elim (leb (p.address + p.register_count) (start + limit)) [
        | true ↦ merge_from (current ++ p ∷ []) start (max end (p.address + p.register_count)) ps
        | false ↦
            flush current start end
            ∷ merge_from (p ∷ []) p.address (p.address + p.register_count) ps
      ]

-- `_merge_consecutive`, for a run of one bucket, by its first point's function code and unit.
unfoldable pub merge_consecutive : Config → List ReadPoint → List ReadGroup
merge_consecutive config [] = []
merge_consecutive config (p ∷ ps) =
    merge_from (max_length config p.function_code) p.function_code p.unit_id (p ∷ []) p.address
      (p.address + p.register_count) ps

unfoldable pub merge_runs : Config → List (List ReadPoint) → List ReadGroup
merge_runs config [] = []
merge_runs config (run ∷ runs) = merge_consecutive config run ++ merge_runs config runs

-- `PointGrouper.group`.
unfoldable pub group : Config → List ReadPoint → List ReadGroup
group config points = merge_runs config (runs_of (sort_points points))

-- The points of the groups, in order.
unfoldable pub points_of : List ReadGroup → List ReadPoint
points_of [] = []
points_of (g ∷ gs) = g.points ++ points_of gs
