-- ===== src/Transport/Grouping/Groups.antt =====
-- The groups that `PointGrouper.group` returns (equipment/transport/base.py).
use csp_lib.Base.{
  ℕ, ◌+◌, ◌≤◌, ◌≡◌, refl, sym, ap, subst, ◌∙◌, String, true, List, [], ◌∷◌, ◌++◌, All, All-map,
  All-zip, All-append, All-right, All-left, arith, string_equality,
}
use mathlib.Core.List.{Perm, append_assoc}
use csp_lib.Transport.Grouping.{
  ReadPoint, ReadGroup, Config, max_length, same_bucket, merge_consecutive, merge_runs, points_of,
  group, runs_of, sort_points,
}
use csp_lib.Transport.Grouping.Sorting.{
  IsRun, concat, concat-runs_of, sort_points-perm, sort_points-All, sorted_runs-IsRun,
}
use csp_lib.Transport.Grouping.Merging.{
  IsCovered, IsOf, points_of-merge_from, merge_from-IsCovered, merge_from-limit, merge_from-IsOf,
}

points_of-append : (xs ys : List ReadGroup) → points_of (xs ++ ys) ≡ points_of xs ++ points_of ys
unfolding points_of
points_of-append [] ys = refl
points_of-append (g ∷ gs) ys =
    ap (λ ps. g.points ++ ps) (points_of-append gs ys)
    ∙ sym (append_assoc g.points (points_of gs) (points_of ys))

points_of-merge_runs :
    (config : Config) (runs : List (List ReadPoint))
    → points_of (merge_runs config runs) ≡ concat runs
unfolding merge_runs merge_consecutive concat
points_of-merge_runs config [] = unfold points_of in refl
points_of-merge_runs config ([] ∷ runs) = points_of-merge_runs config runs
points_of-merge_runs config ((p ∷ ps) ∷ runs) = rw (
  points_of-append,
  points_of-merge_from (max_length config p.function_code) p.function_code p.unit_id (p ∷ [])
      p.address (p.address + p.register_count) ps,
  points_of-merge_runs config runs,
)

-- Every point that is given is read by exactly one group, and by no more than that: the points of
-- the groups together are the given points, each as often.
pub group-perm :
    (config : Config) (points : List ReadPoint) → Perm (points_of (group config points)) points
unfolding group
group-perm config points = rw (points_of-merge_runs, concat-runs_of) (sort_points-perm points)

-- The read covers its points' registers, and its points are of its unit and function code and of
-- one read group.
pub record IsSound (g : ReadGroup) : Type 0 where
  pub covered : All (IsCovered g) g.points
  pub of_unit : All (IsOf g) g.points
  pub read_group : String
  pub of_group : All (λ p. p.read_group ≡ read_group) g.points

bucket_fields :
    (p q : ReadPoint)
    → same_bucket p q ≡ true
    → (q.unit_id ≡ p.unit_id) × (q.function_code ≡ p.function_code) × (q.read_group ≡ p.read_group)
bucket_fields p q h = ground (arith, h, string_equality.is_equal_iff p.read_group q.read_group)

abbrev InBucket : ReadPoint → ReadPoint → Type 0
InBucket p q =
    (q.unit_id ≡ p.unit_id) × (q.function_code ≡ p.function_code) × (q.read_group ≡ p.read_group)

merge_consecutive-IsSound :
    (config : Config) (run : List ReadPoint)
    → IsRun run
    → All IsSound (merge_consecutive config run)
unfolding merge_consecutive
merge_consecutive-IsSound config [] h = absurd h
merge_consecutive-IsSound config (p ∷ ps) h =
    All-zip _ (λ g c o. sound g c o)
      (merge_from-IsCovered limit p.function_code p.unit_id (p ∷ []) p.address
        (p.address + p.register_count) ps (omega arith, ((omega arith, omega arith), tt)) h.1.0
        h.1.1)
      (merge_from-IsOf limit p.function_code p.unit_id (InBucket p) (p ∷ []) p.address
        (p.address + p.register_count) ps ((refl, refl, refl), tt)
        (All-map ps (λ q s. bucket_fields p q s) h.0))
  where
    limit : ℕ
    limit = max_length config p.function_code

    sound :
        (g : ReadGroup)
        → All (IsCovered g) g.points
        → (g.unit_id ≡ p.unit_id) × (g.function_code ≡ p.function_code) × All (InBucket p) g.points
        → IsSound g
    sound g c o = record {
      covered = c;
      of_unit = All-map g.points (λ q b. (b.0 ∙ sym o.0, b.1 ∙ sym o.1)) o.2;
      read_group = p.read_group;
      of_group = All-map g.points (λ q b. b.2) o.2;
    }

merge_runs-IsSound :
    (config : Config) (runs : List (List ReadPoint))
    → All IsRun runs
    → All IsSound (merge_runs config runs)
unfolding merge_runs
merge_runs-IsSound config [] h = tt
merge_runs-IsSound config (run ∷ runs) h =
    All-append IsSound (merge_consecutive config run) (merge_runs config runs)
      (merge_consecutive-IsSound config run h.0) (merge_runs-IsSound config runs h.1)

-- Every group's read starts at or before each of its points and ends at or after the end of each,
-- and the points of a group are of its unit and function code and share one read group, whatever
-- the points given and their order; so the check of the units in `ReadGroup` never raises.
pub group-IsSound : (config : Config) (points : List ReadPoint) → All IsSound (group config points)
unfolding group
group-IsSound config points =
    merge_runs-IsSound config (runs_of (sort_points points)) (sorted_runs-IsRun points)

abbrev pub IsShort : Config → ReadPoint → Type 0
IsShort config p = p.register_count ≤ max_length config p.function_code

abbrev pub IsWithinLimit : Config → ReadGroup → Type 0
IsWithinLimit config g = g.count ≤ max_length config g.function_code

merge_consecutive_limit :
    (config : Config) (run : List ReadPoint)
    → IsRun run
    → All (IsShort config) run
    → All (IsWithinLimit config) (merge_consecutive config run)
unfolding merge_consecutive
merge_consecutive_limit config [] h k = tt
merge_consecutive_limit config (p ∷ ps) h k =
    All-zip _ (λ g c o. rw o.1 c)
      (merge_from-limit limit p.function_code p.unit_id (p ∷ []) p.address
        (p.address + p.register_count) ps (omega (arith, k.0))
        (All-zip {Q = IsShort config} ps kept h.0 k.1))
      (merge_from-IsOf limit p.function_code p.unit_id (InBucket p) (p ∷ []) p.address
        (p.address + p.register_count) ps ((refl, refl, refl), tt)
        (All-map ps (λ q s. bucket_fields p q s) h.0))
  where
    limit : ℕ
    limit = max_length config p.function_code

    kept : (q : ReadPoint) → same_bucket p q ≡ true → IsShort config q → q.register_count ≤ limit
    kept q s short =
        subst (λ c. q.register_count ≤ max_length config c) (bucket_fields p q s).1 short

merge_runs_limit :
    (config : Config) (runs : List (List ReadPoint))
    → All IsRun runs
    → All (IsShort config) (concat runs)
    → All (IsWithinLimit config) (merge_runs config runs)
unfolding merge_runs concat
merge_runs_limit config [] h k = tt
merge_runs_limit config (run ∷ runs) h k =
    All-append (IsWithinLimit config) (merge_consecutive config run) (merge_runs config runs)
      (merge_consecutive_limit config run h.0 (All-left (IsShort config) run (concat runs) k))
      (merge_runs_limit config runs h.1 (All-right (IsShort config) run (concat runs) k))

-- Where no point alone is longer than the limit of its function code, no group's read is: with the
-- default configuration, 2000 bits or 125 registers.
pub group_limit :
    (config : Config) (points : List ReadPoint)
    → All (IsShort config) points
    → All (IsWithinLimit config) (group config points)
unfolding group
group_limit config points h =
    merge_runs_limit config (runs_of (sort_points points)) (sorted_runs-IsRun points)
      (rw concat-runs_of (sort_points-All (IsShort config) points h))
