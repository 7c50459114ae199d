-- ===== src/Transport/Tests.antt =====
-- Runs of the scheduler and the grouper, and their theorems at them.
use csp_lib.Base.{ℕ, ◌≡◌, refl, String, none, some, List, [], ◌∷◌, arith, All, string_equality}
use mathlib.Core.List.{Perm}
use csp_lib.Transport.Scheduler.{ReadScheduler}
use csp_lib.Transport.Scheduler.Rotation.{Call, next_call, reset_call, update_call}
use csp_lib.Transport.Grouping.{
  ReadPoint, ReadGroup, default_config, max_length, key_leb, sort_points, runs_of, merge_from,
  merge_consecutive, merge_runs, group, points_of,
}
use csp_lib.Base.Sets.{lex_leb}
use csp_lib.Transport.Grouping.Groups.{
  IsSound, IsShort, IsWithinLimit, group-perm, group-IsSound, group_limit,
}

abbrev rounds : List (Call ℕ)
rounds =
    next_call ∷ next_call ∷ update_call none (some ((9 ∷ []) ∷ [])) ∷ next_call ∷ reset_call ∷ []

abbrev rotating : List (List ℕ)
rotating = (1 ∷ []) ∷ (2 ∷ 3 ∷ []) ∷ []

abbrev scheduler : ReadScheduler ℕ
scheduler = record { always_groups = 0 ∷ []; rotating_groups = rotating; rotating_index = 1 }

abbrev point : String → ℕ → ℕ → ReadPoint
point name address registers = record {
  name = name;
  address = address;
  register_count = registers;
  function_code = 3;
  read_group = "";
  unit_id = none;
}

abbrev points : List ReadPoint
points = point "c" 300 2 ∷ point "a" 0 2 ∷ point "b" 100 4 ∷ point "d" 123 2 ∷ []

abbrev spans : List ReadGroup → List (ℕ × ℕ)
spans [] = []
spans (g ∷ gs) = (g.start_address, g.count) ∷ spans gs

point_spans : spans (group default_config points) ≡ (0, 125) ∷ (300, 2) ∷ []
unfolding group merge_runs runs_of sort_points key_leb lex_leb merge_consecutive merge_from
    max_length
point_spans = refl

group-perm_example : Perm (points_of (group default_config points)) points
group-perm_example = group-perm default_config points

group-IsSound_example : All IsSound (group default_config points)
group-IsSound_example = group-IsSound default_config points

points-IsShort : All (IsShort default_config) points
unfolding max_length
points-IsShort = (omega arith, (omega arith, (omega arith, (omega arith, tt))))

group_limit_example : All (IsWithinLimit default_config) (group default_config points)
group_limit_example = group_limit default_config points points-IsShort
