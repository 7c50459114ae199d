-- ===== src/Device/Points/Rejected.antt =====
-- Which values a point rejects (csp_lib/equipment/device/base.py): of which of the points of a name
-- the flag counts.
use csp_lib.Base.{
  ℕ, String, Bool, true, false, ◌&&◌, ◌||◌, ◌≡◌, refl, sym, ap, ◌∙◌, Option, none, some, List, [],
  ◌∷◌, ◌++◌, if◌then◌else◌, ◌==◌, string_equality, arith, contains,
}
use csp_lib.Base.Dict.{Dict, lookup, member, insert, lookup-insert}
use csp_lib.Device.Points.{
  ReadPoint, Points, set_points, set_defaults, set_groups, build_read_point_lookup, rejects,
  any_rejects, should_reject_non_finite,
}

-- The first of two results that there is.
abbrev pub or_else : Option ReadPoint → Option ReadPoint → Option ReadPoint
or_else none q = q
or_else (some p) q = some p

-- The first point of a name, and the last.
abbrev pub first_named : String → List ReadPoint → Option ReadPoint
first_named name [] = none
first_named name (p ∷ ps) = if name == p.name then some p else first_named name ps

abbrev pub last_named : String → List ReadPoint → Option ReadPoint
last_named name [] = none
last_named name (p ∷ ps) = or_else (last_named name ps) (if name == p.name then some p else none)

abbrev pub all_of : List (List ReadPoint) → List ReadPoint
all_of [] = []
all_of (g ∷ gs) = g ++ all_of gs

-- The point whose flag counts: the last always read one of the name, else the first rotating one.
abbrev pub point_named : String → Points → Option ReadPoint
point_named name s =
    or_else (last_named name s.read_points_always)
      (first_named name (all_of s.read_points_rotating))

or_else-or_else : (a b c : Option ReadPoint) → or_else (or_else a b) c ≡ or_else a (or_else b c)
or_else-or_else none b c = refl
or_else-or_else (some p) b c = refl

or_else-none : (a : Option ReadPoint) → or_else a none ≡ a
or_else-none none = refl
or_else-none (some p) = refl

lookup-set_points :
    (name : String) (ps : List ReadPoint) (d : Dict String ReadPoint)
    → lookup name (set_points ps d) ≡ or_else (last_named name ps) (lookup name d)
lookup-set_points name [] d = refl
lookup-set_points name (p ∷ ps) d =
    lookup-set_points name ps (insert p.name p d)
    ∙ ap (or_else (last_named name ps)) (lookup-insert name p.name p d ∙ either (name == p.name))
    ∙ sym (
        or_else-or_else (last_named name ps) (if name == p.name then some p else none)
          (lookup name d))
  where
    either :
        (b : Bool)
        → (if b then some p else lookup name d)
          ≡ or_else (if b then some p else none) (lookup name d)
    either true = refl
    either false = refl

lookup-set_defaults :
    (name : String) (ps : List ReadPoint) (d : Dict String ReadPoint)
    → lookup name (set_defaults ps d) ≡ or_else (lookup name d) (first_named name ps)
lookup-set_defaults name [] d = sym (or_else-none (lookup name d))
lookup-set_defaults name (p ∷ ps) d = ground (
  arith,
  lookup-set_defaults name ps (if member p.name d then d else insert p.name p d),
  lookup-insert name p.name p d,
  string_equality.is_equal_iff name p.name,
)

first_named-append :
    (name : String) (ps qs : List ReadPoint)
    → first_named name (ps ++ qs) ≡ or_else (first_named name ps) (first_named name qs)
first_named-append name [] qs = refl
first_named-append name (p ∷ ps) qs = ground (arith, first_named-append name ps qs)

lookup-set_groups :
    (name : String) (gs : List (List ReadPoint)) (d : Dict String ReadPoint)
    → lookup name (set_groups gs d) ≡ or_else (lookup name d) (first_named name (all_of gs))
lookup-set_groups name [] d = sym (or_else-none (lookup name d))
lookup-set_groups name (g ∷ gs) d =
    lookup-set_groups name gs (set_defaults g d)
    ∙ ap (λ x. or_else x (first_named name (all_of gs))) (lookup-set_defaults name g d)
    ∙ or_else-or_else (lookup name d) (first_named name g) (first_named name (all_of gs))
    ∙ ap (or_else (lookup name d)) (sym (first_named-append name g (all_of gs)))

any_rejects-lookup :
    (name : String) (d : Dict String ReadPoint)
    → rejects (lookup name d) ≡ true
    → any_rejects d ≡ true
any_rejects-lookup name [] h = cc
any_rejects-lookup name (e ∷ d) h = ground (arith, h, any_rejects-lookup name d)

module _ (is_non_finite : ℕ → Bool) (same : ℕ → ℕ → Bool) where
  -- A value that is not finite, of a point whose flag is set.
  abbrev pub is_refused : String → ℕ → Points → Bool
  is_refused name v s = rejects (point_named name s) && is_non_finite v

  -- What a read leaves: a new value, unless the point is disabled or the value refused.
  abbrev pub leaves : String → Option ℕ → Points → Option ℕ
  leaves name none s = lookup name s.latest_values
  leaves name (some v) s =
      if contains name s.disabled_points || is_refused name v s
      then lookup name s.latest_values
      else some v

  -- No latest value is one that the point refuses.
  abbrev pub IsFree : Points → Type 0
  IsFree s =
      (name : String) (v : ℕ) → lookup name s.latest_values ≡ some v → is_refused name v s ≡ false

  pub should_reject_non_finite_lem :
      (name : String) (v : ℕ) (s : Points)
      → should_reject_non_finite is_non_finite same name v s ≡ is_refused name v s
  unfolding should_reject_non_finite build_read_point_lookup
  should_reject_non_finite_lem name v s =
      let d = set_groups s.read_points_rotating (set_points s.read_points_always []) in
      let found : lookup name d ≡ point_named name s =
        lookup-set_groups name s.read_points_rotating (set_points s.read_points_always [])
        ∙ ap (λ x. or_else x (first_named name (all_of s.read_points_rotating)))
            (lookup-set_points name s.read_points_always [] ∙ or_else-none _) in
      ground (arith, ap rejects found, any_rejects-lookup name d)
