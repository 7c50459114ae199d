-- ===== src/Device/Points/Writes.antt =====
-- Which points are disabled, and what is written (csp_lib/equipment/device/base.py, mixins.py).
use csp_lib.Base.{
  ℕ, String, Bool, true, false, ◌&&◌, ◌≡◌, refl, ap, ◌∙◌, Option, none, some, List, [], ◌∷◌, filter,
  contains, Distinct, ◌⊎◌, if◌then◌else◌, ◌==◌, ==_refl, nat_equality, string_equality, arith,
  Bool-cases, inl, inr, remove-Distinct,
}
use csp_lib.Base.Sets.{contains-add, add-Distinct, contains-discard}
use csp_lib.Base.Dict.{lookup, insert, lookup-insert}
use csp_lib.Device.Points.{
  Points, PointEvent, ReconfigureSpec, all_point_names, enable_point, disable_point,
  is_point_enabled, reconfigure, validation_failed, Writer, report, write, toggle, DoActionConfig,
  is_success, toggled, act,
}

-- The disabled points are points of the device, each once.
pub record IsConsistent (s : Points) : Type 0 where
  pub known :
      (n : String) → contains n s.disabled_points ≡ true → contains n (all_point_names s) ≡ true
  pub once : Distinct s.disabled_points

pub data Change : Type 0 where
  enabled disabled : String → Change
  reconfigured : ReconfigureSpec → Change

abbrev pub or_same : Points → Option (Points × List PointEvent) → Points
or_same s none = s
or_same s (some r) = r.0

-- A call that raises changes nothing.
unfoldable pub change : Change → Points → Points
unfolding enable_point disable_point reconfigure
change (enabled n) s = or_same s (enable_point n s)
change (disabled n) s = or_same s (disable_point n s)
change (reconfigured spec) s = reconfigure spec s

contains-filter :
    (f : String → Bool) (n : String) (xs : List String)
    → contains n (filter f xs) ≡ (contains n xs && f n)
contains-filter f n [] = refl
contains-filter f n (x ∷ xs) = elim (Bool-cases (n == x)) [
  | inl t ↦
      let q : f n ≡ f x = ap f ((string_equality.is_equal_iff n x).0 t) in
      elim (Bool-cases (f x)) [
        | inl y ↦ rw (y, t) (ground (arith, y, q))
        | inr g ↦ rw g (ground (arith, g, q, contains-filter f n xs))
      ]
  | inr o ↦ elim (Bool-cases (f x)) [
    | inl y ↦ rw (y, o) (contains-filter f n xs)
    | inr g ↦ rw (g, o) (contains-filter f n xs)
  ]
]

filter-Distinct : (f : String → Bool) (xs : List String) → Distinct xs → Distinct (filter f xs)
filter-Distinct f [] h = tt
filter-Distinct f (x ∷ xs) (a, h) = elim (Bool-cases (f x)) [
  | inl t ↦ rw t (ground (arith, a, contains-filter f x xs), filter-Distinct f xs h)
  | inr g ↦ rw g (filter-Distinct f xs h)
]

change-IsConsistent : (c : Change) (s : Points) → IsConsistent s → IsConsistent (change c s)
unfolding change enable_point disable_point reconfigure all_point_names
change-IsConsistent (enabled n) s i = elim (Bool-cases (contains n (all_point_names s))) [
  | inr f ↦ rw f i
  | inl t ↦ rw t (record {
    known = λ j h. i.known j (ground (arith, h, contains-discard j n s.disabled_points i.once));
    once = remove-Distinct n s.disabled_points i.once;
  })
]
change-IsConsistent (disabled n) s i = elim (Bool-cases (contains n (all_point_names s))) [
  | inr f ↦ rw f i
  | inl t ↦ rw t (record {
    known = λ j h. elim (Bool-cases (j == n)) [
      | inl e ↦ rw ((string_equality.is_equal_iff j n).0 e) t
      | inr o ↦ i.known j (ground (arith, h, o, contains-add j n s.disabled_points))
    ];
    once = add-Distinct n s.disabled_points i.once;
  })
]
change-IsConsistent (reconfigured spec) s i = record {
  known = λ j h. ground (
    arith,
    h,
    contains-filter (λ n. contains n (all_point_names (reconfigure spec s))) j s.disabled_points,
  );
  once =
      filter-Distinct (λ n. contains n (all_point_names (reconfigure spec s))) s.disabled_points
        i.once;
}

unfoldable pub run_changes : List Change → Points → Points
run_changes [] s = s
run_changes (c ∷ cs) s = run_changes cs (change c s)

-- Any calls of `enable_point`, `disable_point` and `reconfigure`, those that raise included, keep
-- the disabled points among the device's points, each once.
pub run_changes-IsConsistent :
    (cs : List Change) (s : Points) → IsConsistent s → IsConsistent (run_changes cs s)
unfolding run_changes
run_changes-IsConsistent [] s i = i
run_changes-IsConsistent (c ∷ cs) s i =
    run_changes-IsConsistent cs (change c s) (change-IsConsistent c s i)

-- Of the result of `write`: the writer was called, once, with the value asked for, exactly when the
-- point is enabled and a write point, and then the status is the writer's and the one event reports
-- it; and any other write is refused without an event.
pub write-IsGuarded :
    (writer : Writer) (n : String) (v : ℕ) (s : Points)
    → write writer n v s ≡ (
        if is_point_enabled n s && contains n s.write_points
        then record {
          status = writer n v;
          sent = (n, v) ∷ [];
          events = report (writer n v) n v ∷ [];
        }
        else record { status = validation_failed; sent = []; events = [] })
unfolding write is_point_enabled
write-IsGuarded writer n v s = elim (Bool-cases (contains n s.disabled_points)) [
  | inl t ↦ rw t refl
  | inr f ↦ rw f refl
]

sent_when :
    (writer : Writer) (n : String) (v : ℕ) (s : Points)
    → is_success (write writer n v s).status ≡ true
    → (write writer n v s).sent ≡ (n, v) ∷ []
sent_when writer n v s w = elim (Bool-cases (is_point_enabled n s && contains n s.write_points)) [
  | inl t ↦ rw (write-IsGuarded writer n v s, t) refl
  | inr f ↦
      let refused : write writer n v s
          ≡ record { status = validation_failed; sent = []; events = [] } =
        rw (write-IsGuarded writer n v s, f) refl in
      absurd (ground (arith, ap (λ r. is_success r.status) refused, w))
]

on_or_off :
    (same : ℕ → ℕ → Bool) (c : DoActionConfig) (o : Option ℕ)
    → (toggled same c o ≡ c.on_value) ⊎ (toggled same c o ≡ c.off_value)
on_or_off same c none = elim (Bool-cases (same c.off_value c.on_value)) [
  | inl t ↦ rw t (inr refl)
  | inr f ↦ rw f (inl refl)
]
on_or_off same c (some current) = elim (Bool-cases (same current c.on_value)) [
  | inl t ↦ rw t (inr refl)
  | inr f ↦ rw f (inl refl)
]

-- Two toggles in a row that succeed write the two values of the action, one each, in turn: the
-- second writes the off value after an on value and the on value after an off value. The values
-- are compared as they are, and differ.
pub toggle_turns :
    (same : ℕ → ℕ → Bool) (writer : Writer) (c : DoActionConfig) (off : Bool) (s : Points)
    → same c.on_value c.on_value ≡ true
    → same c.off_value c.on_value ≡ false
    → (let first = act same writer toggle c off s in
        let second = act same writer toggle c off first.points in
        is_success first.written.status ≡ true
        → is_success second.written.status ≡ true
        → ((first.written.sent ≡ (c.point_name, c.on_value) ∷ [])
            × (second.written.sent ≡ (c.point_name, c.off_value) ∷ []))
          ⊎ ((first.written.sent ≡ (c.point_name, c.off_value) ∷ [])
              × (second.written.sent ≡ (c.point_name, c.on_value) ∷ [])))
toggle_turns same writer c off s on differ w w' =
    let v = toggled same c (lookup c.point_name s.latest_values) in
    let s₁ = (act same writer toggle c off s).points in
    let kept : lookup c.point_name s₁.latest_values ≡ some v =
      ap
        (λ b.
          lookup c.point_name
            (if b
              then record s { latest_values = insert c.point_name v s.latest_values }
              else s).latest_values)
        w
      ∙ lookup-insert c.point_name c.point_name v s.latest_values
      ∙ rw (==_refl c.point_name) refl in
    let went = sent_when writer c.point_name v s w in
    let went' =
      sent_when writer c.point_name (toggled same c (lookup c.point_name s₁.latest_values)) s₁ w' in
    let next : toggled same c (lookup c.point_name s₁.latest_values) ≡ toggled same c (some v) =
      ap (toggled same c) kept in
    elim (on_or_off same c (lookup c.point_name s.latest_values)) [
      | inl e ↦ inl (
        went ∙ ap (λ x. (c.point_name, x) ∷ []) e,
        went' ∙ ap (λ x. (c.point_name, x) ∷ []) (next ∙ rw (e, on) refl),
      )
      | inr e ↦ inr (
        went ∙ ap (λ x. (c.point_name, x) ∷ []) e,
        went' ∙ ap (λ x. (c.point_name, x) ∷ []) (next ∙ rw (e, differ) refl),
      )
    ]
