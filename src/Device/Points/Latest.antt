-- ===== src/Device/Points/Latest.antt =====
-- What a read makes of the latest values (csp_lib/equipment/device/base.py).
use csp_lib.Base.{
  ℕ, String, Bool, true, false, ◌||◌, ◌≡◌, refl, sym, ◌∙◌, subst, Option, none, some, [], ◌∷◌,
  contains, Distinct, if◌then◌else◌, ◌==◌, ==_refl, nat_equality, string_equality, arith,
  Bool-cases, Option-cases, inl, inr,
}
use csp_lib.Base.Dict.{Dict, keys, lookup, member, lookup-insert, contains-keys}
use csp_lib.Device.Points.Rejected.{is_refused, leaves, IsFree, should_reject_non_finite_lem}
use csp_lib.Device.Points.{
  Points, build_read_point_lookup, should_reject_non_finite, with_value, process_values, or_value,
  resolve_effective_values,
}

module _ (is_non_finite : ℕ → Bool) (same : ℕ → ℕ → Bool) where
  abbrev skips : String → ℕ → Points → Bool
  skips name v s =
      contains name s.disabled_points || should_reject_non_finite is_non_finite same name v s

  -- The value that a read leaves: a new one, unless the point is disabled or the value rejected.
  abbrev pub left_by : String → Option ℕ → Points → Option ℕ
  left_by name none s = lookup name s.latest_values
  left_by name (some v) s = if skips name v s then lookup name s.latest_values else some v

  -- Whether a value is skipped does not depend on the latest values.
  left_by-with_value :
      (name n : String) (w : ℕ) (o : Option ℕ) (s : Points)
      → (name == n) ≡ false
      → left_by name o (with_value is_non_finite same n w s) ≡ left_by name o s
  unfolding should_reject_non_finite build_read_point_lookup
  left_by-with_value name n w none s f = rw (lookup-insert name n w s.latest_values, f) refl
  left_by-with_value name n w (some v) s f = rw (lookup-insert name n w s.latest_values, f) refl

  gone :
      (values : Dict String ℕ) (n : String)
      → contains n (keys values) ≡ false
      → lookup n values ≡ none
  gone values n h = elim (Option-cases (lookup n values)) [
    | inl k ↦ k
    | inr (v, k) ↦ absurd (ground (arith, k, h, contains-keys n values))
  ]

  -- One value, over what the others leave.
  first_value :
      (n : String) (v : ℕ) (values : Dict String ℕ) (s : Points) (name : String)
      → contains n (keys values) ≡ false
      → ((s' : Points)
          → lookup name (process_values is_non_finite same values s').0.latest_values
            ≡ left_by name (lookup name values) s')
      → lookup name (process_values is_non_finite same ((n, v) ∷ values) s).0.latest_values
        ≡ left_by name (if name == n then some v else lookup name values) s
  unfolding process_values
  first_value n v values s name a rest = elim (Bool-cases (skips n v s)) [
    | inl t ↦ elim (Bool-cases (name == n)) [
      | inl y ↦
          let q : name ≡ n = (string_equality.is_equal_iff name n).0 y in
          rw t (rest s ∙ rw (y, q, gone values n a, t) refl)
      | inr f ↦ rw t (rest s ∙ rw f refl)
    ]
    | inr g ↦ elim (Bool-cases (name == n)) [
      | inl y ↦
          let q : name ≡ n = (string_equality.is_equal_iff name n).0 y in
          rw g (
            rest (with_value is_non_finite same n v s)
            ∙ rw (y, q, gone values n a, g)
                (lookup-insert n n v s.latest_values ∙ rw (==_refl n) refl))
      | inr f ↦ rw g (
          rest (with_value is_non_finite same n v s)
          ∙ left_by-with_value name n v (lookup name values) s f
          ∙ rw f refl)
    ]
  ]

  lookup-process_values :
      (values : Dict String ℕ) (s : Points) (name : String)
      → Distinct (keys values)
      → lookup name (process_values is_non_finite same values s).0.latest_values
        ≡ left_by name (lookup name values) s
  unfolding process_values
  lookup-process_values [] s name h = refl
  lookup-process_values (e ∷ values) s name (a, h) =
      first_value e.0 e.1 values s name a (λ s'. lookup-process_values values s' name h)

  -- A read changes no point.
  kept_points :
      (values : Dict String ℕ) (s : Points) (name : String) (v : ℕ)
      → should_reject_non_finite is_non_finite same name v
          (process_values is_non_finite same values s).0
        ≡ should_reject_non_finite is_non_finite same name v s
  unfolding process_values should_reject_non_finite build_read_point_lookup
  kept_points [] s name v = refl
  kept_points (e ∷ values) s name v =
      kept_points values (if skips e.0 e.1 s then s else with_value is_non_finite same e.0 e.1 s)
        name v
      ∙ either (skips e.0 e.1 s)
    where
      either :
          (b : Bool)
          → should_reject_non_finite is_non_finite same name v
              (if b then s else with_value is_non_finite same e.0 e.1 s)
            ≡ should_reject_non_finite is_non_finite same name v s
      either true = refl
      either false = refl

  -- No latest value is one that the point rejects.
  abbrev pub IsClean : Points → Type 0
  IsClean s =
      (name : String) (v : ℕ)
      → lookup name s.latest_values ≡ some v
      → should_reject_non_finite is_non_finite same name v s ≡ false

  left_by-clean :
      (name : String) (o : Option ℕ) (s : Points) (v : ℕ)
      → IsClean s
      → left_by name o s ≡ some v
      → should_reject_non_finite is_non_finite same name v s ≡ false
  left_by-clean name none s v c e = c name v e
  left_by-clean name (some w) s v c e = elim (Bool-cases (skips name w s)) [
    | inl t ↦ c name v (sym (rw t refl) ∙ e)
    | inr f ↦
        let q : w ≡ v = ground (arith, e, f) in
        subst (λ x. should_reject_non_finite is_non_finite same name x s ≡ false) q
          (ground (arith, f))
  ]

  one_effective :
      (name : String) (w v : ℕ) (s : Points)
      → IsClean s
      → member name s.latest_values ≡ true
      → (if should_reject_non_finite is_non_finite same name w s
          then or_value is_non_finite same (lookup name s.latest_values) w
          else w)
        ≡ v
      → should_reject_non_finite is_non_finite same name v s ≡ false
  one_effective name w v s c m e =
      elim (Bool-cases (should_reject_non_finite is_non_finite same name w s)) [
        | inl t ↦ elim (Option-cases (lookup name s.latest_values)) [
          | inl n ↦ absurd (ground (arith, m, n))
          | inr (o, k) ↦ c name v (ground (arith, e, t, k))
        ]
        | inr f ↦
            subst (λ x. should_reject_non_finite is_non_finite same name x s ≡ false)
              (ground (arith, e, f)) f
      ]

  effective-clean :
      (values : Dict String ℕ) (s : Points) (name : String) (v : ℕ)
      → IsClean s
      → lookup name (resolve_effective_values is_non_finite same values s) ≡ some v
      → member name s.latest_values ≡ true
      → should_reject_non_finite is_non_finite same name v s ≡ false
  unfolding resolve_effective_values
  effective-clean [] s name v c e m = cc
  effective-clean (x ∷ values) s name v c e m = elim (Bool-cases (name == x.0)) [
    | inr f ↦ effective-clean values s name v c (ground (arith, e, f)) m
    | inl t ↦ one_effective name x.1 v s c m (
        subst
          (λ n.
            (if should_reject_non_finite is_non_finite same n x.1 s
              then or_value is_non_finite same (lookup n s.latest_values) x.1
              else x.1)
            ≡ v)
          (sym ((string_equality.is_equal_iff name x.0).0 t)) (ground (arith, e, t)))
  ]

  left_by-leaves :
      (name : String) (o : Option ℕ) (s : Points)
      → left_by name o s ≡ leaves is_non_finite same name o s
  left_by-leaves name none s = refl
  left_by-leaves name (some v) s =
      rw (should_reject_non_finite_lem is_non_finite same name v s) refl

  -- Of a read that got one value for each of some points, where no latest value is one that its
  -- point refuses: it leaves each of these points with that value, unless the point is disabled or
  -- refuses it, and leaves every other latest value; then again no latest value is one that its
  -- point refuses, and no value that the read hands on, to the alarms among others, is one that
  -- its point refuses, if the point has a latest value. A point refuses the values that are not
  -- finite if the flag is set of the last always read point of its name, or, if there is none, of
  -- the first rotating one.
  pub process_values_lem :
      (values : Dict String ℕ) (s : Points)
      → Distinct (keys values)
      → IsFree is_non_finite same s
      → (let s' = (process_values is_non_finite same values s).0 in
          ((name : String)
            → lookup name s'.latest_values ≡ leaves is_non_finite same name (lookup name values) s)
          × IsFree is_non_finite same s'
          × ((name : String) (v : ℕ)
              → lookup name (resolve_effective_values is_non_finite same values s') ≡ some v
              → member name s'.latest_values ≡ true
              → is_refused is_non_finite same name v s' ≡ false))
  process_values_lem values s h free =
      let s' = (process_values is_non_finite same values s).0 in
      let told : (s : Points) (name : String) (v : ℕ)
          → should_reject_non_finite is_non_finite same name v s
            ≡ is_refused is_non_finite same name v s =
        λ s name v. should_reject_non_finite_lem is_non_finite same name v s in
      let c : IsClean s = λ name v e. told s name v ∙ free name v e in
      let left : (name : String)
          → lookup name s'.latest_values ≡ left_by name (lookup name values) s =
        λ name. lookup-process_values values s name h in
      let clean : IsClean s' = λ name v e.
        kept_points values s name v
        ∙ left_by-clean name (lookup name values) s v c (sym (left name) ∙ e) in
      (
        λ name. left name ∙ left_by-leaves name (lookup name values) s,
        λ name v e. sym (told s' name v) ∙ clean name v e,
        λ name v e m. sym (told s' name v) ∙ effective-clean values s' name v clean e m,
      )
