-- ===== src/RuntimeParameters/Mirror.antt =====
-- What the notices of the parameters tell an observer (csp_lib/core/runtime_params.py).
use csp_lib.Base.{
  String, true, false, ◌≡◌, ◌≢◌, refl, sym, ap, ◌∙◌, Option, none, some, List, [], ◌∷◌, ◌++◌,
  Distinct, if◌then◌else◌, Equality, ◌==◌, nat_equality, string_equality, arith, Bool-cases,
  Option-cases, inl, inr,
}
use csp_lib.Base.Dict.{
  Dict, keys, lookup, insert, erase, lookup-insert, lookup-erase, insert-Distinct, erase-Distinct,
}
use csp_lib.RuntimeParameters.{
  RuntimeParameters, Notice, is_same, starts_private, get, set, update, delete, set_attribute,
  set_default, Write, set_call, update_call, delete_call, attribute_call, perform, run_writes,
}

-- What `get` answers for each key, with `None` for a missing one.
abbrev pub View : Type 0 → Type 0
View V = String → Option V

abbrev pub view : {V : Type 0} → RuntimeParameters V → View V
view s key = get key none s

abbrev pub write_view : {V : Type 0} → String → Option V → View V → View V
write_view key value f other = if other == key then value else f other

-- The notices lead from the first view to the last: each reports the value that the key had at
-- that point and another one, which it then has.
abbrev pub Leads : {V : Type 0} → View V → List (Notice V) → View V → Type 0
Leads f [] g = (key : String) → f key ≡ g key
Leads f (n ∷ ns) g = (f n.0 ≡ n.1.0) × (n.1.0 ≢ n.1.1) × Leads (write_view n.0 n.1.1 f) ns g

module _ {V : Type 0} where
  Leads-from :
      (f f' g : View V) (ns : List (Notice V))
      → ((key : String) → f key ≡ f' key)
      → Leads f' ns g
      → Leads f ns g
  Leads-from f f' g [] h k = λ key. h key ∙ k key
  Leads-from f f' g (n ∷ ns) h k = (
    h n.0 ∙ k.0,
    k.1,
    Leads-from (write_view n.0 n.1.1 f) (write_view n.0 n.1.1 f') g ns
        (λ key. ground (arith, h key)) k.2,
  )

  Leads-append :
      (f g h : View V) (ns ms : List (Notice V))
      → Leads f ns g
      → Leads g ms h
      → Leads f (ns ++ ms) h
  Leads-append f g h [] ms a b = Leads-from f g h ms a b
  Leads-append f g h (n ∷ ns) ms a b =
      (a.0, a.1, Leads-append (write_view n.0 n.1.1 f) g h ns ms a.2 b)

  view-erase :
      (key other : String) (s : RuntimeParameters V)
      → Distinct (keys s.values)
      → view (record s { values = erase key s.values }) other ≡ write_view key none (view s) other
  unfolding get
  view-erase key other s h =
      rw (lookup-erase other key s.values h)
        (elim (Bool-cases (other == key)) [ inl t ↦ rw t refl | inr f ↦ rw f refl ])

  delete-Leads :
      (key : String) (s : RuntimeParameters V)
      → Distinct (keys s.values)
      → Leads (view s) (delete key s).1 (view (delete key s).0)
  unfolding delete
  delete-Leads key s h = elim (Option-cases (get key none s)) [
    | inl e ↦ rw e (λ other. sym (view-erase key other s h ∙ same other e))
    | inr (v, e) ↦ rw e (e, (λ p. cc), (λ other. sym (view-erase key other s h)))
  ]
    where
      same :
          (other : String)
          → get key none s ≡ none
          → write_view key none (view s) other ≡ view s other
      same other e = elim (Bool-cases (other == key)) [
        | inl t ↦ rw (t, (string_equality.is_equal_iff other key).0 t, e) refl
        | inr f ↦ rw f refl
      ]

module _ {V : Type 0} ⦃e : Equality V⦄ where
  is_same_iff : (a b : Option V) → is_same a b ≡ true → a ≡ b
  is_same_iff none none h = refl
  is_same_iff none (some b) h = cc
  is_same_iff (some a) none h = cc
  is_same_iff (some a) (some b) h = ap some ((e.is_equal_iff a b).0 h)

  is_same_ne : (a b : Option V) → is_same a b ≡ false → a ≢ b
  is_same_ne none none h p = cc
  is_same_ne none (some b) h p = cc
  is_same_ne (some a) none h p = cc
  is_same_ne (some a) (some b) h p = ground (arith, e.is_equal_iff a b)

  view-insert :
      (key other : String) (value : Option V) (s : RuntimeParameters V)
      → view (record s { values = insert key value s.values }) other
        ≡ write_view key value (view s) other
  unfolding get
  view-insert key other value s =
      rw (lookup-insert other key value s.values)
        (elim (Bool-cases (other == key)) [ inl t ↦ rw t refl | inr f ↦ rw f refl ])

  set-Leads :
      (key : String) (value : Option V) (s : RuntimeParameters V)
      → Leads (view s) (set key value s).1 (view (set key value s).0)
  unfolding set
  set-Leads key value s = elim (Bool-cases (is_same (get key none s) value)) [
    | inl t ↦ rw t (λ other.
        sym (view-insert key other value s ∙ same other (is_same_iff (get key none s) value t)))
    | inr f ↦
        rw f (
          refl,
          is_same_ne (get key none s) value f,
          (λ other. sym (view-insert key other value s)),
        )
  ]
    where
      same :
          (other : String)
          → get key none s ≡ value
          → write_view key value (view s) other ≡ view s other
      same other e = elim (Bool-cases (other == key)) [
        | inl t ↦ rw (t, (string_equality.is_equal_iff other key).0 t, e) refl
        | inr f ↦ rw f refl
      ]

  set-Distinct :
      (key : String) (value : Option V) (s : RuntimeParameters V)
      → Distinct (keys s.values)
      → Distinct (keys (set key value s).0.values)
  unfolding set
  set-Distinct key value s h = insert-Distinct key value s.values h

  -- What a write keeps and tells.
  abbrev Tells : RuntimeParameters V → RuntimeParameters V × List (Notice V) → Type 0
  Tells s r = Distinct (keys r.0.values) × Leads (view s) r.1 (view r.0)

  update-Tells :
      (mapping : Dict String (Option V)) (s : RuntimeParameters V)
      → Distinct (keys s.values)
      → Tells s (update mapping s)
  unfolding update
  update-Tells [] s h = (h, λ key. refl)
  update-Tells (entry ∷ mapping) s h =
      let r = set entry.0 entry.1 s in
      let rest = update-Tells mapping r.0 (set-Distinct entry.0 entry.1 s h) in
      (
        rest.0,
        Leads-append (view s) (view r.0) (view (update mapping r.0).0) r.1 (update mapping r.0).1
            (set-Leads entry.0 entry.1 s) rest.1,
      )

  perform-Tells :
      (w : Write V) (s : RuntimeParameters V) → Distinct (keys s.values) → Tells s (perform w s)
  unfolding perform
  perform-Tells (set_call key value) s h = (set-Distinct key value s h, set-Leads key value s)
  perform-Tells (update_call mapping) s h = update-Tells mapping s h
  perform-Tells (delete_call key) s h =
      (unfold delete in erase-Distinct key s.values h, delete-Leads key s h)
  perform-Tells (attribute_call name value) s h =
      unfold set_attribute in
      elim (Bool-cases (starts_private name)) [
        | inl t ↦ rw t (h, λ key. refl)
        | inr f ↦ rw f (set-Distinct name value s h, set-Leads name value s)
      ]

  run_writes-Tells :
      (ws : List (Write V)) (s : RuntimeParameters V)
      → Distinct (keys s.values)
      → Tells s (run_writes ws s)
  unfolding run_writes
  run_writes-Tells [] s h = (h, λ key. refl)
  run_writes-Tells (w ∷ ws) s h =
      let r = perform w s in
      let first = perform-Tells w s h in
      let rest = run_writes-Tells ws r.0 first.0 in
      (
        rest.0,
        Leads-append (view s) (view r.0) (view (run_writes ws r.0).0) r.1 (run_writes ws r.0).1
            first.1 rest.1,
      )

  -- Over any writes of parameters by `set`, `update`, `delete` and attributes, from values that
  -- hold each key once, as a dict does, the notices lead from what `get` answered before to what it
  -- answers after: each reports the value that its key had then and a different new one, and a
  -- key's last notice is its value, so an observer that applies them has the parameters as they
  -- are.
  pub run_writes-Leads :
      (ws : List (Write V)) (s : RuntimeParameters V)
      → Distinct (keys s.values)
      → Leads (view s) (run_writes ws s).1 (view (run_writes ws s).0)
  run_writes-Leads ws s h = (run_writes-Tells ws s h).1

  -- `setdefault` returns what `get` with that default answers, keeps a key that is there, even
  -- with `None`, and gives an absent one the default, and leaves every other key; it has no
  -- notice, so an absent key with a default that is not `None` gets a value that no observer is
  -- told of.
  pub set_default_lem :
      (key : String) (default : Option V) (s : RuntimeParameters V)
      → (let r = set_default key default s in
          (r.1 ≡ get key default s)
          × ((other : String) → view r.0 other ≡ (if other == key then r.1 else view s other)))
  unfolding set_default get
  set_default_lem key default s = elim (Option-cases (lookup key s.values)) [
    | inl n ↦ rw n (
      refl,
      λ other. elim (Bool-cases (other == key)) [
        | inl t ↦ rw (lookup-insert other key default s.values, t) refl
        | inr f ↦ rw (lookup-insert other key default s.values, f) refl
      ],
    )
    | inr (v, h) ↦ rw h (
      refl,
      λ other. elim (Bool-cases (other == key)) [
        | inl t ↦ rw (t, (string_equality.is_equal_iff other key).0 t, h) refl
        | inr f ↦ rw f refl
      ],
    )
  ]
