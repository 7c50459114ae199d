-- ===== src/Aggregator/Flags.antt =====
-- What an observer of the aggregated flag hears (csp_lib/alarm/aggregator.py).
use csp_lib.Base.{
  ℕ, suc, ◌+◌, String, Bool, true, false, ◌≡◌, refl, sym, ◌∙◌, subst, not, Option, none, some, List,
  [], ◌∷◌, ◌++◌, contains, remove, if◌then◌else◌, ◌==◌, nat_equality, string_equality, arith,
  Bool-cases, Option-cases, inl, inr,
}
use csp_lib.Base.Dict.{lookup, erase}
use csp_lib.Aggregator.{
  HookKind, device, watchdog, Hook, AlarmAggregator, Effect, told, unsubscribed, active, tell,
  differ, write_source, run_unbinder, set_source_active, mark_source, handle, handle_as, unbind,
  pop_unbinder, bind, bind_named, source_name, bind_device, bind_watchdog, on_change,
  remove_observer, Call, device_call, watchdog_call, unbind_call, event, mark_call, observe,
  unobserve, or_same, perform, run_calls,
}

-- The flags that one observer is called with.
abbrev pub heard : ℕ → List Effect → List Bool
heard cb [] = []
heard cb (told other flag ∷ es) = if cb == other then flag ∷ heard cb es else heard cb es
heard cb (unsubscribed hook ∷ es) = heard cb es

-- The flags flip one by one, from the first flag to the last.
abbrev pub Alternates : Bool → List Bool → Bool → Type 0
Alternates a [] b = a ≡ b
Alternates a (f ∷ fs) b = (f ≡ not a) × Alternates f fs b

-- How often the observer is registered.
abbrev pub count : ℕ → List ℕ → ℕ
count cb [] = 0
count cb (other ∷ cbs) = if cb == other then suc (count cb cbs) else count cb cbs

heard-append : (cb : ℕ) (es fs : List Effect) → heard cb (es ++ fs) ≡ heard cb es ++ heard cb fs
heard-append cb [] fs = refl
heard-append cb (told other flag ∷ es) fs = ground (arith, heard-append cb es fs)
heard-append cb (unsubscribed hook ∷ es) fs = heard-append cb es fs

Alternates-append :
    (a b c : Bool) (fs gs : List Bool)
    → Alternates a fs b
    → Alternates b gs c
    → Alternates a (fs ++ gs) c
Alternates-append a b c [] gs h k = subst (λ x. Alternates x gs c) (sym h) k
Alternates-append a b c (f ∷ fs) gs h k = (h.0, Alternates-append f b c fs gs h.1 k)

count-append : (cb : ℕ) (xs ys : List ℕ) → count cb (xs ++ ys) ≡ count cb xs + count cb ys
count-append cb [] ys = omega arith
count-append cb (x ∷ xs) ys = ground (arith, count-append cb xs ys)

count-remove :
    (cb other : ℕ) (xs : List ℕ) → (cb == other) ≡ false → count cb (remove other xs) ≡ count cb xs
count-remove cb other [] h = refl
count-remove cb other (x ∷ xs) h = ground (arith, count-remove cb other xs h)

-- Calls that neither register nor remove the observer.
abbrev pub Leaves : ℕ → Call → Type 0
Leaves cb (observe other) = (cb == other) ≡ false
Leaves cb (unobserve other) = (cb == other) ≡ false
Leaves cb _ = Unit

abbrev pub Leave : ℕ → List Call → Type 0
Leave cb [] = Unit
Leave cb (c ∷ cs) = Leaves cb c × Leave cb cs

-- What one call must do for the observer.
abbrev Reports : ℕ → AlarmAggregator → AlarmAggregator × List Effect → Type 0
Reports cb s r = Alternates (active s) (heard cb r.1) (active r.0) × (count cb r.0.observers ≡ 1)

module _ (cb : ℕ) where
  heard-tell_none : (cbs : List ℕ) (flag : Bool) → count cb cbs ≡ 0 → heard cb (tell cbs flag) ≡ []
  heard-tell_none [] flag h = refl
  heard-tell_none (x ∷ cbs) flag h = ground (arith, heard-tell_none cbs flag)

  heard-tell :
      (cbs : List ℕ) (flag : Bool) → count cb cbs ≡ 1 → heard cb (tell cbs flag) ≡ flag ∷ []
  heard-tell [] flag h = absurd (omega (arith, h))
  heard-tell (x ∷ cbs) flag h = ground (arith, h, heard-tell cbs flag, heard-tell_none cbs flag)

  Alternates-flip :
      (a b : Bool) (cbs : List ℕ)
      → count cb cbs ≡ 1
      → Alternates a (heard cb (if differ a b then tell cbs b else [])) b
  Alternates-flip true true cbs h = refl
  Alternates-flip false false cbs h = refl
  Alternates-flip true false cbs h = rw (heard-tell cbs false h) (refl, refl)
  Alternates-flip false true cbs h = rw (heard-tell cbs true h) (refl, refl)

  set_source_active-Reports :
      (name : String) (value : Bool) (s : AlarmAggregator)
      → count cb s.observers ≡ 1
      → Reports cb s (set_source_active name value s)
  unfolding set_source_active
  set_source_active-Reports name value s h =
      let s' = record s { active_sources = write_source name value s.active_sources } in
      (Alternates-flip (active s) (active s') s.observers h, h)

  handle-Reports :
      (kind : HookKind) (hook : Hook) (value : Bool) (s : AlarmAggregator)
      → count cb s.observers ≡ 1
      → Reports cb s (handle_as kind hook value s)
  handle-Reports device hook value s h = set_source_active-Reports hook.source value s h
  handle-Reports watchdog hook value s h = elim (Bool-cases (contains hook.id s.cancelled)) [
    | inl t ↦ rw t (refl, h)
    | inr f ↦ rw f (set_source_active-Reports hook.source value s h)
  ]

  hook-Reports :
      (kind : HookKind) (hook : Hook) (name : String) (s : AlarmAggregator)
      → count cb s.observers ≡ 1
      → (let (s₁, es) = run_unbinder kind hook s in
          let (s₂, fs) = set_source_active name false s₁ in Reports cb s (s₂, es ++ fs))
  unfolding set_source_active active
  hook-Reports device hook name s h =
      let s' = record s { active_sources = write_source name false s.active_sources } in
      (Alternates-flip (active s) (active s') s.observers h, h)
  hook-Reports watchdog hook name s h =
      let s' = record s { active_sources = write_source name false s.active_sources } in
      (Alternates-flip (active s) (active s') s.observers h, h)

  unbind_as-Reports :
      (hook : Option Hook) (name : String) (s : AlarmAggregator)
      → count cb s.observers ≡ 1
      → (let (s₁, es) = pop_unbinder hook name s in
          let (s₂, fs) = set_source_active name false s₁ in Reports cb s (s₂, es ++ fs))
  unfolding active
  unbind_as-Reports none name s h = unfold active in set_source_active-Reports name false s h
  unbind_as-Reports (some hook) name s h =
      unfold active in
      hook-Reports hook.kind hook name (record s { unbinders = erase name s.unbinders }) h

  unbind-Reports :
      (name : String) (s : AlarmAggregator)
      → count cb s.observers ≡ 1
      → Reports cb s (unbind name s)
  unfolding unbind
  unbind-Reports name s h = unbind_as-Reports (lookup name s.unbinders) name s h

  bind-Reports :
      (kind : HookKind) (name : String) (s : AlarmAggregator)
      → count cb s.observers ≡ 1
      → Reports cb s (bind kind name s)
  unfolding bind active
  bind-Reports kind name s h = elim (Option-cases (lookup name s.unbinders)) [
    | inl e ↦ rw e (refl, h)
    | inr (hook, e) ↦ rw e (unfold active in unbind-Reports name s h)
  ]

  bind_named-Reports :
      (kind : HookKind) (name : Option String) (s : AlarmAggregator)
      → count cb s.observers ≡ 1
      → Reports cb s (or_same s (bind_named kind name s))
  bind_named-Reports kind none s h = (refl, h)
  bind_named-Reports kind (some name) s h = elim (Bool-cases (name == "")) [
    | inl t ↦ rw t (refl, h)
    | inr f ↦ rw f (bind-Reports kind name s h)
  ]

  perform-Reports :
      (c : Call) (s : AlarmAggregator)
      → Leaves cb c
      → count cb s.observers ≡ 1
      → Reports cb s (perform c s)
  unfolding perform
  perform-Reports (device_call device_id name) s l h =
      unfold bind_device in bind_named-Reports device (source_name name device_id) s h
  perform-Reports (watchdog_call name) s l h =
      unfold bind_watchdog in bind_named-Reports watchdog (some name) s h
  perform-Reports (unbind_call name) s l h = unbind-Reports name s h
  perform-Reports (event hook value) s l h =
      unfold handle in handle-Reports hook.kind hook value s h
  perform-Reports (mark_call name value) s l h =
      unfold mark_source in set_source_active-Reports name value s h
  perform-Reports (observe other) s l h =
      unfold on_change active in
      (refl, ground (arith, l, h, count-append cb s.observers (other ∷ [])))
  perform-Reports (unobserve other) s l h =
      unfold remove_observer active in (refl, count-remove cb other s.observers l ∙ h)

  run_calls-Reports :
      (cs : List Call) (s : AlarmAggregator)
      → Leave cb cs
      → count cb s.observers ≡ 1
      → Reports cb s (run_calls cs s)
  unfolding run_calls
  run_calls-Reports [] s l h = (refl, h)
  run_calls-Reports (c ∷ cs) s l h =
      let r = perform c s in
      let t = run_calls cs r.0 in
      let first = perform-Reports c s l.0 h in
      let rest = run_calls-Reports cs r.0 l.1 first.1 in
      (
        rw (heard-append cb r.1 t.1) (
            Alternates-append (active s) (active r.0) (active t.0) (heard cb r.1) (heard cb t.1)
              first.0 rest.0),
        rest.1,
      )

  -- Over any calls, an observer that is registered once, and that no call registers or removes, is
  -- called with flags that flip one by one from the aggregated flag before the calls to the one
  -- after them: it is told of every change, once, and of nothing else.
  pub run_calls-Alternates :
      (cs : List Call) (s : AlarmAggregator)
      → Leave cb cs
      → count cb s.observers ≡ 1
      → Alternates (active s) (heard cb (run_calls cs s).1) (active (run_calls cs s).0)
  run_calls-Alternates cs s l h = (run_calls-Reports cs s l h).0
