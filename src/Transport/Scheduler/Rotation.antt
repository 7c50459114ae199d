-- ===== src/Transport/Scheduler/Rotation.antt =====
-- Round after round of the read scheduler (equipment/transport/scheduler.py).
use csp_lib.Base.{
  ℕ, zero, suc, ◌+◌, ◌%◌, ◌<◌, ◌≡◌, ◌⊎◌, refl, ap, ◌∙◌, inl, inr, Option, none, some, List, [], ◌∷◌,
  ◌++◌, length, get_elem?, arith,
}
use native.Mathlib.Nat.{mod-lt, mod-eq_of_lt, mod-add-mod, add-zero}
use csp_lib.Transport.Scheduler.{
  ReadScheduler, new, get_next_groups, peek_next_groups, update_groups, reset,
}

-- A call that may change the scheduler.
pub data Call (G : Type 0) : Type 0 where
  next_call reset_call : Call G
  update_call : Option (List G) → Option (List (List G)) → Call G

get_elem-total :
    {A : Type 0} (xs : List A) (i : ℕ) → i < length xs → (a : A) × (get_elem? xs i ≡ some a)
get_elem-total [] i h = absurd (omega arith)
get_elem-total (x ∷ xs) zero h = (x, refl)
get_elem-total (x ∷ xs) (suc i) h = get_elem-total xs i (omega arith)

module _ {G : Type 0} where
  -- The index is that of a rotating group, or 0 where there is none.
  abbrev pub IsInRange : ReadScheduler G → Type 0
  IsInRange s = (s.rotating_index ≡ 0) ⊎ (s.rotating_index < length s.rotating_groups)

  pub step : Call G → ReadScheduler G → ReadScheduler G
  step next_call s = (get_next_groups s).0
  step reset_call s = reset s
  step (update_call always rotating) s = update_groups always rotating s

  -- A scheduler by its fields, so that a proof can split on the rotating groups.
  abbrev at : List G → List (List G) → ℕ → ReadScheduler G
  at always gs i = record { always_groups = always; rotating_groups = gs; rotating_index = i }

  next-IsInRange :
      (always : List G) (gs : List (List G)) (i : ℕ)
      → IsInRange (at always gs i)
      → IsInRange (get_next_groups (at always gs i)).0
  unfolding get_next_groups
  next-IsInRange always [] i h = h
  next-IsInRange always (g ∷ gs) i h = inr (mod-lt (i + 1) (omega arith))

  step-IsInRange : (c : Call G) (s : ReadScheduler G) → IsInRange s → IsInRange (step c s)
  unfolding step reset update_groups
  step-IsInRange next_call s h = next-IsInRange s.always_groups s.rotating_groups s.rotating_index h
  step-IsInRange reset_call s h = inl refl
  step-IsInRange (update_call none none) s h = h
  step-IsInRange (update_call (some a) none) s h = h
  step-IsInRange (update_call none (some r)) s h = inl refl
  step-IsInRange (update_call (some a) (some r)) s h = inl refl

  pub run_rounds : List (Call G) → ReadScheduler G → ReadScheduler G
  run_rounds [] s = s
  run_rounds (c ∷ cs) s = run_rounds cs (step c s)

  peek-total :
      (always : List G) (gs : List (List G)) (i : ℕ)
      → IsInRange (at always gs i)
      → (g : List G) × (peek_next_groups (at always gs i) ≡ some g)
  unfolding peek_next_groups
  peek-total always [] i h = (always, refl)
  peek-total always (g ∷ gs) i h =
      let (r, found) = get_elem-total (g ∷ gs) i (omega arith) in (always ++ r, rw found)

  run_rounds-keeps :
      (cs : List (Call G)) (s : ReadScheduler G) → IsInRange s → IsInRange (run_rounds cs s)
  unfolding run_rounds
  run_rounds-keeps [] s h = h
  run_rounds-keeps (c ∷ cs) s h = run_rounds-keeps cs (step c s) (step-IsInRange c s h)

  -- After any calls on a new scheduler, updates of the groups included, a read never runs out of
  -- range: `get_next_groups` returns groups, and the same ones that `peek_next_groups` shows.
  pub run_rounds-total :
      (cs : List (Call G)) (always : Option (List G)) (rotating : Option (List (List G)))
      → let s = run_rounds cs (new always rotating) in
        (g : List G) × (peek_next_groups s ≡ some g) × ((get_next_groups s).1 ≡ some g)
  unfolding get_next_groups peek_next_groups new
  run_rounds-total cs always rotating =
      let s = run_rounds cs (new always rotating) in
      let (g, found) =
        peek-total s.always_groups s.rotating_groups s.rotating_index
          (run_rounds-keeps cs _ (inl refl)) in
      (g, found, found)

  -- `n` calls of `get_next_groups` in a row.
  pub after : ℕ → ReadScheduler G → ReadScheduler G
  after zero s = s
  after (suc n) s = after n (get_next_groups s).0

  next_index :
      (always : List G) (gs : List (List G)) (i : ℕ)
      → 0 < length gs
      → (get_next_groups (at always gs i)).0 ≡ at always gs ((i + 1) % length gs)
  unfolding get_next_groups
  next_index always [] i h = absurd (omega arith)
  next_index always (g ∷ gs) i h = refl

  after_index :
      (n : ℕ) (always : List G) (gs : List (List G)) (i : ℕ)
      → i < length gs
      → after n (at always gs i) ≡ at always gs ((i + n) % length gs)
  unfolding after
  after_index zero always gs i h =
      let same : (i + 0) % length gs ≡ i = rw add-zero (mod-eq_of_lt h) in rw same
  after_index (suc n) always gs i h =
      let shift : ((i + 1) % length gs + n) % length gs ≡ (i + suc n) % length gs =
        mod-add-mod (i + 1) (length gs) n ∙ ap (λ (k : ℕ). k % length gs) (omega arith) in
      rw (next_index always gs i (omega arith)) (
        after_index n always gs ((i + 1) % length gs) (mod-lt (i + 1) (omega arith))
        ∙ ap (at always gs) shift)

  -- With `m` rotating groups, of which the index names one, the read after `n` calls returns the
  -- fixed groups and the rotating group `n` places further on, counted round modulo `m`.
  pub after_rotates :
      (n : ℕ) (s : ReadScheduler G)
      → s.rotating_index < length s.rotating_groups
      → (g : List G) × (get_elem? s.rotating_groups
            ((s.rotating_index + n) % length s.rotating_groups)
          ≡ some g)
        × ((get_next_groups (after n s)).1 ≡ some (s.always_groups ++ g))
  after_rotates n s h =
      let i = (s.rotating_index + n) % length s.rotating_groups in
      let (g, found) =
        get_elem-total s.rotating_groups i (mod-lt (s.rotating_index + n) (omega arith)) in
      (
        g,
        found,
        rw (after_index n s.always_groups s.rotating_groups s.rotating_index h)
            (shown s.always_groups s.rotating_groups i g found),
      )
    where
      shown :
          (always : List G) (gs : List (List G)) (i : ℕ) (g : List G)
          → get_elem? gs i ≡ some g
          → (get_next_groups (at always gs i)).1 ≡ some (always ++ g)
      shown always [] i g e = cc
      shown always (x ∷ gs) i g e = unfold get_next_groups in rw e
