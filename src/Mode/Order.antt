-- ===== src/Mode/Order.antt =====
-- The order in which the base modes are combined (controller/system/mode.py).
use csp_lib.Base.{◌≡◌, refl, List, [], ◌∷◌, arith, Bool-cases, inl, inr, map, All, All-map}
use mathlib.Core.List.{Perm}
use mathlib.Core.List.Perm
use csp_lib.Base.Int.{◌≤ℤ◌, leb_ℤ}
use csp_lib.Mode.{
  ModeDefinition, ModeManager, modes_of, insert_mode, sort_modes, base_mode_names, base_strategies,
}

abbrev NotAbove : ModeDefinition → ModeDefinition → Type 0
NotAbove m x = x.priority ≤ℤ m.priority

-- Each mode's priority is not below that of any later one.
abbrev pub IsDescending : List ModeDefinition → Type 0
IsDescending [] = Unit
IsDescending (m ∷ ms) = All (NotAbove m) ms × IsDescending ms

insert_mode-All :
    (P : ModeDefinition → Type 0) (m : ModeDefinition) (xs : List ModeDefinition)
    → P m
    → All P xs
    → All P (insert_mode m xs)
unfolding insert_mode
insert_mode-All P m [] p h = (p, tt)
insert_mode-All P m (x ∷ xs) p h = elim (Bool-cases (leb_ℤ x.priority m.priority)) [
  | inl t ↦ rw t (p, h)
  | inr f ↦ rw f (h.0, insert_mode-All P m xs p h.1)
]

insert_mode-IsDescending :
    (m : ModeDefinition) (xs : List ModeDefinition)
    → IsDescending xs
    → IsDescending (insert_mode m xs)
unfolding insert_mode
insert_mode-IsDescending m [] d = (tt, tt)
insert_mode-IsDescending m (x ∷ xs) d = elim (Bool-cases (leb_ℤ x.priority m.priority)) [
  | inl t ↦ rw t ((ground (arith, t), All-map xs (λ k h. ground (arith, t, h)) d.0), d)
  | inr f ↦
      rw f (
        insert_mode-All (NotAbove x) m xs (ground (arith, f)) d.0,
        insert_mode-IsDescending m xs d.1,
      )
]

sort_modes-IsDescending : (ms : List ModeDefinition) → IsDescending (sort_modes ms)
unfolding sort_modes
sort_modes-IsDescending [] = tt
sort_modes-IsDescending (m ∷ ms) =
    insert_mode-IsDescending m (sort_modes ms) (sort_modes-IsDescending ms)

insert_mode-perm :
    (m : ModeDefinition) (xs : List ModeDefinition) → Perm (insert_mode m xs) (m ∷ xs)
unfolding insert_mode
insert_mode-perm m [] = Perm.refl (m ∷ [])
insert_mode-perm m (x ∷ xs) = elim (Bool-cases (leb_ℤ x.priority m.priority)) [
  | inl t ↦ rw t (Perm.refl (m ∷ x ∷ xs))
  | inr f ↦ rw f (Perm.trans (Perm.cons x (insert_mode-perm m xs)) (Perm.swap m x xs))
]

sort_modes-perm : (ms : List ModeDefinition) → Perm (sort_modes ms) ms
unfolding sort_modes
sort_modes-perm [] = Perm.refl []
sort_modes-perm (m ∷ ms) =
    Perm.trans (insert_mode-perm m (sort_modes ms)) (Perm.cons m (sort_modes-perm ms))

-- `base_mode_names` and `base_strategies` list the same modes in the same order: those of the
-- registered base modes, each as often, from the highest priority to the lowest.
pub base_order :
    (s : ModeManager)
    → (ms : List ModeDefinition) × (base_mode_names s ≡ map (λ m. m.name) ms)
      × (base_strategies s ≡ map (λ m. m.strategy) ms)
      × IsDescending ms
      × Perm ms (modes_of s.modes s.base_names)
unfolding base_mode_names base_strategies
base_order s =
    let ms = modes_of s.modes s.base_names in
    (sort_modes ms, refl, refl, sort_modes-IsDescending ms, sort_modes-perm ms)
