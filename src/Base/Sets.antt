-- ===== src/Base/Sets.antt =====
-- Python's sets as lists in which nothing stands twice, and texts in order.
use Prim.Native.Nat.{ℕ}
use Prim.Native.Char.{code}
use Prim.Native.String.{String}
use mathlib.Core.Path.{◌≡◌, refl}
use mathlib.Core.Logic.{inl, inr}
use mathlib.Core.Bool.{Bool, true, false, ◌||◌}
use mathlib.Core.List.{List, [], ◌∷◌, ◌++◌}
use native.Mathlib.Omega.{arith}
use csp_lib.Base.Tests.{if◌then◌else◌, ltb, Bool-cases}
use csp_lib.Base.Eq.{Equality, ◌==◌, string_equality}
use csp_lib.Base.Lists.{
  All, All-map, contains, remove, Distinct, contains-append, contains-remove_ne,
  contains-remove_self, append_one-Distinct,
}

module _ {ℓ} {A : Type ℓ} ⦃e : Equality A⦄ where
  -- `set.add`; `set.discard` is `remove`.
  abbrev pub add : A → List A → List A
  add a xs = if contains a xs then xs else xs ++ a ∷ []

  pub contains-add :
      (b a : A) (xs : List A) → contains b (add a xs) ≡ (if b == a then true else contains b xs)
  contains-add b a xs = elim (Bool-cases (contains a xs)) [
    | inl t ↦ rw t (ground (arith, t, e.is_equal_iff b a))
    | inr f ↦ rw (f, contains-append) (ground arith)
  ]

  pub add-Distinct : (a : A) (xs : List A) → Distinct xs → Distinct (add a xs)
  add-Distinct a xs h = elim (Bool-cases (contains a xs)) [
    | inl t ↦ rw t h
    | inr f ↦ rw f (append_one-Distinct a xs h f)
  ]

  pub contains-discard :
      (b a : A) (xs : List A)
      → Distinct xs
      → contains b (remove a xs) ≡ (if b == a then false else contains b xs)
  contains-discard b a xs h = elim (Bool-cases (b == a)) [
    | inl t ↦ ground (arith, t, e.is_equal_iff b a, contains-remove_self a xs h)
    | inr f ↦ rw f (contains-remove_ne b a xs f)
  ]

abbrev pub codes : String → List ℕ
codes String.[] = []
codes (String.◌∷◌ c s) = code c ∷ codes s

-- The order of Python's `str`, by code points.
unfoldable pub lex_leb : List ℕ → List ℕ → Bool
lex_leb [] ys = true
lex_leb (x ∷ xs) [] = false
lex_leb (x ∷ xs) (y ∷ ys) = if ltb x y then true else (if ltb y x then false else lex_leb xs ys)

abbrev pub text_leb : String → String → Bool
text_leb s t = lex_leb (codes s) (codes t)

pub lex_total : (xs ys : List ℕ) → lex_leb xs ys ≡ false → lex_leb ys xs ≡ true
unfolding lex_leb
lex_total [] ys h = cc
lex_total (x ∷ xs) [] h = refl
lex_total (x ∷ xs) (y ∷ ys) h = ground (arith, lex_total xs ys)

pub lex_trans :
    (xs ys zs : List ℕ) → lex_leb xs ys ≡ true → lex_leb ys zs ≡ true → lex_leb xs zs ≡ true
unfolding lex_leb
lex_trans [] ys zs h k = refl
lex_trans (x ∷ xs) [] zs h k = cc
lex_trans (x ∷ xs) (y ∷ ys) [] h k = cc
lex_trans (x ∷ xs) (y ∷ ys) (z ∷ zs) h k = ground (arith, lex_trans xs ys zs)

pub lex_refl : (xs : List ℕ) → lex_leb xs xs ≡ true
unfolding lex_leb
lex_refl [] = refl
lex_refl (x ∷ xs) = ground (arith, lex_refl xs)

insert_text : String → List String → List String
insert_text s [] = s ∷ []
insert_text s (t ∷ ts) = if text_leb s t then s ∷ t ∷ ts else t ∷ insert_text s ts

-- `sorted`, of texts.
unfoldable pub sort_texts : List String → List String
unfolding insert_text
sort_texts [] = []
sort_texts (s ∷ ss) = insert_text s (sort_texts ss)

contains-insert_text :
    (u s : String) (ts : List String) → contains u (insert_text s ts) ≡ (u == s || contains u ts)
unfolding insert_text
contains-insert_text u s [] = refl
contains-insert_text u s (t ∷ ts) = ground (arith, contains-insert_text u s ts)

pub contains-sort_texts :
    (u : String) (ss : List String) → contains u (sort_texts ss) ≡ contains u ss
unfolding sort_texts
contains-sort_texts u [] = refl
contains-sort_texts u (s ∷ ss) =
    ground (arith, contains-insert_text u s (sort_texts ss), contains-sort_texts u ss)

-- The texts stand in order.
abbrev pub IsAscending : List String → Type 0
IsAscending [] = Unit
IsAscending (s ∷ ss) = All (λ t. text_leb s t ≡ true) ss × IsAscending ss

insert_text-All :
    (P : String → Type 0) (s : String) (ts : List String)
    → P s
    → All P ts
    → All P (insert_text s ts)
unfolding insert_text
insert_text-All P s [] h k = (h, tt)
insert_text-All P s (t ∷ ts) h k = elim (Bool-cases (text_leb s t)) [
  | inl e ↦ rw e (h, k)
  | inr f ↦ rw f (k.0, insert_text-All P s ts h k.1)
]

insert_text-IsAscending :
    (s : String) (ts : List String) → IsAscending ts → IsAscending (insert_text s ts)
unfolding insert_text
insert_text-IsAscending s [] h = (tt, tt)
insert_text-IsAscending s (t ∷ ts) h = elim (Bool-cases (text_leb s t)) [
  | inl e ↦ rw e ((e, All-map ts (λ u k. lex_trans (codes s) (codes t) (codes u) e k) h.0), h)
  | inr f ↦ rw f (
    insert_text-All (λ u. text_leb t u ≡ true) s ts (lex_total (codes s) (codes t) f) h.0,
    insert_text-IsAscending s ts h.1,
  )
]

pub sort_texts-IsAscending : (ss : List String) → IsAscending (sort_texts ss)
unfolding sort_texts
sort_texts-IsAscending [] = tt
sort_texts-IsAscending (s ∷ ss) =
    insert_text-IsAscending s (sort_texts ss) (sort_texts-IsAscending ss)
