-- ===== src/Transport/Grouping/Sorting.antt =====
-- The sort of the points, and the runs of a bucket (equipment/transport/base.py).
use csp_lib.Base.{
  ◌≤◌, ◌≡◌, refl, ap, true, false, List, [], ◌∷◌, ◌++◌, nat_equality, string_equality, All, All-map,
  All-zip, All-left, Bool-cases, inl, inr, arith, ◌∙◌,
}
use mathlib.Core.List.{Perm}
use mathlib.Core.List.Perm
use csp_lib.Transport.Grouping.{
  ReadPoint, key_leb, insert_point, sort_points, same_bucket, runs_of, add_to_run,
}
use csp_lib.Base.Sets.{codes, lex_total, lex_trans, lex_refl}

key_total : (p q : ReadPoint) → key_leb p q ≡ false → key_leb q p ≡ true
unfolding key_leb
key_total p q h = ground (arith, lex_total (codes p.read_group) (codes q.read_group))

key_trans : (p q r : ReadPoint) → key_leb p q ≡ true → key_leb q r ≡ true → key_leb p r ≡ true
unfolding key_leb
key_trans p q r h k =
    let a = codes p.read_group in
    let b = codes q.read_group in
    let c = codes r.read_group in
    ground (
      arith,
      lex_trans a b c,
      lex_trans b c a,
      lex_trans c a b,
      lex_trans c b a,
      lex_trans b a c,
      lex_trans a c b,
      lex_total a b,
      lex_total b c,
      lex_total a c,
    )

abbrev IsSorted : List ReadPoint → Type 0
IsSorted [] = Unit
IsSorted (p ∷ ps) = All (λ q. key_leb p q ≡ true) ps × IsSorted ps

insert_point-All :
    (P : ReadPoint → Type 0) (p : ReadPoint) (qs : List ReadPoint)
    → P p
    → All P qs
    → All P (insert_point p qs)
unfolding insert_point
insert_point-All P p [] h k = (h, tt)
insert_point-All P p (q ∷ qs) h k = elim (Bool-cases (key_leb p q)) [
  | inl t ↦ rw t (h, k)
  | inr f ↦ rw f (k.0, insert_point-All P p qs h k.1)
]

pub sort_points-All :
    (P : ReadPoint → Type 0) (ps : List ReadPoint) → All P ps → All P (sort_points ps)
unfolding sort_points
sort_points-All P [] h = h
sort_points-All P (p ∷ ps) h = insert_point-All P p (sort_points ps) h.0 (sort_points-All P ps h.1)

insert_point-IsSorted :
    (p : ReadPoint) (qs : List ReadPoint) → IsSorted qs → IsSorted (insert_point p qs)
unfolding insert_point
insert_point-IsSorted p [] h = (tt, tt)
insert_point-IsSorted p (q ∷ qs) h = elim (Bool-cases (key_leb p q)) [
  | inl t ↦ rw t ((t, All-map qs (λ r k. key_trans p q r t k) h.0), h)
  | inr f ↦ rw f (
    insert_point-All (λ r. key_leb q r ≡ true) p qs (key_total p q f) h.0,
    insert_point-IsSorted p qs h.1,
  )
]

sort_points-IsSorted : (ps : List ReadPoint) → IsSorted (sort_points ps)
unfolding sort_points
sort_points-IsSorted [] = tt
sort_points-IsSorted (p ∷ ps) = insert_point-IsSorted p (sort_points ps) (sort_points-IsSorted ps)

insert_point-perm : (p : ReadPoint) (qs : List ReadPoint) → Perm (insert_point p qs) (p ∷ qs)
unfolding insert_point
insert_point-perm p [] = Perm.refl (p ∷ [])
insert_point-perm p (q ∷ qs) = elim (Bool-cases (key_leb p q)) [
  | inl t ↦ rw t (Perm.refl (p ∷ q ∷ qs))
  | inr f ↦ rw f (Perm.trans (Perm.cons q (insert_point-perm p qs)) (Perm.swap p q qs))
]

pub sort_points-perm : (ps : List ReadPoint) → Perm (sort_points ps) ps
unfolding sort_points
sort_points-perm [] = Perm.refl []
sort_points-perm (p ∷ ps) =
    Perm.trans (insert_point-perm p (sort_points ps)) (Perm.cons p (sort_points-perm ps))

-- Points of one bucket, from the lowest address to the highest.
abbrev pub IsByAddress : List ReadPoint → Type 0
IsByAddress [] = Unit
IsByAddress (p ∷ ps) = All (λ q. p.address ≤ q.address) ps × IsByAddress ps

abbrev pub IsRun : List ReadPoint → Type 0
IsRun [] = ⊥
IsRun (p ∷ ps) = All (λ q. same_bucket p q ≡ true) ps × IsByAddress (p ∷ ps)

same_bucket_trans :
    (p q r : ReadPoint) → same_bucket p q ≡ true → same_bucket q r ≡ true → same_bucket p r ≡ true
same_bucket_trans p q r h k = ground (
  arith,
  h,
  k,
  string_equality.is_equal_iff p.read_group q.read_group,
  string_equality.is_equal_iff q.read_group r.read_group,
  string_equality.is_equal_iff p.read_group r.read_group,
)

address_le : (p q : ReadPoint) → same_bucket p q ≡ true → key_leb p q ≡ true → p.address ≤ q.address
unfolding key_leb
address_le p q h k = ground (
  arith,
  h,
  k,
  string_equality.is_equal_iff p.read_group q.read_group,
  lex_refl (codes p.read_group),
)

unfoldable pub concat : List (List ReadPoint) → List ReadPoint
concat [] = []
concat (run ∷ runs) = run ++ concat runs

concat-add_to_run :
    (p : ReadPoint) (runs : List (List ReadPoint)) → concat (add_to_run p runs) ≡ p ∷ concat runs
unfolding concat
concat-add_to_run p [] = refl
concat-add_to_run p ([] ∷ runs) = refl
concat-add_to_run p ((q ∷ qs) ∷ runs) = ground arith

pub concat-runs_of : (ps : List ReadPoint) → concat (runs_of ps) ≡ ps
unfolding runs_of
concat-runs_of [] = unfold concat in refl
concat-runs_of (p ∷ ps) = concat-add_to_run p (runs_of ps) ∙ ap (λ qs. p ∷ qs) (concat-runs_of ps)

add_to_run-IsRun :
    (p : ReadPoint) (runs : List (List ReadPoint))
    → All (λ q. key_leb p q ≡ true) (concat runs)
    → All IsRun runs
    → All IsRun (add_to_run p runs)
unfolding concat
add_to_run-IsRun p [] h k = ((tt, (tt, tt)), tt)
add_to_run-IsRun p ([] ∷ runs) h k = absurd k.0
add_to_run-IsRun p ((q ∷ qs) ∷ runs) h k = elim (Bool-cases (same_bucket p q)) [
  | inr f ↦ rw f ((tt, (tt, tt)), k)
  | inl t ↦
      let alike : All (λ r. same_bucket p r ≡ true) qs =
        All-map qs (λ r s. same_bucket_trans p q r t s) k.0.0 in
      let ordered = All-left (λ r. key_leb p r ≡ true) qs (concat runs) h.1 in
      let above : All (λ r. p.address ≤ r.address) qs =
        All-zip qs (λ r s o. address_le p r s o) alike ordered in
      rw t (((t, alike), ((address_le p q t h.0, above), k.0.1)), k.1)
]

runs_of-IsRun : (ps : List ReadPoint) → IsSorted ps → All IsRun (runs_of ps)
unfolding runs_of
runs_of-IsRun [] h = tt
runs_of-IsRun (p ∷ ps) h =
    add_to_run-IsRun p (runs_of ps) (rw concat-runs_of h.0) (runs_of-IsRun ps h.1)

-- The runs of the sorted points are of one bucket each, by address, and none is empty.
pub sorted_runs-IsRun : (ps : List ReadPoint) → All IsRun (runs_of (sort_points ps))
sorted_runs-IsRun ps = runs_of-IsRun (sort_points ps) (sort_points-IsSorted ps)
