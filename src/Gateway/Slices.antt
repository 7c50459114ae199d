-- ===== src/Gateway/Slices.antt =====
-- Slices of the gateway's register arrays, `regs[a : a + n]` and the assignment to one.
use csp_lib.Base.{
  ℕ, zero, suc, ◌+◌, ◌≤◌, ◌≡◌, ◌⊎◌, refl, ap, inl, inr, List, [], ◌∷◌, length, arith,
}

unfoldable pub slice : ℕ → ℕ → List ℕ → List ℕ
slice a n [] = []
slice (suc a) n (r ∷ rs) = slice a n rs
slice zero zero (r ∷ rs) = []
slice zero (suc n) (r ∷ rs) = r ∷ slice zero n rs

-- `regs[a : a + len(ws)] = ws`; what stands beyond the end is appended.
unfoldable pub splice : ℕ → List ℕ → List ℕ → List ℕ
splice a ws [] = ws
splice (suc a) ws (r ∷ rs) = r ∷ splice a ws rs
splice zero [] (r ∷ rs) = r ∷ rs
splice zero (w ∷ ws) (r ∷ rs) = w ∷ splice zero ws rs

pub length-splice :
    (a : ℕ) (ws rs : List ℕ) → a + length ws ≤ length rs → length (splice a ws rs) ≡ length rs
unfolding splice
length-splice a ws [] h = ground (arith, h)
length-splice (suc a) ws (r ∷ rs) h = ap suc (length-splice a ws rs (ground (arith, h)))
length-splice zero [] (r ∷ rs) h = refl
length-splice zero (w ∷ ws) (r ∷ rs) h = ap suc (length-splice zero ws rs (ground (arith, h)))

-- What was assigned is read back.
pub slice-splice :
    (a : ℕ) (ws rs : List ℕ) → a + length ws ≤ length rs → slice a (length ws) (splice a ws rs) ≡ ws
unfolding slice splice
slice-splice a [] [] h = refl
slice-splice a (w ∷ ws) [] h = absurd (ground (arith, h))
slice-splice (suc a) ws (r ∷ rs) h = slice-splice a ws rs (ground (arith, h))
slice-splice zero [] (r ∷ rs) h = refl
slice-splice zero (w ∷ ws) (r ∷ rs) h =
    ap (λ x. w ∷ x) (slice-splice zero ws rs (ground (arith, h)))

-- What lies before or after the assigned part stays.
pub slice-splice_apart :
    (b n a : ℕ) (ws rs : List ℕ)
    → a + length ws ≤ length rs
    → (b + n ≤ a) ⊎ (a + length ws ≤ b)
    → slice b n (splice a ws rs) ≡ slice b n rs
unfolding slice splice
slice-splice_apart b n a [] [] h s = refl
slice-splice_apart b n a (w ∷ ws) [] h s = absurd (ground (arith, h))
slice-splice_apart (suc b) n (suc a) ws (r ∷ rs) h s =
    slice-splice_apart b n a ws rs (ground (arith, h)) (nearer s)
  where
    nearer : (suc b + n ≤ suc a) ⊎ (suc a + length ws ≤ suc b) → (b + n ≤ a) ⊎ (a + length ws ≤ b)
    nearer (inl h) = inl (ground (arith, h))
    nearer (inr h) = inr (ground (arith, h))
slice-splice_apart zero zero (suc a) ws (r ∷ rs) h s = refl
slice-splice_apart zero (suc n) (suc a) ws (r ∷ rs) h (inl s) =
    ap (λ x. r ∷ x)
      (slice-splice_apart zero n a ws rs (ground (arith, h)) (inl (ground (arith, s))))
slice-splice_apart zero (suc n) (suc a) ws (r ∷ rs) h (inr s) = absurd (ground (arith, s))
slice-splice_apart b n zero [] (r ∷ rs) h s = refl
slice-splice_apart (suc b) n zero (w ∷ ws) (r ∷ rs) h (inl s) = absurd (ground (arith, s))
slice-splice_apart (suc b) n zero (w ∷ ws) (r ∷ rs) h (inr s) =
    slice-splice_apart b n zero ws rs (ground (arith, h)) (inr (ground (arith, s)))
slice-splice_apart zero zero zero (w ∷ ws) (r ∷ rs) h s = refl
slice-splice_apart zero (suc n) zero (w ∷ ws) (r ∷ rs) h (inl s) = absurd (ground (arith, s))
slice-splice_apart zero (suc n) zero (w ∷ ws) (r ∷ rs) h (inr s) = absurd (ground (arith, s))
