-- ===== src/Examples/Blocks.antt =====
-- Blocks as lists of what stands in them, numbered from 0: the memory of the small instance of LLVM.
use wembed.Base.{
  ℕ, zero, suc, ◌+◌, ◌≡◌, ◌≢◌, refl, ap, arith, true, List, [], ◌∷◌, ◌++◌, ltb, length,
}

abbrev pub at_block : {A : Type 0} → List (List A) → ℕ → List A
at_block [] k = []
at_block (x ∷ xs) zero = x
at_block (x ∷ xs) (suc k) = at_block xs k

-- One more at the end of a block.
abbrev pub add_at : {A : Type 0} → ℕ → A → List (List A) → List (List A)
add_at k a [] = []
add_at zero a (x ∷ xs) = (x ++ (a ∷ [])) ∷ xs
add_at (suc k) a (x ∷ xs) = x ∷ add_at k a xs

abbrev pub add_block : {A : Type 0} → List (List A) → List (List A)
add_block xs = xs ++ ([] ∷ [])

pub length-add_at :
    {A : Type 0} (k : ℕ) (a : A) (xs : List (List A)) → length (add_at k a xs) ≡ length xs
length-add_at k a [] = refl
length-add_at zero a (x ∷ xs) = refl
length-add_at (suc k) a (x ∷ xs) = ap (λ n. suc n) (length-add_at k a xs)

pub length-add_block : {A : Type 0} (xs : List (List A)) → length (add_block xs) ≡ length xs + 1
length-add_block [] = refl
length-add_block (x ∷ xs) = omega (arith, length-add_block xs)

pub at_block-add_at :
    {A : Type 0} (k : ℕ) (a : A) (xs : List (List A))
    → ltb k (length xs) ≡ true
    → at_block (add_at k a xs) k ≡ at_block xs k ++ (a ∷ [])
at_block-add_at k a [] h = absurd (ground arith)
at_block-add_at zero a (x ∷ xs) h = refl
at_block-add_at (suc k) a (x ∷ xs) h = at_block-add_at k a xs (ground arith)

pub at_block-add_at_away :
    {A : Type 0} (j k : ℕ) (a : A) (xs : List (List A))
    → k ≢ j
    → at_block (add_at j a xs) k ≡ at_block xs k
at_block-add_at_away j k a [] h = refl
at_block-add_at_away zero zero a (x ∷ xs) h = absurd (h refl)
at_block-add_at_away zero (suc k) a (x ∷ xs) h = refl
at_block-add_at_away (suc j) zero a (x ∷ xs) h = refl
at_block-add_at_away (suc j) (suc k) a (x ∷ xs) h =
    at_block-add_at_away j k a xs (λ e. h (ap (λ n. suc n) e))

pub at_block-add_block :
    {A : Type 0} (xs : List (List A)) (k : ℕ) → at_block (add_block xs) k ≡ at_block xs k
at_block-add_block [] zero = refl
at_block-add_block [] (suc k) = refl
at_block-add_block (x ∷ xs) zero = refl
at_block-add_block (x ∷ xs) (suc k) = at_block-add_block xs k

pub at_block-new : {A : Type 0} (xs : List (List A)) → at_block (add_block xs) (length xs) ≡ []
at_block-new [] = refl
at_block-new (x ∷ xs) = at_block-new xs
