-- ===== src/VersionFmt/Ranks.antt =====
-- Sequences of ranks, compared from the left with the rank 1 behind the shorter one: the order that
-- the two version formats are measured by.
use clair.Prelude.{
  ℕ, List, [], ◌∷◌, ltb, if◌then◌else◌, ℤ, pos, negsuc, neg, ◌≡◌, ◌≢◌, ◌⊎◌, inl, refl, arith,
}

abbrev pub compare_rank : ℕ → ℕ → ℤ → ℤ
compare_rank x y again = if ltb x y then negsuc 0 else if ltb y x then pos 1 else again

unfoldable pub compare_ranks : List ℕ → List ℕ → ℤ
compare_ranks [] [] = pos 0
compare_ranks (x ∷ xs) [] = compare_rank x 1 (compare_ranks xs [])
compare_ranks [] (y ∷ ys) = compare_rank 1 y (compare_ranks [] ys)
compare_ranks (x ∷ xs) (y ∷ ys) = compare_rank x y (compare_ranks xs ys)

pub compare_ranks_self : (xs : List ℕ) → compare_ranks xs xs ≡ pos 0
unfolding compare_ranks
compare_ranks_self [] = refl
compare_ranks_self (x ∷ xs) = ground (arith, compare_ranks_self xs)

pub compare_ranks_swap : (xs ys : List ℕ) → compare_ranks ys xs ≡ neg (compare_ranks xs ys)
unfolding compare_ranks
compare_ranks_swap [] [] = refl
compare_ranks_swap (x ∷ xs) [] = ground (arith, compare_ranks_swap xs [])
compare_ranks_swap [] (y ∷ ys) = ground (arith, compare_ranks_swap [] ys)
compare_ranks_swap (x ∷ xs) (y ∷ ys) = ground (arith, compare_ranks_swap xs ys)

-- `NotAfter c` says of a result that the left side does not come after the right one.
abbrev pub NotAfter : ℤ → Type 0
NotAfter c = c ≢ pos 1

pub compare_ranks_trans :
    (xs ys zs : List ℕ)
    → NotAfter (compare_ranks xs ys)
    → NotAfter (compare_ranks ys zs)
    → NotAfter (compare_ranks xs zs)
unfolding compare_ranks
compare_ranks_trans [] [] [] h k = h
compare_ranks_trans [] [] (z ∷ zs) h k = k
compare_ranks_trans [] (y ∷ ys) [] h k = cc
compare_ranks_trans [] (y ∷ ys) (z ∷ zs) h k = ground (arith, compare_ranks_trans [] ys zs)
compare_ranks_trans (x ∷ xs) [] [] h k = h
compare_ranks_trans (x ∷ xs) [] (z ∷ zs) h k = ground (arith, compare_ranks_trans xs [] zs)
compare_ranks_trans (x ∷ xs) (y ∷ ys) [] h k = ground (arith, compare_ranks_trans xs ys [])
compare_ranks_trans (x ∷ xs) (y ∷ ys) (z ∷ zs) h k = ground (arith, compare_ranks_trans xs ys zs)

abbrev pub IsSign : ℤ → Type 0
IsSign c = (c ≡ pos 0) ⊎ (c ≡ pos 1) ⊎ (c ≡ negsuc 0)

pub compare_ranks_range : (xs ys : List ℕ) → IsSign (compare_ranks xs ys)
unfolding compare_ranks
compare_ranks_range [] [] = inl refl
compare_ranks_range (x ∷ xs) [] = ground (arith, compare_ranks_range xs [])
compare_ranks_range [] (y ∷ ys) = ground (arith, compare_ranks_range [] ys)
compare_ranks_range (x ∷ xs) (y ∷ ys) = ground (arith, compare_ranks_range xs ys)
