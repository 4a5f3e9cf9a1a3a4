-- ===== src/VersionFmt/Dpkg/TextPart.antt =====
-- The loop of verrevcmp over what is no digit, and the meanings of text parts.
use clair.GoLib.{is_digit, is_letter}
use clair.VersionFmt.Ranks.{compare_ranks, compare_rank}
use clair.VersionFmt.Dpkg.Key.{rank, in_text, in_number, key}
use clair.VersionFmt.Dpkg.Verrevcmp.{
  order, Text, differ, rest, skip_text, signum, starts_text, compare_first,
}
use clair.Prelude.{
  ℕ, suc, ◌+◌, ◌-◌, ◌≤◌, Bool, true, false, List, [], ◌∷◌, Bytes, length, if◌then◌else◌, ℤ, pos,
  ◌-ℤ◌, eqb_ℤ, pos_part, neg_part, ◌≡◌, ◌≢◌, refl, arith, ◌∙◌, sym, ap, Bool-cases, inl, inr,
}

abbrev pub text_key : Bytes → List ℕ
text_key = key in_text

-- The order of a symbol is one below its rank.
order-rank : (c : ℕ) → is_digit c ≡ false → suc (pos_part (order c)) ≡ rank c + neg_part (order c)
unfolding order rank
order-rank c h = ground arith

order-digit : (c : ℕ) → is_digit c ≡ true → order c ≡ pos 0
unfolding order
order-digit c h = ground arith

rank-ne-one : (c : ℕ) → rank c ≢ 1
unfolding rank is_letter
rank-ne-one c h = ground arith

-- Comparing orders is comparing ranks, with the same rest behind equal ones.
order_difference :
    (x y : ℤ) (m n : ℕ) (again : ℤ)
    → suc (pos_part x) ≡ m + neg_part x
    → suc (pos_part y) ≡ n + neg_part y
    → (if eqb_ℤ x y then again else signum (x -ℤ y)) ≡ compare_rank m n again
unfolding signum
order_difference x y m n again h k = ground arith

-- What the comparison returns if it goes on as the meanings say.
abbrev pub outcome : Text → ℤ
outcome (differ d) = signum d
outcome (rest a b) = compare_ranks (text_key a) (text_key b)

outcome_choose :
    (x y : ℤ) (m n : ℕ) (again : Text)
    → suc (pos_part x) ≡ m + neg_part x
    → suc (pos_part y) ≡ n + neg_part y
    → outcome (if eqb_ℤ x y then again else differ (x -ℤ y)) ≡ compare_rank m n (outcome again)
outcome_choose x y m n again h k = elim (Bool-cases (eqb_ℤ x y)) [
  | inl e ↦ rw e (rw e at (order_difference x y m n (outcome again) h k))
  | inr e ↦ rw e (rw e at (order_difference x y m n (outcome again) h k))
]

compare_rank_ne : (m n : ℕ) (a b : ℤ) → m ≢ n → compare_rank m n a ≡ compare_rank m n b
compare_rank_ne m n a b h = ground arith

text_key-nil : text_key [] ≡ []
unfolding key
text_key-nil = refl

text_key-digit :
    (c : ℕ) (s : Bytes) → is_digit c ≡ true → text_key (c ∷ s) ≡ 1 ∷ key (in_number (c - 48)) s
unfolding key
text_key-digit c s p = rw p

text_key-text : (c : ℕ) (s : Bytes) → is_digit c ≡ false → text_key (c ∷ s) ≡ rank c ∷ text_key s
unfolding key
text_key-text c s p = rw p

outcome-both :
    (c d : ℕ) (s t : Bytes) (again : Text)
    → outcome again ≡ compare_ranks (text_key s) (text_key t)
    → outcome (compare_first (c ∷ s) (d ∷ t) again)
      ≡ compare_ranks (text_key (c ∷ s)) (text_key (d ∷ t))
outcome-both c d s t again h = split (is_digit c) (is_digit d) refl refl
  where
    split :
        (x y : Bool)
        → is_digit c ≡ x
        → is_digit d ≡ y
        → outcome (compare_first (c ∷ s) (d ∷ t) again)
          ≡ compare_ranks (text_key (c ∷ s)) (text_key (d ∷ t))
    split true true p q = rw (p, q)
    split true false p q =
        rw (p, q, text_key-digit c s p, text_key-text d t q)
          (outcome_choose (order c) (order d) 1 (rank d) again (rw (order-digit c p))
              (order-rank d q)
            ∙ unfold compare_ranks in compare_rank_ne 1 (rank d) _ _ (λ e. rank-ne-one d (sym e)))
    split false true p q =
        rw (p, text_key-text c s p, text_key-digit d t q)
          (outcome_choose (order c) (order d) (rank c) 1 again (order-rank c p)
              (rw (order-digit d q))
            ∙ unfold compare_ranks in compare_rank_ne (rank c) 1 _ _ (rank-ne-one c))
    split false false p q =
        rw (p, text_key-text c s p, text_key-text d t q)
          (outcome_choose (order c) (order d) (rank c) (rank d) again (order-rank c p)
              (order-rank d q)
            ∙ unfold compare_ranks in ap (compare_rank (rank c) (rank d)) h)

outcome-left :
    (c : ℕ) (s : Bytes) (again : Text)
    → outcome (compare_first (c ∷ s) [] again) ≡ compare_ranks (text_key (c ∷ s)) (text_key [])
outcome-left c s again = split (is_digit c) refl
  where
    split :
        (x : Bool)
        → is_digit c ≡ x
        → outcome (compare_first (c ∷ s) [] again) ≡ compare_ranks (text_key (c ∷ s)) (text_key [])
    split true p = rw p
    split false p =
        rw (p, text_key-text c s p, text_key-nil)
          (outcome_choose (order c) (pos 0) (rank c) 1 again (order-rank c p) refl
            ∙ unfold compare_ranks in compare_rank_ne (rank c) 1 _ _ (rank-ne-one c))

outcome-right :
    (d : ℕ) (t : Bytes) (again : Text)
    → outcome (compare_first [] (d ∷ t) again) ≡ compare_ranks (text_key []) (text_key (d ∷ t))
outcome-right d t again = split (is_digit d) refl
  where
    split :
        (x : Bool)
        → is_digit d ≡ x
        → outcome (compare_first [] (d ∷ t) again) ≡ compare_ranks (text_key []) (text_key (d ∷ t))
    split true p = rw p
    split false p =
        rw (p, text_key-text d t p, text_key-nil)
          (outcome_choose (pos 0) (order d) 1 (rank d) again refl (order-rank d p)
            ∙ unfold compare_ranks in compare_rank_ne 1 (rank d) _ _ (λ e. rank-ne-one d (sym e)))

-- The loop over text decides the comparison, or leaves two texts that compare alike.
pub outcome-skip_text :
    (a b : Bytes) → outcome (skip_text a b) ≡ compare_ranks (text_key a) (text_key b)
unfolding skip_text
outcome-skip_text [] [] = refl
outcome-skip_text (c ∷ s) [] = outcome-left c s (skip_text s [])
outcome-skip_text [] (d ∷ t) = outcome-right d t (skip_text [] t)
outcome-skip_text (c ∷ s) (d ∷ t) = outcome-both c d s t (skip_text s t) (outcome-skip_text s t)

-- What the loop over text leaves is no longer than what it was given, and starts with no text.
abbrev pub Stopped : Bytes → Bytes → Text → Type 0
Stopped a b (differ d) = Unit
Stopped a b (rest a' b') =
    (starts_text a' ≡ false)
    × (starts_text b' ≡ false)
    × (length a' + length b' ≤ length a + length b)

Stopped-compare_first :
    (a b a' b' : Bytes) (again : Text)
    → length a' + length b' ≤ length a + length b
    → Stopped a' b' again
    → Stopped a b (compare_first a b again)
Stopped-compare_first a b a' b' (differ d) l h = ground arith
Stopped-compare_first a b a' b' (rest x y) l h = ground arith

pub skip_text-Stopped : (a b : Bytes) → Stopped a b (skip_text a b)
unfolding skip_text
skip_text-Stopped [] [] = ground arith
skip_text-Stopped (c ∷ s) [] =
    Stopped-compare_first (c ∷ s) [] s [] (skip_text s []) (omega arith) (skip_text-Stopped s [])
skip_text-Stopped [] (d ∷ t) =
    Stopped-compare_first [] (d ∷ t) [] t (skip_text [] t) (omega arith) (skip_text-Stopped [] t)
skip_text-Stopped (c ∷ s) (d ∷ t) =
    Stopped-compare_first (c ∷ s) (d ∷ t) s t (skip_text s t) (omega arith) (skip_text-Stopped s t)
