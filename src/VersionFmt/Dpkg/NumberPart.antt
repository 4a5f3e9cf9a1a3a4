-- ===== src/VersionFmt/Dpkg/NumberPart.antt =====
-- The meaning of a number, and the loop of verrevcmp over zeros.
use clair.GoLib.{is_digit}
use clair.VersionFmt.Ranks.{compare_ranks}
use clair.VersionFmt.Dpkg.Key.{in_number, key}
use clair.VersionFmt.Dpkg.Verrevcmp.{skip_zeros, starts_digit, starts_text}
use clair.VersionFmt.Dpkg.TextPart.{text_key}
use clair.Prelude.{
  ℕ, ◌+◌, ◌-◌, ◌*◌, ◌≤◌, ◌<◌, Bool, true, false, not, List, [], ◌∷◌, Bytes, length, ◌==◌, pos, ◌≡◌,
  refl, arith, ◌∙◌, ap, Bool-cases, ==_iff, inl, inr,
}

-- The value of a number, and the meaning of what follows it.
unfoldable pub number_key : ℕ → Bytes → List ℕ
unfolding key
number_key n = key (in_number n)

pub number_key-digit :
    (n c : ℕ) (s : Bytes)
    → is_digit c ≡ true
    → number_key n (c ∷ s) ≡ number_key (n * 10 + (c - 48)) s
unfolding number_key
number_key-digit n c s p = rw p

pub number_key-other :
    (n : ℕ) (a : Bytes) → starts_digit a ≡ false → number_key n a ≡ (n + 1) ∷ text_key a
unfolding number_key
number_key-other n [] p = refl
number_key-other n (c ∷ s) p = rw p

-- A text that starts with a digit is a text part of no symbols, and a number.
text_key-digit_start :
    (c : ℕ) (s : Bytes) → not (is_digit c) ≡ false → text_key (c ∷ s) ≡ 1 ∷ number_key 0 (c ∷ s)
unfolding number_key
text_key-digit_start c s p = elim (Bool-cases (is_digit c)) [
  | inl e ↦ rw e (ap (λ (n : ℕ). 1 ∷ key (in_number n) s) (omega arith))
  | inr e ↦ absurd (ground arith)
]

pad_left : (xs : List ℕ) → compare_ranks [] xs ≡ compare_ranks (1 ∷ []) xs
unfolding compare_ranks
pad_left [] = refl
pad_left (x ∷ xs) = refl

pad_right : (xs : List ℕ) → compare_ranks xs [] ≡ compare_ranks xs (1 ∷ [])
unfolding compare_ranks
pad_right [] = refl
pad_right (x ∷ xs) = refl

-- A text that starts with no symbol compares as a number does.
pub text_key-number :
    (a b : Bytes)
    → starts_text a ≡ false
    → starts_text b ≡ false
    → compare_ranks (text_key a) (text_key b) ≡ compare_ranks (number_key 0 a) (number_key 0 b)
unfolding number_key compare_ranks
text_key-number [] [] p q = refl
text_key-number (c ∷ s) [] p q = rw (text_key-digit_start c s p) (pad_right (number_key 0 (c ∷ s)))
text_key-number [] (d ∷ t) p q = rw (text_key-digit_start d t q) (pad_left (number_key 0 (d ∷ t)))
text_key-number (c ∷ s) (d ∷ t) p q = rw (text_key-digit_start c s p, text_key-digit_start d t q)

pub skip_zeros-number_key : (a : Bytes) → number_key 0 (skip_zeros a) ≡ number_key 0 a
unfolding skip_zeros is_digit
skip_zeros-number_key [] = refl
skip_zeros-number_key (c ∷ s) = elim (Bool-cases (c == b'0')) [
  | inl e ↦ rw e (skip_zeros-number_key s ∙ rw ((==_iff c b'0').0 e) (unfold number_key in refl))
  | inr e ↦ rw e
]

pub length-skip_zeros : (a : Bytes) → length (skip_zeros a) ≤ length a
unfolding skip_zeros
length-skip_zeros [] = omega arith
length-skip_zeros (c ∷ s) = ground (arith, length-skip_zeros s)

abbrev pub starts_zero : Bytes → Bool
starts_zero [] = false
starts_zero (c ∷ s) = c == b'0'

pub starts_zero-skip_zeros : (a : Bytes) → starts_zero (skip_zeros a) ≡ false
unfolding skip_zeros
starts_zero-skip_zeros [] = refl
starts_zero-skip_zeros (c ∷ s) = ground (arith, starts_zero-skip_zeros s)

-- A number that goes on has a value that is no smaller.
pub number_key-above :
    (n q : ℕ) (a : Bytes) (ys : List ℕ)
    → q < n
    → compare_ranks (number_key n a) ((q + 1) ∷ ys) ≡ pos 1
unfolding number_key compare_ranks
number_key-above n q [] ys h = ground arith
number_key-above n q (c ∷ s) ys h = ground (arith, number_key-above (n * 10 + (c - 48)) q s ys)
