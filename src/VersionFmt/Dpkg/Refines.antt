-- ===== src/VersionFmt/Dpkg/Refines.antt =====
-- verrevcmp of ext/versionfmt/dpkg/parser.go, and the meanings of the two texts.
use clair.GoLib.{is_digit}
use clair.VersionFmt.Ranks.{compare_ranks}
use clair.VersionFmt.Dpkg.Key.{in_text, key}
use clair.VersionFmt.Dpkg.Verrevcmp.{
  Text, differ, rest, skip_text, skip_zeros, Digits, skip_digits, after_digits, rounds, after_text,
  verrevcmp, signum, starts_digit, starts_text,
}
use mathlib.Core.Option
use clair.VersionFmt.Dpkg.TextPart.{
  text_key, outcome, outcome-skip_text, Stopped, skip_text-Stopped,
}
use clair.VersionFmt.Dpkg.NumberPart.{
  text_key-number, skip_zeros-number_key, length-skip_zeros, starts_zero-skip_zeros,
}
use clair.VersionFmt.Dpkg.DigitsPart.{
  finish, skip_digits_both, skip_digits_stop, skip_digits-finish_first,
}
use clair.Prelude.{
  ℕ, zero, suc, ◌+◌, ◌≤◌, ◌<◌, true, false, Option, some, [], ◌∷◌, Bytes, length, ◌==◌,
  if◌then◌else◌, ℤ, pos, ◌-ℤ◌, eqb_ℤ, ◌≡◌, refl, arith, ◌∙◌, sym, ap, ◌⊎◌, Bool-cases, inl, inr,
}

-- The loop over digits leaves no more than it was given.
length-skip_digits :
    (diff : ℤ) (a b : Bytes)
    → length (skip_digits diff a b).left + length (skip_digits diff a b).right ≤ length a + length b
unfolding skip_digits
length-skip_digits diff [] b = omega arith
length-skip_digits diff (c ∷ s) [] = omega arith
length-skip_digits diff (c ∷ s) (d ∷ t) =
    ground (arith, length-skip_digits (if eqb_ℤ diff (pos 0) then pos c -ℤ pos d else diff) s t)

-- The round ends the comparison, or what is left is shorter.
abbrev Progress : ℕ → Digits → Type 0
Progress size n =
    (starts_digit n.left ≡ true)
    ⊎ (starts_digit n.right ≡ true)
    ⊎ (length n.left + length n.right < size)

skip_digits-Progress_left :
    (diff : ℤ) (a b : Bytes)
    → starts_digit a ≡ true
    → Progress (length a + length b) (skip_digits diff a b)
skip_digits-Progress_left diff [] b h = cc
skip_digits-Progress_left diff (c ∷ s) [] h = unfold skip_digits in inl h
skip_digits-Progress_left diff (c ∷ s) (d ∷ t) h = elim (Bool-cases (is_digit d)) [
  | inl y ↦ rw (skip_digits_both diff c d s t h y) (
      inr (
        inr (
          omega
            (arith, length-skip_digits (if eqb_ℤ diff (pos 0) then pos c -ℤ pos d else diff) s t))))
  | inr y ↦ rw (skip_digits_stop diff c d s t (rw (h, y))) (inl h)
]

skip_digits-Progress_right :
    (diff : ℤ) (a b : Bytes)
    → starts_digit b ≡ true
    → Progress (length a + length b) (skip_digits diff a b)
skip_digits-Progress_right diff a [] h = cc
skip_digits-Progress_right diff [] (d ∷ t) h = unfold skip_digits in inr (inl h)
skip_digits-Progress_right diff (c ∷ s) (d ∷ t) h = elim (Bool-cases (is_digit c)) [
  | inl x ↦ rw (skip_digits_both diff c d s t x h) (
      inr (
        inr (
          omega
            (arith, length-skip_digits (if eqb_ℤ diff (pos 0) then pos c -ℤ pos d else diff) s t))))
  | inr x ↦ rw (skip_digits_stop diff c d s t (rw x)) (inr (inl h))
]

-- Only a text that starts with no zero keeps its length.
skip_zeros-shorter :
    (a : Bytes)
    → starts_text a ≡ false
    → (a ≡ []) ⊎ (starts_digit (skip_zeros a) ≡ true) ⊎ (length (skip_zeros a) < length a)
unfolding skip_zeros
skip_zeros-shorter [] h = inl refl
skip_zeros-shorter (c ∷ s) h = elim (Bool-cases (c == b'0')) [
  | inl e ↦ rw e (inr (inr (omega (arith, length-skip_zeros s))))
  | inr e ↦ rw e (inr (inl (ground arith)))
]

Progress-weaken : (m n : ℕ) (g : Digits) → m ≤ n → Progress m g → Progress n g
Progress-weaken m n g l (inl h) = inl h
Progress-weaken m n g l (inr (inl h)) = inr (inl h)
Progress-weaken m n g l (inr (inr h)) = inr (inr (omega arith))

abbrev digits_of : Bytes → Bytes → Digits
digits_of a b = skip_digits (pos 0) (skip_zeros a) (skip_zeros b)

digits_of-shorter :
    (a b : Bytes)
    → length (digits_of a b).left + length (digits_of a b).right
      ≤ length (skip_zeros a) + length (skip_zeros b)
digits_of-shorter a b = length-skip_digits (pos 0) (skip_zeros a) (skip_zeros b)

digits_of-Progress :
    (a b : Bytes) (size : ℕ)
    → 0 < size
    → length a + length b ≤ size
    → starts_text a ≡ false
    → starts_text b ≡ false
    → Progress size (digits_of a b)
digits_of-Progress a b size z l p q = elim (skip_zeros-shorter a p) [
  | inl x ↦ elim (skip_zeros-shorter b q) [
    | inl y ↦ inr (inr (rw (x, y) (unfold skip_zeros skip_digits in z)))
    | inr (inl y) ↦
        Progress-weaken (length (skip_zeros a) + length (skip_zeros b)) size (digits_of a b)
          (omega (arith, length-skip_zeros a, length-skip_zeros b))
          (skip_digits-Progress_right (pos 0) _ _ y)
    | inr (inr y) ↦ inr (inr (omega (arith, digits_of-shorter a b, length-skip_zeros a)))
  ]
  | inr (inl x) ↦
      Progress-weaken (length (skip_zeros a) + length (skip_zeros b)) size (digits_of a b)
        (omega (arith, length-skip_zeros a, length-skip_zeros b))
        (skip_digits-Progress_left (pos 0) _ _ x)
  | inr (inr x) ↦ inr (inr (omega (arith, digits_of-shorter a b, length-skip_zeros b)))
]

-- A round that is followed by rounds which compare as the meanings say compares so itself.
after_digits-finish :
    (n : Digits) (size : ℕ) (next : Option ℤ)
    → Progress size n
    → (length n.left + length n.right < size
        → Option.map signum next ≡ some (compare_ranks (text_key n.left) (text_key n.right)))
    → Option.map signum (after_digits n next) ≡ some (finish n)
after_digits-finish n size next p k = elim (Bool-cases (starts_digit n.left)) [
  | inl x ↦ rw x (unfold signum in refl)
  | inr x ↦ elim (Bool-cases (starts_digit n.right)) [
    | inl y ↦ rw (x, y) (unfold signum in refl)
    | inr y ↦ elim (Bool-cases (eqb_ℤ n.first_diff (pos 0))) [
      | inl z ↦ rw (x, y, z) (k (shorter p x y))
      | inr z ↦ rw (x, y, z)
    ]
  ]
]
  where
    shorter :
        Progress size n
        → starts_digit n.left ≡ false
        → starts_digit n.right ≡ false
        → length n.left + length n.right < size
    shorter (inl h) x y = absurd (cc)
    shorter (inr (inl h)) x y = absurd (cc)
    shorter (inr (inr h)) x y = h

finish-digits_of :
    (a b : Bytes)
    → starts_text a ≡ false
    → starts_text b ≡ false
    → finish (digits_of a b) ≡ compare_ranks (text_key a) (text_key b)
finish-digits_of a b p q =
    skip_digits-finish_first (skip_zeros a) (skip_zeros b) (starts_zero-skip_zeros a)
      (starts_zero-skip_zeros b)
    ∙ rw (skip_zeros-number_key a, skip_zeros-number_key b) (sym (text_key-number a b p q))

-- `Compares f` says that f rounds are enough for texts shorter than f, and compare as the meanings.
Compares : ℕ → Type 0
Compares f =
    (a b : Bytes)
    → length a + length b < f
    → Option.map signum (rounds f a b) ≡ some (compare_ranks (text_key a) (text_key b))

after_text-Compares :
    (f : ℕ) (a b : Bytes) (t : Text)
    → Compares f
    → 0 < length a + length b
    → length a + length b ≤ f
    → Stopped a b t
    → Option.map signum (after_text t (rounds f)) ≡ some (outcome t)
unfolding Compares after_text
after_text-Compares f a b (differ d) ih z l h = refl
after_text-Compares f a b (rest a' b') ih z l h =
    after_digits-finish (digits_of a' b') (length a + length b) _
      (digits_of-Progress a' b' (length a + length b) z h.2 h.0 h.1)
      (λ s. ih (digits_of a' b').left (digits_of a' b').right (omega arith))
    ∙ ap some (finish-digits_of a' b' h.0 h.1)

rounds-Compares : (f : ℕ) → Compares f
unfolding Compares rounds signum compare_ranks key
rounds-Compares zero a b l = absurd (omega arith)
rounds-Compares (suc f) [] [] l = refl
rounds-Compares (suc f) a b l =
    after_text-Compares f a b (skip_text a b) (rounds-Compares f) (omega arith) (omega arith)
      (skip_text-Stopped a b)
    ∙ ap some (outcome-skip_text a b)

-- For all texts the loops of verrevcmp end, and the sign of the result is the order of the two
-- meanings: symbols by their ranks, numbers by their values.
pub verrevcmp-key :
    (a b : Bytes)
    → Option.map signum (verrevcmp a b) ≡ some (compare_ranks (key in_text a) (key in_text b))
unfolding verrevcmp
verrevcmp-key a b = unfold Compares in rounds-Compares (suc (length a + length b)) a b (omega arith)
