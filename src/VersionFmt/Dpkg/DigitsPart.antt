-- ===== src/VersionFmt/Dpkg/DigitsPart.antt =====
-- The loop of verrevcmp over digits, and the values of numbers.
use clair.GoLib.{is_digit}
use clair.VersionFmt.Ranks.{compare_ranks_swap, compare_ranks, compare_rank}
use clair.VersionFmt.Dpkg.Verrevcmp.{Digits, skip_digits, signum, starts_digit}
use clair.VersionFmt.Dpkg.TextPart.{text_key}
use clair.Prelude.{
  ℕ, ◌+◌, ◌-◌, ◌*◌, ◌≤◌, ◌<◌, true, false, ◌&&◌, [], ◌∷◌, Bytes, ◌==◌, if◌then◌else◌, ℤ, pos,
  negsuc, neg, ◌-ℤ◌, eqb_ℤ, ◌≡◌, refl, arith, ◌∙◌, sym, ap, Bool-cases, inl, inr,
}
use clair.VersionFmt.Dpkg.NumberPart.{
  number_key, number_key-digit, number_key-other, number_key-above, starts_zero,
}

-- The first difference decides between numbers with as many digits.
abbrev Tracks : ℤ → ℕ → ℕ → Type 0
Tracks diff p q = signum diff ≡ compare_rank p q (pos 0)

Tracks-next :
    (diff : ℤ) (p q c d : ℕ)
    → is_digit c ≡ true
    → is_digit d ≡ true
    → Tracks diff p q
    → Tracks
        (if eqb_ℤ diff (pos 0) then pos c -ℤ pos d else diff)
        (p * 10 + (c - 48))
        (q * 10 + (d - 48))
unfolding signum is_digit
Tracks-next diff p q c d hc hd h = ground arith

-- Numbers with as many digits so far: the values lie between `unit` and ten times it.
abbrev Balanced : ℕ → ℕ → ℕ → Type 0
Balanced unit p q = (unit ≤ p) × (p < 10 * unit) × (unit ≤ q) × (q < 10 * unit)

Balanced-next :
    (unit p q c d : ℕ)
    → is_digit c ≡ true
    → is_digit d ≡ true
    → Balanced unit p q
    → Balanced (10 * unit) (p * 10 + (c - 48)) (q * 10 + (d - 48))
unfolding is_digit
Balanced-next unit p q c d x y h = ground arith

-- What a round returns, if the next one compares what is left as the meanings say.
abbrev pub finish : Digits → ℤ
finish n =
    if starts_digit n.left
    then pos 1
    else if starts_digit n.right
    then negsuc 0
    else if eqb_ℤ n.first_diff (pos 0)
    then compare_ranks (text_key n.left) (text_key n.right)
    else signum n.first_diff

finish_diff :
    (diff : ℤ) (p q : ℕ) (again : ℤ)
    → Tracks diff p q
    → (if eqb_ℤ diff (pos 0) then again else signum diff) ≡ compare_rank (p + 1) (q + 1) again
unfolding signum
finish_diff diff p q again h = ground arith

module _ (diff : ℤ) (p q : ℕ) where
  abbrev finish_at : Bytes → Bytes → ℤ
  finish_at a b = finish (record { first_diff = diff; left = a; right = b })

  abbrev meant : Bytes → Bytes → ℤ
  meant a b = compare_ranks (number_key p a) (number_key q b)

  finish-both :
      (a b : Bytes)
      → Tracks diff p q
      → starts_digit a ≡ false
      → starts_digit b ≡ false
      → finish_at a b ≡ meant a b
  finish-both a b h x y =
      rw (x, y, number_key-other p a x, number_key-other q b y)
        (unfold compare_ranks in finish_diff diff p q _ h)

  finish-left :
      (c : ℕ) (s b : Bytes)
      → q < p * 10 + (c - 48)
      → is_digit c ≡ true
      → starts_digit b ≡ false
      → finish_at (c ∷ s) b ≡ meant (c ∷ s) b
  finish-left c s b h x y =
      rw (x, number_key-digit p c s x, number_key-other q b y) (sym (number_key-above _ q s _ h))

  finish-right :
      (d : ℕ) (a t : Bytes)
      → p < q * 10 + (d - 48)
      → starts_digit a ≡ false
      → is_digit d ≡ true
      → finish_at a (d ∷ t) ≡ meant a (d ∷ t)
  finish-right d a t h x y =
      rw (x, y, number_key-digit q d t y, number_key-other p a x)
        (sym (compare_ranks_swap _ _ ∙ ap neg (number_key-above _ p t _ h)))

-- One round of the loop over digits.
pub skip_digits_both :
    (diff : ℤ) (c d : ℕ) (s t : Bytes)
    → is_digit c ≡ true
    → is_digit d ≡ true
    → skip_digits diff (c ∷ s) (d ∷ t)
      ≡ skip_digits (if eqb_ℤ diff (pos 0) then pos c -ℤ pos d else diff) s t
unfolding skip_digits
skip_digits_both diff c d s t x y = rw (x, y)

pub skip_digits_stop :
    (diff : ℤ) (c d : ℕ) (s t : Bytes)
    → is_digit c && is_digit d ≡ false
    → skip_digits diff (c ∷ s) (d ∷ t) ≡ record { first_diff = diff; left = c ∷ s; right = d ∷ t }
unfolding skip_digits
skip_digits_stop diff c d s t x = rw x

-- The digits decide as the values do, whichever number ends first.
pub skip_digits-finish :
    (a b : Bytes) (diff : ℤ) (unit p q : ℕ)
    → Tracks diff p q
    → Balanced unit p q
    → finish (skip_digits diff a b) ≡ compare_ranks (number_key p a) (number_key q b)
skip_digits-finish [] [] diff unit p q h k =
    unfold skip_digits in finish-both diff p q [] [] h refl refl
skip_digits-finish [] (d ∷ t) diff unit p q h k =
    unfold skip_digits in
    elim (Bool-cases (is_digit d)) [
      | inl y ↦ finish-right diff p q d [] t (omega arith) refl y
      | inr y ↦ finish-both diff p q [] (d ∷ t) h refl y
    ]
skip_digits-finish (c ∷ s) [] diff unit p q h k =
    unfold skip_digits in
    elim (Bool-cases (is_digit c)) [
      | inl x ↦ finish-left diff p q c s [] (omega arith) x refl
      | inr x ↦ finish-both diff p q (c ∷ s) [] h x refl
    ]
skip_digits-finish (c ∷ s) (d ∷ t) diff unit p q h k = elim (Bool-cases (is_digit c)) [
  | inl x ↦ elim (Bool-cases (is_digit d)) [
    | inl y ↦
        rw (skip_digits_both diff c d s t x y, number_key-digit p c s x, number_key-digit q d t y)
          (skip_digits-finish s t (if eqb_ℤ diff (pos 0) then pos c -ℤ pos d else diff) (10 * unit)
            (p * 10 + (c - 48)) (q * 10 + (d - 48)) (Tracks-next diff p q c d x y h)
            (Balanced-next unit p q c d x y k))
    | inr y ↦
        rw (skip_digits_stop diff c d s t (rw (x, y)))
          (finish-left diff p q c s (d ∷ t) (omega arith) x y)
  ]
  | inr x ↦ rw (skip_digits_stop diff c d s t (rw x)) (elim (Bool-cases (is_digit d)) [
    | inl y ↦ finish-right diff p q d (c ∷ s) t (omega arith) x y
    | inr y ↦ finish-both diff p q (c ∷ s) (d ∷ t) h x y
  ])
]

above_zero : (c : ℕ) → is_digit c ≡ true → (c == b'0') ≡ false → 0 < 0 * 10 + (c - 48)
unfolding is_digit
above_zero c x h = ground arith

Balanced-first :
    (c d : ℕ)
    → is_digit c ≡ true
    → is_digit d ≡ true
    → (c == b'0') ≡ false
    → (d == b'0') ≡ false
    → Balanced 1 (0 * 10 + (c - 48)) (0 * 10 + (d - 48))
unfolding is_digit
Balanced-first c d x y h k = ground arith

-- The first round, where no value is known: no number starts with a zero.
pub skip_digits-finish_first :
    (a b : Bytes)
    → starts_zero a ≡ false
    → starts_zero b ≡ false
    → finish (skip_digits (pos 0) a b) ≡ compare_ranks (number_key 0 a) (number_key 0 b)
skip_digits-finish_first [] [] h k =
    unfold skip_digits in finish-both (pos 0) 0 0 [] [] (unfold signum in refl) refl refl
skip_digits-finish_first [] (d ∷ t) h k =
    unfold skip_digits in
    elim (Bool-cases (is_digit d)) [
      | inl y ↦ finish-right (pos 0) 0 0 d [] t (above_zero d y k) refl y
      | inr y ↦ finish-both (pos 0) 0 0 [] (d ∷ t) (unfold signum in refl) refl y
    ]
skip_digits-finish_first (c ∷ s) [] h k =
    unfold skip_digits in
    elim (Bool-cases (is_digit c)) [
      | inl x ↦ finish-left (pos 0) 0 0 c s [] (above_zero c x h) x refl
      | inr x ↦ finish-both (pos 0) 0 0 (c ∷ s) [] (unfold signum in refl) x refl
    ]
skip_digits-finish_first (c ∷ s) (d ∷ t) h k = elim (Bool-cases (is_digit c)) [
  | inl x ↦ elim (Bool-cases (is_digit d)) [
    | inl y ↦
        rw
          (skip_digits_both (pos 0) c d s t x y, number_key-digit 0 c s x, number_key-digit 0 d t y)
          (skip_digits-finish s t (if eqb_ℤ (pos 0) (pos 0) then pos c -ℤ pos d else pos 0) 1
            (0 * 10 + (c - 48)) (0 * 10 + (d - 48))
            (Tracks-next (pos 0) 0 0 c d x y (unfold signum in refl)) (Balanced-first c d x y h k))
    | inr y ↦
        rw (skip_digits_stop (pos 0) c d s t (rw (x, y)))
          (finish-left (pos 0) 0 0 c s (d ∷ t) (above_zero c x h) x y)
  ]
  | inr x ↦ rw (skip_digits_stop (pos 0) c d s t (rw x)) (elim (Bool-cases (is_digit d)) [
    | inl y ↦ finish-right (pos 0) 0 0 d (c ∷ s) t (above_zero d y k) x y
    | inr y ↦ finish-both (pos 0) 0 0 (c ∷ s) (d ∷ t) (unfold signum in refl) x y
  ])
]
