-- ===== src/VersionFmt/Rpm/Numbers.antt =====
-- The comparison of two numbers in rpmvercmp, by their lengths and then as texts, and their values.
use clair.GoLib.{is_digit}
use clair.VersionFmt.Orders.{compare_ℕ}
use clair.VersionFmt.Rpm.Rpmvercmp.{trim_zeros, compare_text, compare_numbers}
use clair.VersionFmt.Rpm.Key.{value}
use clair.Prelude.{
  ℕ, ◌+◌, ◌-◌, ◌*◌, ◌≤◌, ◌<◌, Bool, true, false, [], ◌∷◌, Bytes, All, length, ltb, ◌==◌, ==_iff,
  if◌then◌else◌, ◌≡◌, refl, inl, inr, arith, Bool-cases, ℤ, pos, negsuc, ◌∙◌,
}

abbrev pub AllDigits : Bytes → Type 0
AllDigits a = All (λ c. is_digit c ≡ true) a

pub value-trim_zeros : (a : Bytes) → value 0 (trim_zeros a) ≡ value 0 a
unfolding trim_zeros
value-trim_zeros [] = refl
value-trim_zeros (c ∷ s) = elim (Bool-cases (c == b'0')) [
  | inl e ↦ rw e (value-trim_zeros s ∙ rw ((==_iff c b'0').0 e) (unfold value in refl))
  | inr e ↦ rw e
]

pub trim_zeros-AllDigits : (a : Bytes) → AllDigits a → AllDigits (trim_zeros a)
unfolding trim_zeros
trim_zeros-AllDigits [] h = tt
trim_zeros-AllDigits (c ∷ s) h = elim (Bool-cases (c == b'0')) [
  | inl e ↦ rw e (trim_zeros-AllDigits s h.1)
  | inr e ↦ rw e h
]

abbrev pub starts_zero : Bytes → Bool
starts_zero [] = false
starts_zero (c ∷ s) = c == b'0'

pub starts_zero-trim_zeros : (a : Bytes) → starts_zero (trim_zeros a) ≡ false
unfolding trim_zeros
starts_zero-trim_zeros [] = refl
starts_zero-trim_zeros (c ∷ s) = ground (arith, starts_zero-trim_zeros s)

value-ge : (n : ℕ) (a : Bytes) → n ≤ value n a
unfolding value
value-ge n [] = omega arith
value-ge n (c ∷ s) = omega (arith, value-ge (n * 10 + (c - 48)) s)

-- Values of as many digits lie between `unit` and ten times it.
abbrev Balanced : ℕ → ℕ → ℕ → Type 0
Balanced unit p q = (unit ≤ p) × (p < 10 * unit) × (unit ≤ q) × (q < 10 * unit)

abbrev grown : ℕ → ℕ → ℕ
grown p c = p * 10 + (c - 48)

Balanced-next :
    (unit p q c d : ℕ)
    → is_digit c ≡ true
    → is_digit d ≡ true
    → Balanced unit p q
    → Balanced (10 * unit) (grown p c) (grown q d)
unfolding is_digit
Balanced-next unit p q c d x y h = ground arith

-- The comparison of two numbers behind prefixes with the values p and q.
compare_behind : ℕ → ℕ → Bytes → Bytes → ℤ
compare_behind p q a b =
    if ltb (length b) (length a)
    then pos 1
    else if ltb (length a) (length b)
    then negsuc 0
    else if ltb p q
    then negsuc 0
    else if ltb q p
    then pos 1
    else compare_text a b

compare_behind-next :
    (p q c d : ℕ) (s t : Bytes)
    → is_digit c ≡ true
    → is_digit d ≡ true
    → compare_behind p q (c ∷ s) (d ∷ t) ≡ compare_behind (grown p c) (grown q d) s t
unfolding compare_behind compare_text is_digit
compare_behind-next p q c d s t x y = ground arith

compare_behind-value :
    (a b : Bytes) (unit p q : ℕ)
    → AllDigits a
    → AllDigits b
    → Balanced unit p q
    → compare_behind p q a b ≡ compare_ℕ (value p a) (value q b)
compare_behind-value [] [] unit p q x y k = unfold compare_behind compare_text value in ground arith
compare_behind-value [] (d ∷ t) unit p q x y k =
    unfold compare_behind value in ground (arith, value-ge (grown q d) t)
compare_behind-value (c ∷ s) [] unit p q x y k =
    unfold compare_behind value in ground (arith, value-ge (grown p c) s)
compare_behind-value (c ∷ s) (d ∷ t) unit p q x y k =
    compare_behind-next p q c d s t x.0 y.0
    ∙ compare_behind-value s t (10 * unit) (grown p c) (grown q d) x.1 y.1
        (Balanced-next unit p q c d x.0 y.0 k)
    ∙ unfold value in refl

compare_numbers-behind :
    (c d : ℕ) (s t : Bytes)
    → is_digit c ≡ true
    → is_digit d ≡ true
    → compare_numbers (c ∷ s) (d ∷ t) ≡ compare_behind (grown 0 c) (grown 0 d) s t
unfolding compare_numbers compare_behind compare_text is_digit
compare_numbers-behind c d s t x y = ground arith

Balanced-first :
    (c d : ℕ)
    → is_digit c ≡ true
    → is_digit d ≡ true
    → (c == b'0') ≡ false
    → (d == b'0') ≡ false
    → Balanced 1 (grown 0 c) (grown 0 d)
unfolding is_digit
Balanced-first c d x y h k = ground arith

-- For digits with no zero in front, the comparison by length and then as texts is that of the values.
pub compare_numbers-value :
    (a b : Bytes)
    → AllDigits a
    → AllDigits b
    → starts_zero a ≡ false
    → starts_zero b ≡ false
    → compare_numbers a b ≡ compare_ℕ (value 0 a) (value 0 b)
compare_numbers-value [] [] x y h k = unfold compare_numbers compare_text value in refl
compare_numbers-value [] (d ∷ t) x y h k =
    unfold compare_numbers value is_digit in ground (arith, value-ge (grown 0 d) t, x, y)
compare_numbers-value (c ∷ s) [] x y h k =
    unfold compare_numbers value is_digit in ground (arith, value-ge (grown 0 c) s, x, y)
compare_numbers-value (c ∷ s) (d ∷ t) x y h k =
    compare_numbers-behind c d s t x.0 y.0
    ∙ compare_behind-value s t 1 (grown 0 c) (grown 0 d) x.1 y.1 (Balanced-first c d x.0 y.0 h k)
    ∙ unfold value in refl
