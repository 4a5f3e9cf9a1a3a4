-- ===== src/GoLib/Decimal.antt =====
-- Atoi on what Itoa writes.
use clair.GoLib.Unicode.{is_digit}
use clair.GoLib.Strconv.{read_digits, read_number, atoi, write_digits, itoa}
use clair.Prelude.{
  ℕ, zero, suc, ◌+◌, ◌*◌, ◌/◌, ◌%◌, ◌<◌, ◌≤◌, ◌^◌, ◌-◌, some, [], ◌∷◌, Bytes, false, ltb, ◌==◌, pos,
  Bool-cases, inl, inr, ◌≡◌, refl, ◌∙◌, ap, sym, arith,
}

read_digits-step :
    (a d : ℕ) (s : Bytes) → d < 10 → read_digits a ((48 + d) ∷ s) ≡ read_digits (a * 10 + d) s
unfolding read_digits is_digit
read_digits-step a d s h = ground arith

read_digits-write_digits :
    (f n : ℕ) (rest : Bytes) → n < f → read_digits 0 (write_digits f n rest) ≡ read_digits n rest
unfolding write_digits
read_digits-write_digits zero n rest h = absurd (omega (arith, h))
read_digits-write_digits (suc f) n rest h = elim (Bool-cases (ltb n 10)) [
  | inl e ↦
      rw e (read_digits-step 0 n rest (ground arith) ∙ ap (λ k. read_digits k rest) (omega arith))
  | inr e ↦
      let more : 10 ≤ n = ground arith in
      rw e (
        read_digits-write_digits f (n / 10) ((48 + n % 10) ∷ rest) (omega (arith, h, more))
        ∙ read_digits-step (n / 10) (n % 10) rest (omega arith)
        ∙ ap (λ k. read_digits k rest) (omega arith))
]

-- A number is written as digits.
write_digits-first :
    (f n : ℕ) (rest : Bytes)
    → n < f
    → (c : ℕ) × (s : Bytes) × (write_digits f n rest ≡ c ∷ s) × (48 ≤ c)
unfolding write_digits
write_digits-first zero n rest h = absurd (omega (arith, h))
write_digits-first (suc f) n rest h = elim (Bool-cases (ltb n 10)) [
  | inl e ↦ (48 + n, rest, rw e refl, omega arith)
  | inr e ↦
      let more : 10 ≤ n = ground arith in
      let (c, s, x, y) =
        write_digits-first f (n / 10) ((48 + n % 10) ∷ rest) (omega (arith, h, more)) in
      (c, s, rw e x, y)
]

read_number-digits :
    (limit n c : ℕ) (s : Bytes)
    → read_digits 0 (c ∷ s) ≡ some n
    → n ≤ limit
    → read_number limit (c ∷ s) ≡ some n
unfolding read_number
read_number-digits limit n c s e h = ground arith

atoi-digits :
    (n c : ℕ) (s : Bytes)
    → read_digits 0 (c ∷ s) ≡ some n
    → 48 ≤ c
    → n < 2 ^ 63
    → atoi (c ∷ s) ≡ some (pos n)
unfolding atoi
atoi-digits n c s e y h =
    let minus : (c == b'-') ≡ false = ground arith in
    let plus : (c == b'+') ≡ false = ground arith in
    rw (minus, plus, read_number-digits (2 ^ 63 - 1) n c s e (omega (arith, h))) refl

read_digits-empty : (n : ℕ) → read_digits n [] ≡ some n
unfolding read_digits
read_digits-empty n = refl

-- Atoi reads back what Itoa writes of a number that an int holds.
pub atoi-itoa : (n : ℕ) → n < 2 ^ 63 → atoi (itoa (pos n)) ≡ some (pos n)
unfolding itoa
atoi-itoa n h =
    let (c, s, x, y) = write_digits-first (suc n) n [] (omega arith) in
    let digits : read_digits 0 (c ∷ s) ≡ some n =
      ap (read_digits 0) (sym x)
      ∙ read_digits-write_digits (suc n) n [] (omega arith)
      ∙ read_digits-empty n in
    ap atoi x ∙ atoi-digits n c s digits y h
