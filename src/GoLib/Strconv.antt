-- ===== src/GoLib/Strconv.antt =====
-- strconv.Atoi and Itoa on a machine where an int has 64 bits.
use mathlib.Core.Option
use clair.GoLib.Unicode.{is_digit}
use clair.Prelude.{
  ℕ, zero, suc, ◌+◌, ◌-◌, ◌*◌, ◌/◌, ◌%◌, ◌^◌, Option, none, some, [], ◌∷◌, Bytes, ltb, leb, ◌==◌,
  if◌then◌else◌, ℤ, pos, negsuc, neg,
}

unfoldable pub read_digits : ℕ → Bytes → Option ℕ
unfolding is_digit
read_digits n [] = some n
read_digits n (c ∷ s) = if is_digit c then read_digits (n * 10 + (c - 48)) s else none

-- An empty text is no number, and neither is one above the limit.
unfoldable pub read_number : ℕ → Bytes → Option ℕ
unfolding read_digits
read_number limit [] = none
read_number limit (c ∷ s) = elim (read_digits 0 (c ∷ s)) [
  | some n ↦ if leb n limit then some n else none
  | none ↦ none
]

unfoldable pub atoi : Bytes → Option ℤ
unfolding read_number
atoi [] = none
atoi (c ∷ s) =
    if c == b'-'
    then Option.map (λ n. neg (pos n)) (read_number (2 ^ 63) s)
    else if c == b'+'
    then Option.map pos (read_number (2 ^ 63 - 1) s)
    else Option.map pos (read_number (2 ^ 63 - 1) (c ∷ s))

-- The number that strconv.ParseUint returns beside its error: 0 at a byte that is no digit, and the
-- largest number of 64 bits as soon as it is passed.
unfoldable pub scan_uint : ℕ → Bytes → ℕ
unfolding is_digit
scan_uint n [] = n
scan_uint n (c ∷ s) =
    let next = n * 10 + (c - 48) in
    let rest = scan_uint next s in
    if is_digit c then (if leb next (2 ^ 64 - 1) then rest else 2 ^ 64 - 1) else 0

abbrev at_most : ℕ → ℕ → ℕ
at_most limit n = if leb n limit then n else limit

-- The integer that Atoi returns, beside an error or without one.
unfoldable pub atoi_value : Bytes → ℤ
unfolding scan_uint
atoi_value [] = pos 0
atoi_value (c ∷ s) =
    if c == b'-'
    then neg (pos (at_most (2 ^ 63) (scan_uint 0 s)))
    else if c == b'+'
    then pos (at_most (2 ^ 63 - 1) (scan_uint 0 s))
    else pos (at_most (2 ^ 63 - 1) (scan_uint 0 (c ∷ s)))

-- The digits of n in front of `rest`; n halves at least, so n + 1 rounds are enough.
unfoldable pub write_digits : ℕ → ℕ → Bytes → Bytes
write_digits zero n rest = rest
write_digits (suc f) n rest =
    let more = write_digits f (n / 10) ((48 + n % 10) ∷ rest) in
    if ltb n 10 then (48 + n) ∷ rest else more

unfoldable pub itoa : ℤ → Bytes
unfolding write_digits
itoa (pos n) = write_digits (suc n) n []
itoa (negsuc n) = b'-' ∷ write_digits (suc (suc n)) (suc n) []
