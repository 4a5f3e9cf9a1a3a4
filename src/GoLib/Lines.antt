-- ===== src/GoLib/Lines.antt =====
-- bufio.Scanner at its default: the lines of a text without their ends. The scan stops without a word
-- at a line that does not fit in the buffer.
use clair.Prelude.{
  ℕ, ◌^◌, true, not, all, Bool-cases, inl, inr, ◌≡◌, refl, ap, ◌∙◌, arith, ◌++◌, Bytes, List, [],
  ◌∷◌, is_empty, length, ltb, ◌==◌, if◌then◌else◌,
}

-- bufio.MaxScanTokenSize
abbrev pub max_scan_token_size : ℕ
max_scan_token_size = 2 ^ 16

abbrev with_first : ℕ → List Bytes → List Bytes
with_first c [] = (c ∷ []) ∷ []
with_first c (l ∷ ls) = (c ∷ l) ∷ ls

unfoldable pub split_lines : Bytes → List Bytes
split_lines [] = []
split_lines (c ∷ s) = let rest = split_lines s in if c == 10 then [] ∷ rest else with_first c rest

-- A carriage return before the end of the line goes with it.
unfoldable pub drop_return : Bytes → Bytes
drop_return [] = []
drop_return (c ∷ s) =
    let rest = drop_return s in if is_empty s then (if c == 13 then [] else c ∷ []) else c ∷ rest

unfoldable pub fitting : List Bytes → List Bytes
unfolding drop_return
fitting [] = []
fitting (l ∷ ls) =
    let rest = fitting ls in if ltb (length l) max_scan_token_size then drop_return l ∷ rest else []

unfoldable pub scan_lines : Bytes → List Bytes
unfolding split_lines fitting
scan_lines s = fitting (split_lines s)

-- A line that Scan hands over as it is: no line feed in it, no carriage return at its end, and no
-- longer than the buffer.
abbrev pub IsLine : Bytes → Type 0
IsLine l =
    (all (λ c. not (c == 10)) l ≡ true)
    × (drop_return l ≡ l)
    × (ltb (length l) max_scan_token_size ≡ true)

split_lines-line :
    (l rest : Bytes)
    → all (λ c. not (c == 10)) l ≡ true
    → split_lines (l ++ 10 ∷ rest) ≡ l ∷ split_lines rest
unfolding split_lines
split_lines-line [] rest h = refl
split_lines-line (c ∷ l) rest h = elim (Bool-cases (c == 10)) [
  | inl x ↦ absurd (ground arith)
  | inr x ↦ rw x (ap (with_first c) (split_lines-line l rest (rw x at h)))
]

-- A line and its end are scanned off a text.
pub scan_lines-line :
    (l rest : Bytes) → IsLine l → scan_lines (l ++ 10 ∷ rest) ≡ l ∷ scan_lines rest
unfolding scan_lines fitting
scan_lines-line l rest (clean, kept, short) =
    ap fitting (split_lines-line l rest clean) ∙ rw (short, kept) refl
