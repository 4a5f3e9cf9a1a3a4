-- ===== src/VulnSrc/Ubuntu/Affects.antt =====
-- The regular expression affectsCaptureRegexp of ext/vulnsrc/ubuntu/ubuntu.go,
-- `(?P<release>.*)_(?P<package>.*): (?P<status>[^\s]*)( \(+(?P<note>[^()]*)\)+)?`, on a line of a file.
use clair.GoLib.{trim_space, has_prefix, last_index}
use clair.Prelude.{
  ℕ, suc, ◌+◌, Bytes, Bool, not, ◌||◌, Option, none, some, [], ◌∷◌, codes, take, drop, ◌==◌,
  if◌then◌else◌,
}

-- What the named groups capture.
pub record Capture : Type 0 where
  pub release : Bytes
  pub package_name : Bytes
  pub status : Bytes
  pub note : Bytes

-- The last position of ": ", up to which the first two groups reach as far as they can.
unfoldable pub last_colon : Bytes → Option ℕ
unfolding has_prefix
last_colon [] = none
last_colon (c ∷ s) = elim (last_colon s) [
  | some i ↦ some (suc i)
  | none ↦ if has_prefix (c ∷ s) (codes ": ") then some 0 else none
]

-- The white space of `\s`.
abbrev is_space : ℕ → Bool
is_space c = c == 9 || c == 10 || c == 12 || c == 13 || c == 32

-- As many bytes as possible that pass, and what stands behind them.
unfoldable pub span : (ℕ → Bool) → Bytes → Bytes × Bytes
span p [] = ([], [])
span p (c ∷ s) = let rest = span p s in if p c then (c ∷ rest.0, rest.1) else ([], c ∷ s)

abbrev closed : Bytes → Bytes → Bytes
closed note [] = []
closed note (c ∷ s) = if c == b')' then note else []

abbrev in_parentheses : Bytes × Bytes → Bytes
in_parentheses x = closed x.0 x.1

-- The note is what stands between parentheses; "" where the last group matches nothing.
abbrev opened : Bytes → Bytes
opened [] = []
opened (c ∷ s) =
    if c == b'('
    then in_parentheses (span (λ d. not (d == b'(' || d == b')')) (span (λ d. d == b'(') s).1)
    else []

unfoldable pub note_of : Bytes → Bytes
unfolding span
note_of [] = []
note_of (c ∷ s) = if c == 32 then opened s else []

abbrev captured : Bytes → Bytes → Option ℕ → Option Capture
captured front behind none = none
captured front behind (some i) =
    let status = span (λ c. not (is_space c)) behind in
    some (record {
      release = trim_space (take i front);
      package_name = trim_space (drop (suc i) front);
      status = trim_space status.0;
      note = trim_space (note_of status.1);
    })

abbrev split_at : Bytes → Option ℕ → Option Capture
split_at line none = none
split_at line (some i) = captured (take i line) (drop (i + 2) line) (last_index (take i line) b'_')

unfoldable pub find_affects : Bytes → Option Capture
unfolding last_colon note_of
find_affects line = split_at line (last_colon line)
