-- ===== src/Database/Severity.antt =====
-- database/severity.go: the scale of severities. A Severity is a string in the code.
pub mod Scale
pub mod Known
use clair.GoLib.{equal_fold}
use clair.Prelude.{
  ℕ, zero, suc, ◌+◌, Bytes, Bool, true, false, ◌||◌, Option, none, some, List, [], ◌∷◌, codes, any,
  bytes_eq, ◌===◌, if◌then◌else◌, ℤ, pos, ◌-ℤ◌, Outcome, ok, err,
}

abbrev pub Severity : Type 0
Severity = Bytes

abbrev pub unknown_severity : Severity
unknown_severity = codes "Unknown"

abbrev pub negligible_severity : Severity
negligible_severity = codes "Negligible"

abbrev pub low_severity : Severity
low_severity = codes "Low"

abbrev pub medium_severity : Severity
medium_severity = codes "Medium"

abbrev pub high_severity : Severity
high_severity = codes "High"

abbrev pub critical_severity : Severity
critical_severity = codes "Critical"

abbrev pub defcon1_severity : Severity
defcon1_severity = codes "Defcon1"

-- All known severities, from the lowest to the highest.
abbrev pub severities : List Severity
severities =
    unknown_severity ∷ negligible_severity ∷ low_severity ∷ medium_severity ∷ high_severity
    ∷ critical_severity ∷ defcon1_severity ∷ []

pub data ParseError : Type 0 where
  failed_to_parse_severity : ParseError

-- The loop of NewSeverity over the severities that are left.
unfoldable pub find_severity : Bytes → List Severity → Option Severity
find_severity s [] = none
find_severity s (ss ∷ rest) = if equal_fold s ss then some ss else find_severity s rest

-- NewSeverity returns the severity beside the error, so both come back.
unfoldable pub new_severity : Bytes → Severity × Option ParseError
new_severity s = elim (find_severity s severities) [
  | some ss ↦ (ss, none)
  | none ↦ (unknown_severity, some failed_to_parse_severity)
]

-- The loops of Compare: the first position of s, or the length of the list.
unfoldable pub position : Severity → List Severity → ℕ
position s [] = 0
position s (ss ∷ rest) = let later = position s rest in if s === ss then 0 else suc later

unfoldable pub compare : Severity → Severity → ℤ
unfolding position
compare s s2 = pos (position s severities) -ℤ pos (position s2 severities)

unfoldable pub valid : Severity → Bool
valid s = any (λ v. s === v) severities
