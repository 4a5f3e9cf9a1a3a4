-- ===== src/VersionFmt/Driver.antt =====
-- ext/versionfmt/driver.go: the registry of version formats. The map `parsers` is an association list
-- by name; what the mutex parsersM makes atomic is one step here.
pub mod Registry
use clair.VersionFmt.Errors.{Parser, VersionError, unknown_version_format, invalid_version}
use clair.Prelude.{
  Bool, true, false, Option, none, some, List, [], ◌∷◌, Bytes, bytes_eq, is_empty, ◌===◌,
  if◌then◌else◌, ℤ, Outcome, ok, err, panic, hang, ◌>>=◌,
}

abbrev pub Parsers : Type 0
Parsers = List (Bytes × Parser)

unfoldable pub get_parser : Parsers → Bytes → Option Parser
get_parser [] name = none
get_parser ((n, p) ∷ ps) name = if n === name then some p else get_parser ps name

-- RegisterParser: a nil Parser is `none`; the result is the registry behind the call.
unfoldable pub register_parser : Parsers → Bytes → Option Parser → Outcome VersionError Parsers
register_parser parsers name none = panic
register_parser parsers name (some p) =
    if is_empty name
    then panic
    else elim (get_parser parsers name) [ some _ ↦ panic | none ↦ ok ((name, p) ∷ parsers) ]

-- Valid: `ok` is a nil error.
unfoldable pub valid : Parsers → Bytes → Bytes → Outcome VersionError Bool
valid parsers format version = elim (get_parser parsers format) [
  | none ↦ err unknown_version_format
  | some p ↦ do is_valid ← p.valid version; if is_valid then ok true else err invalid_version
]

unfoldable pub compare : Parsers → Bytes → Bytes → Bytes → Outcome VersionError ℤ
compare parsers format version_a version_b = elim (get_parser parsers format) [
  | none ↦ err unknown_version_format
  | some p ↦ p.compare version_a version_b
]

unfoldable pub in_range : Parsers → Bytes → Bytes → Bytes → Outcome VersionError Bool
in_range parsers format version version_range = elim (get_parser parsers format) [
  | none ↦ err unknown_version_format
  | some p ↦ p.in_range version version_range
]

unfoldable pub get_fixed_in : Parsers → Bytes → Bytes → Outcome VersionError Bytes
get_fixed_in parsers format range_a = elim (get_parser parsers format) [
  | none ↦ err unknown_version_format
  | some p ↦ p.get_fixed_in range_a
]
