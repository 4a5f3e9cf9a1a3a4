-- ===== src/FeatureNs/AlpineRelease.antt =====
-- ext/featurens/alpinerelease/alpinerelease.go.
use clair.GoLib.{is_digit, split, scan_lines}
use clair.Database.{Namespace}
use clair.VersionFmt.Dpkg
use clair.FeatureFmt.{FilesMap}
use clair.Prelude.{
  Bytes, bytes_eq, Bool, not, ◌&&◌, Option, none, some, List, [], ◌∷◌, ◌++◌, all, codes, get,
  is_empty, if◌then◌else◌,
}

abbrev pub alpine_release_path : Bytes
alpine_release_path = codes "etc/alpine-release"

abbrev pub required_filenames : List Bytes
required_filenames = alpine_release_path ∷ []

-- `(\d)+`
abbrev pub is_number : Bytes → Bool
is_number part = not (is_empty part) && all is_digit part

abbrev pub namespace_of : Bytes → Bytes → Namespace
namespace_of major minor = record {
  name = codes "alpine" ++ b':' ∷ b'v' ∷ major ++ b'.' ∷ minor;
  version_format = Dpkg.parser_name;
}

-- The regular expression `^(\d)+\.(\d)+\.(\d)+$` on the parts of a line between its dots.
unfoldable pub match_version : List Bytes → Option Namespace
match_version (major ∷ minor ∷ patch ∷ []) =
    if is_number major && is_number minor && is_number patch
    then some (namespace_of major minor)
    else none
match_version (major ∷ minor ∷ patch ∷ more ∷ parts) = none
match_version (major ∷ minor ∷ []) = none
match_version (major ∷ []) = none
match_version [] = none

-- The first line that matches.
abbrev pub or_next : Option Namespace → Option Namespace → Option Namespace
or_next (some n) rest = some n
or_next none rest = rest

unfoldable pub find_version : List Bytes → Option Namespace
unfolding match_version
find_version [] = none
find_version (line ∷ lines) = or_next (match_version (split line b'.')) (find_version lines)

abbrev pub detect_in : Option Bytes → Option Namespace
detect_in none = none
detect_in (some file) = find_version (scan_lines file)

unfoldable pub detect : FilesMap → Option Namespace
unfolding find_version
detect files = detect_in (get alpine_release_path files)
