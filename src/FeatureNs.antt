-- ===== src/FeatureNs.antt =====
-- ext/featurens: the namespace of a layer, from the files that name its distribution. What
-- osrelease.go and lsbrelease.go have in common stands here.
pub mod OsRelease
pub mod LsbRelease
pub mod RedhatRelease
pub mod AlpineRelease
pub mod AptSources
pub mod Driver
pub mod Builtin
pub mod Shapes
pub mod Named
use clair.GoLib.{lower_text, replace_all}
use clair.Database.{Namespace}
use clair.VersionFmt.Dpkg
use clair.VersionFmt.Rpm
use clair.Prelude.{
  Bytes, bytes_eq, Bool, ◌||◌, Option, none, some, List, [], ◌∷◌, ◌++◌, any, codes, length, drop,
  is_empty, ◌===◌, if◌then◌else◌,
}

-- What the loops over the lines fill.
pub record Release : Type 0 where
  pub os : Bytes
  pub version : Bytes

abbrev pub no_release : Release
no_release = record { os = []; version = [] }

-- What stands behind the prefix of a line, in lower case and without its quotation marks.
abbrev pub value_behind : Bytes → Bytes → Bytes
value_behind prefix line = replace_all (lower_text (drop (length prefix) line)) (34 ∷ []) []

abbrev pub is_one_of : Bytes → List Bytes → Bool
is_one_of s names = any (λ n. s === n) names

-- Determine the VersionFormat.
unfoldable pub version_format_of : Bytes → Option Bytes
version_format_of os =
    if is_one_of os (codes "debian" ∷ codes "ubuntu" ∷ [])
    then some Dpkg.parser_name
    else if is_one_of os (
        codes "centos"
        ∷ codes "rhel"
        ∷ codes "fedora"
        ∷ codes "amzn"
        ∷ codes "ol"
        ∷ codes "oracle"
        ∷ [])
    then some Rpm.parser_name
    else none

abbrev pub with_format : Release → Option Bytes → Option Namespace
with_format r none = none
with_format r (some version_format) =
    if is_empty r.os || is_empty r.version
    then none
    else some (record { name = r.os ++ b':' ∷ r.version; version_format = version_format })

unfoldable pub namespace_of : Release → Option Namespace
unfolding version_format_of
namespace_of r = with_format r (version_format_of r.os)
