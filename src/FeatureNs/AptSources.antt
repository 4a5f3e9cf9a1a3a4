-- ===== src/FeatureNs/AptSources.antt =====
-- ext/featurens/aptsources/aptsources.go.
use clair.GoLib.{index, split, scan_lines}
use clair.Database.{Namespace}
use clair.Database.Releases.{debian_releases_mapping, ubuntu_releases_mapping}
use clair.VersionFmt.Dpkg
use clair.FeatureFmt.{FilesMap}
use clair.FeatureNs.{Release, no_release}
use clair.Prelude.{
  ℕ, Bytes, bytes_eq, ◌||◌, Option, none, some, List, [], ◌∷◌, ◌++◌, any, codes, get, take,
  is_empty, ◌===◌, if◌then◌else◌,
}

abbrev pub sources_list : Bytes
sources_list = codes "etc/apt/sources.list"

abbrev pub required_filenames : List Bytes
required_filenames = sources_list ∷ []

-- strings.Split(line[2], "/")[0]
abbrev pub up_to_slash : Bytes → Option ℕ → Bytes
up_to_slash s none = s
up_to_slash s (some i) = take i s

abbrev pub if_ubuntu : Option Bytes → Option Release
if_ubuntu none = none
if_ubuntu (some version) = some (record { os = codes "ubuntu"; version = version })

abbrev pub if_debian : Option Bytes → Bytes → Option Release
if_debian (some version) distribution = some (record { os = codes "debian"; version = version })
if_debian none distribution =
    if_ubuntu (get (up_to_slash distribution (index distribution b'/')) ubuntu_releases_mapping)

-- What the parts of a line between its spaces give; only the main component counts.
unfoldable pub release_of : List Bytes → Option Release
release_of [] = none
release_of (kind ∷ []) = none
release_of (kind ∷ uri ∷ []) = none
release_of (kind ∷ uri ∷ distribution ∷ []) = none
release_of (kind ∷ uri ∷ distribution ∷ component ∷ components) =
    if any (λ c. c === codes "main") (component ∷ components)
    then if_debian (get distribution debian_releases_mapping) distribution
    else none

-- The loop ends at the first line with a release. Where there is none, the version may be "" but the
-- system is too.
abbrev or_next : Option Release → Release → Release
or_next none rest = rest
or_next (some r) rest = r

unfoldable pub find_release : List Bytes → Release
unfolding release_of
find_release [] = no_release
find_release (line ∷ lines) = or_next (release_of (split line b' ')) (find_release lines)

abbrev pub namespace_of : Release → Option Namespace
namespace_of r =
    if is_empty r.os || is_empty r.version
    then none
    else some (record { name = r.os ++ b':' ∷ r.version; version_format = Dpkg.parser_name })

abbrev pub detect_in : Option Bytes → Option Namespace
detect_in none = none
detect_in (some file) = namespace_of (find_release (scan_lines file))

unfoldable pub detect : FilesMap → Option Namespace
unfolding find_release
detect files = detect_in (get sources_list files)
