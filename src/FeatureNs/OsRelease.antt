-- ===== src/FeatureNs/OsRelease.antt =====
-- ext/featurens/osrelease/osrelease.go.
use clair.GoLib.{has_prefix, scan_lines}
use clair.Database.{Namespace}
use clair.FeatureFmt.{FilesMap}
use clair.FeatureNs.{Release, no_release, value_behind, namespace_of}
use clair.Prelude.{
  Bytes, bytes_eq, Option, none, some, List, [], ◌∷◌, any, codes, get, has_key, if◌then◌else◌,
}

abbrev pub blacklist_filenames : List Bytes
blacklist_filenames =
    codes "etc/oracle-release" ∷ codes "etc/redhat-release" ∷ codes "usr/lib/centos-release" ∷ []

abbrev pub required_filenames : List Bytes
required_filenames = codes "etc/os-release" ∷ codes "usr/lib/os-release" ∷ []

-- The regular expressions `^ID=(.*)` and `^VERSION_ID=(.*)` on a line.
abbrev pub read_os : Bytes → Release → Release
read_os line r =
    if has_prefix line (codes "ID=") then record r { os = value_behind (codes "ID=") line } else r

abbrev pub read_version : Bytes → Release → Release
read_version line r =
    if has_prefix line (codes "VERSION_ID=")
    then record r { version = value_behind (codes "VERSION_ID=") line }
    else r

unfoldable pub read_lines : List Bytes → Release → Release
read_lines [] r = r
read_lines (line ∷ lines) r = read_lines lines (read_version line (read_os line r))

abbrev pub read_file : Option Bytes → Release → Release
read_file none r = r
read_file (some file) r = read_lines (scan_lines file) r

unfoldable pub read_files : FilesMap → List Bytes → Release → Release
unfolding read_lines
read_files files [] r = r
read_files files (path ∷ paths) r = read_files files paths (read_file (get path files) r)

unfoldable pub detect : FilesMap → Option Namespace
unfolding read_files namespace_of
detect files =
    if any (λ path. has_key path files) blacklist_filenames
    then none
    else namespace_of (read_files files required_filenames no_release)
