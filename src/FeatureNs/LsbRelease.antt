-- ===== src/FeatureNs/LsbRelease.antt =====
-- ext/featurens/lsbrelease/lsbrelease.go.
use clair.GoLib.{has_prefix, index, scan_lines}
use clair.Database.{Namespace}
use clair.FeatureFmt.{FilesMap}
use clair.FeatureNs.{Release, no_release, value_behind, is_one_of, namespace_of}
use clair.Prelude.{
  ℕ, Bytes, bytes_eq, Option, none, some, List, [], ◌∷◌, codes, get, take, if◌then◌else◌,
}

abbrev pub lsb_release : Bytes
lsb_release = codes "etc/lsb-release"

abbrev pub required_filenames : List Bytes
required_filenames = lsb_release ∷ []

abbrev pub read_os : Bytes → Release → Release
read_os line r =
    if has_prefix line (codes "DISTRIB_ID=")
    then record r { os = value_behind (codes "DISTRIB_ID=") line }
    else r

-- version[:i] at the first dot.
abbrev pub up_to_dot : Bytes → Option ℕ → Bytes
up_to_dot version none = version
up_to_dot version (some i) = take i version

-- The minor version counts for Ubuntu but not for Debian and CentOS.
abbrev pub major_version : Bytes → Bytes → Bytes
major_version os version =
    if is_one_of os (codes "centos" ∷ codes "debian" ∷ [])
    then up_to_dot version (index version b'.')
    else version

abbrev pub read_version : Bytes → Release → Release
read_version line r =
    if has_prefix line (codes "DISTRIB_RELEASE=")
    then record r { version = major_version r.os (value_behind (codes "DISTRIB_RELEASE=") line) }
    else r

unfoldable pub read_lines : List Bytes → Release → Release
read_lines [] r = r
read_lines (line ∷ lines) r = read_lines lines (read_version line (read_os line r))

abbrev pub detect_in : Option Bytes → Option Namespace
detect_in none = none
detect_in (some file) = namespace_of (read_lines (scan_lines file) no_release)

unfoldable pub detect : FilesMap → Option Namespace
unfolding read_lines namespace_of
detect files = detect_in (get lsb_release files)
