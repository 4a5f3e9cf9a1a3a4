-- ===== src/FeatureNs/Named/Releases.antt =====
-- What the namespaces of osrelease.go, lsbrelease.go, aptsources.go and alpinerelease.go have in
-- common.
use clair.Database.{Namespace}
use clair.VersionFmt.Dpkg
use clair.VersionFmt.Rpm
use clair.GoLib.{scan_lines, split}
use clair.FeatureFmt.{FilesMap}
use clair.FeatureNs.{Release, no_release, with_format, version_format_of, namespace_of}
use clair.FeatureNs.Shapes.{AllNamed, none-AllNamed, some-AllNamed}
use clair.FeatureNs.OsRelease
use clair.FeatureNs.LsbRelease
use clair.FeatureNs.AlpineRelease
use clair.FeatureNs.AptSources
use clair.Prelude.{
  Bytes, bytes_eq, ◌&&◌, ◌||◌, Option, none, some, List, [], ◌∷◌, ◌++◌, any, codes, get, has_key,
  is_empty, ◌≡◌, refl, arith, ◌⊎◌, if_either, Bool-cases, inl, inr,
}

version_format_of-one_of :
    (os f : Bytes) → version_format_of os ≡ some f → (f ≡ Dpkg.parser_name) ⊎ (f ≡ Rpm.parser_name)
unfolding version_format_of
version_format_of-one_of os f e = ground arith

with_format-AllNamed :
    (r : Release) (o : Option Bytes)
    → ((f : Bytes) → o ≡ some f → (f ≡ Dpkg.parser_name) ⊎ (f ≡ Rpm.parser_name))
    → AllNamed (with_format r o)
with_format-AllNamed r none h = none-AllNamed
with_format-AllNamed r (some f) h = elim (Bool-cases (is_empty r.os || is_empty r.version)) [
  | inl x ↦ rw x none-AllNamed
  | inr x ↦ rw x (some-AllNamed _ (r.os, r.version, refl, (ground arith), h f refl))
]

namespace_of-AllNamed : (r : Release) → AllNamed (namespace_of r)
unfolding namespace_of
namespace_of-AllNamed r =
    with_format-AllNamed r (version_format_of r.os) (version_format_of-one_of r.os)

pub os_release-AllNamed : (files : FilesMap) → AllNamed (OsRelease.detect files)
unfolding OsRelease.detect
os_release-AllNamed files =
    if_either AllNamed (any (λ path. has_key path files) OsRelease.blacklist_filenames)
      none-AllNamed
      (namespace_of-AllNamed (OsRelease.read_files files OsRelease.required_filenames no_release))

pub lsb_release-AllNamed : (files : FilesMap) → AllNamed (LsbRelease.detect files)
unfolding LsbRelease.detect
lsb_release-AllNamed files = go (get LsbRelease.lsb_release files)
  where
    go : (o : Option Bytes) → AllNamed (LsbRelease.detect_in o)
    go none = none-AllNamed
    go (some file) = namespace_of-AllNamed (LsbRelease.read_lines (scan_lines file) no_release)

pub apt_sources-AllNamed : (files : FilesMap) → AllNamed (AptSources.detect files)
unfolding AptSources.detect
apt_sources-AllNamed files = go (get AptSources.sources_list files)
  where
    named : (r : Release) → AllNamed (AptSources.namespace_of r)
    named r = elim (Bool-cases (is_empty r.os || is_empty r.version)) [
      | inl x ↦ rw x none-AllNamed
      | inr x ↦ rw x (some-AllNamed _ (r.os, r.version, refl, (ground arith), inl refl))
    ]

    go : (o : Option Bytes) → AllNamed (AptSources.detect_in o)
    go none = none-AllNamed
    go (some file) = named (AptSources.find_release (scan_lines file))

match_version-AllNamed : (parts : List Bytes) → AllNamed (AlpineRelease.match_version parts)
unfolding AlpineRelease.match_version
match_version-AllNamed [] = none-AllNamed
match_version-AllNamed (major ∷ []) = none-AllNamed
match_version-AllNamed (major ∷ minor ∷ []) = none-AllNamed
match_version-AllNamed (major ∷ minor ∷ patch ∷ []) =
    if_either AllNamed
      (AlpineRelease.is_number major
        && AlpineRelease.is_number minor
        && AlpineRelease.is_number patch)
      (some-AllNamed (AlpineRelease.namespace_of major minor)
        (codes "alpine", b'v' ∷ major ++ b'.' ∷ minor, refl, refl, inl refl))
      none-AllNamed
match_version-AllNamed (major ∷ minor ∷ patch ∷ more ∷ parts) = none-AllNamed

or_next-AllNamed :
    (o rest : Option Namespace)
    → AllNamed o
    → AllNamed rest
    → AllNamed (AlpineRelease.or_next o rest)
or_next-AllNamed none rest h i = i
or_next-AllNamed (some n) rest h i = h

find_version-AllNamed : (lines : List Bytes) → AllNamed (AlpineRelease.find_version lines)
unfolding AlpineRelease.find_version
find_version-AllNamed [] = none-AllNamed
find_version-AllNamed (line ∷ lines) =
    or_next-AllNamed (AlpineRelease.match_version (split line b'.')) _
      (match_version-AllNamed (split line b'.')) (find_version-AllNamed lines)

pub alpine_release-AllNamed : (files : FilesMap) → AllNamed (AlpineRelease.detect files)
unfolding AlpineRelease.detect
alpine_release-AllNamed files = go (get AlpineRelease.alpine_release_path files)
  where
    go : (o : Option Bytes) → AllNamed (AlpineRelease.detect_in o)
    go none = none-AllNamed
    go (some file) = find_version-AllNamed (scan_lines file)
