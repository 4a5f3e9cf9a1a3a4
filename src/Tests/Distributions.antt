-- ===== src/Tests/Distributions.antt =====
-- The theorems on ext/featurens at concrete values.
use clair.Database.{Detector, LayerNamespace, namespace_detector_type}
use clair.FeatureFmt.{FilesMap}
use clair.FeatureNs.OsRelease
use clair.FeatureNs.LsbRelease
use clair.FeatureNs.RedhatRelease
use clair.FeatureNs.AlpineRelease
use clair.FeatureNs.AptSources
use clair.FeatureNs.Driver.{detect}
use clair.FeatureNs.Builtin.{builtin_detectors}
use clair.FeatureNs.Named.{FromDetector, detect-FromDetector}
use clair.Prelude.{
  Bytes, Bytes-discrete, ℕ_discrete, List, [], ◌∷◌, ◌++◌, codes, All, ok, some, none, ◌≡◌, refl,
  inr,
}

abbrev files : FilesMap
files =
    (codes "etc/os-release", codes "ID=debian" ++ 10 ∷ codes "VERSION_ID=\"9\"")
    ∷ (codes "etc/apt/sources.list", codes "deb uri xenial/updates main")
    ∷ (codes "etc/alpine-release", codes "3.4.6")
    ∷ (codes "etc/centos-release", codes "CentOS Linux release 7.1")
    ∷ []

debian_found :
    OsRelease.detect files
    ≡ some (record { name = codes "debian:9"; version_format = codes "dpkg" })
unfolding OsRelease.detect Bytes-discrete ℕ_discrete clair.Prelude.get clair.GoLib.Lines.scan_lines
    clair.GoLib.has_prefix clair.GoLib.replace_all clair.GoLib.lower_text
debian_found = refl

ubuntu_found :
    AptSources.detect files
    ≡ some (record { name = codes "ubuntu:16.04"; version_format = codes "dpkg" })
unfolding AptSources.detect Bytes-discrete ℕ_discrete clair.Prelude.get clair.GoLib.Lines.scan_lines
    clair.GoLib.split clair.GoLib.index
ubuntu_found = refl

alpine_found :
    AlpineRelease.detect files
    ≡ some (record { name = codes "alpine:v3.4"; version_format = codes "dpkg" })
unfolding AlpineRelease.detect Bytes-discrete ℕ_discrete clair.Prelude.get
    clair.GoLib.Lines.scan_lines clair.GoLib.split clair.GoLib.is_digit
alpine_found = refl

centos_found :
    RedhatRelease.detect files
    ≡ some (record { name = codes "centos:7"; version_format = codes "rpm" })
unfolding RedhatRelease.detect Bytes-discrete ℕ_discrete clair.Prelude.get clair.GoLib.has_prefix
    clair.GoLib.is_digit clair.GoLib.lower_text
centos_found = refl

nothing_in_lsb : LsbRelease.detect files ≡ none
unfolding LsbRelease.detect Bytes-discrete ℕ_discrete clair.Prelude.get
nothing_in_lsb = refl

abbrev to_use : List Detector
to_use =
    record { name = codes "os-release"; version = codes "1.0"; dtype = namespace_detector_type }
    ∷ record { name = codes "apt-sources"; version = codes "1.0"; dtype = namespace_detector_type }
    ∷ []

detect-FromDetector_example :
    (found : List LayerNamespace) × (detect {E = Bytes} builtin_detectors files to_use ≡ ok found)
    × All FromDetector found
unfolding Bytes-discrete ℕ_discrete clair.Prelude.get
detect-FromDetector_example = detect-FromDetector files to_use (inr (_, refl), (inr (_, refl), tt))
