-- ===== src/FeatureNs/Builtin.antt =====
-- The functions init of the five packages below ext/featurens, each of which registers its detector.
use clair.Database.{Namespace, new_namespace_detector}
use clair.FeatureFmt.{FilesMap}
use clair.FeatureNs.OsRelease
use clair.FeatureNs.LsbRelease
use clair.FeatureNs.RedhatRelease
use clair.FeatureNs.AlpineRelease
use clair.FeatureNs.AptSources
use clair.FeatureNs.Driver.{Detectors}
use clair.FeatureNs.Driver
use clair.Prelude.{Bytes, Option, List, [], ◌∷◌, codes, ok}

-- None of the five returns an error.
abbrev pub builtin :
    {E : Type 0} → Bytes → (FilesMap → Option Namespace) → List Bytes → Bytes × Driver.Registered E
builtin name detect filenames = (
  name,
  record {
    detection = record { detect_in = λ files. ok (detect files); filenames = filenames };
    info = new_namespace_detector name (codes "1.0");
  },
)

abbrev pub builtin_detectors : {E : Type 0} → Detectors E
builtin_detectors =
    builtin (codes "os-release") OsRelease.detect OsRelease.required_filenames
    ∷ builtin (codes "lsb-release") LsbRelease.detect LsbRelease.required_filenames
    ∷ builtin (codes "redhat-release") RedhatRelease.detect RedhatRelease.required_filenames
    ∷ builtin (codes "alpine-release") AlpineRelease.detect AlpineRelease.required_filenames
    ∷ builtin (codes "apt-sources") AptSources.detect AptSources.required_filenames
    ∷ []
