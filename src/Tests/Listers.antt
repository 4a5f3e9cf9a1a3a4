-- ===== src/Tests/Listers.antt =====
-- The theorems on the listers of features.
use clair.Database.{
  Detector, Feature, LayerFeature, feature_eq, Feature-discrete, Detector-discrete,
  new_feature_detector,
}
use clair.Database.Sets.{list_set}
use clair.FeatureFmt.{FilesMap}
use clair.FeatureFmt.Driver
use clair.FeatureFmt.Driver.Listed.{FoundBy, list_features-FoundBy}
use clair.FeatureFmt.Apk
use clair.FeatureFmt.Apk.RoundTrip.{Package, write_packages}
use clair.FeatureFmt.Dpkg
use clair.FeatureFmt.Dpkg.Whole.{Whole, list_features-Whole}
use clair.Tests.Formats.{formats}
use clair.Prelude.{
  ℕ, bytes_eq, true, List, [], ◌∷◌, ◌++◌, codes, get, elem, All, ok, Bytes-discrete, ℕ_discrete,
  ◌≡◌, refl,
}

abbrev musl : Package
musl = record { name = codes "musl"; version = codes "1.1" }

abbrev apk_files : FilesMap
apk_files = (codes "lib/apk/db/installed", write_packages (musl ∷ [])) ∷ []

abbrev dpkg_files : FilesMap
dpkg_files =
    (
      codes "var/lib/dpkg/status",
      codes "Package: bash" ++ 10 ∷ codes "Source: sh (1.1)" ++ 10 ∷ codes "Version: 1.2",
    )
    ∷ []

abbrev bash : Feature
bash = record {
  name = codes "bash";
  version = codes "1.2";
  source_name = codes "sh";
  source_version = codes "1.1";
  version_format = codes "dpkg";
}

dpkg_listed : Dpkg.list_features list_set formats {E = ℕ} dpkg_files ≡ ok (bash ∷ [])
unfolding Feature-discrete Dpkg.list_features get Bytes-discrete ℕ_discrete
    clair.GoLib.Lines.scan_lines clair.GoLib.has_prefix clair.GoLib.trim_space
    clair.GoLib.last_index clair.VersionFmt.Driver.valid clair.VersionFmt.Driver.get_parser
    clair.Database.Dbutil.convert_feature_set_to_features
dpkg_listed = refl

bash_there : elem bash (bash ∷ []) ≡ true
unfolding clair.Database.Feature-discrete ℕ_discrete
bash_there = refl

list_features-Whole_example : Whole formats bash
list_features-Whole_example =
    list_features-Whole list_set formats dpkg_files (bash ∷ []) dpkg_listed bash bash_there

abbrev lister : Driver.Lister ℕ
lister = record {
  list_features = λ files. ok (bash ∷ []);
  required_filenames = codes "var/lib/dpkg/status" ∷ [];
}

abbrev dpkg_detector : Detector
dpkg_detector = record { name = codes "dpkg"; version = codes "1.0"; dtype = codes "feature" }

abbrev listers : Driver.Listers ℕ
listers = (codes "dpkg", record { lister = lister; info = dpkg_detector }) ∷ []

abbrev found : List LayerFeature
found = record { feature = bash; by = dpkg_detector } ∷ []

all_found : Driver.list_features listers dpkg_files (dpkg_detector ∷ []) ≡ ok found
unfolding Driver.list_features Bytes-discrete ℕ_discrete get
all_found = refl

list_features-FoundBy_example : All (FoundBy listers dpkg_files (dpkg_detector ∷ [])) found
list_features-FoundBy_example =
    list_features-FoundBy listers dpkg_files (dpkg_detector ∷ []) found all_found
