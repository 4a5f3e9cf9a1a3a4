-- ===== src/Tests/Ancestries.antt =====
-- The theorems on ancestries, at an ancestry of two layers.
use clair.Database.{
  Detector, Namespace, Feature, Layer, AncestryLayer, AncestryFeature, detector_eq,
  Detector-discrete, new_feature_detector, new_namespace_detector,
}
use clair.Database.Sets.{list_set, keep}
use clair.Database.Dbutil.{set_of, add_all}
use clair.Worker.Ancestry.{
  get_common_detectors, intersect_all, add_namespaces, inherited, add_feature, add_features,
  replace_formats, scan_layers, append_at, place, place_all, initialize, compute_ancestry_layers,
}
use clair.Worker.Ancestry.Common.{compute_ancestry_layers_lem, hashes}
use clair.Worker.Ancestry.Introduced.{IsFrom}
use clair.Worker.Ancestry.Placed.{LayersIn, compute_ancestry_layers-IsFrom}
use clair.Prelude.{
  some, List, [], ◌∷◌, map, all, Bytes, bytes_eq, Bytes-discrete, ℕ_discrete, codes, elem, in_order,
  get, put, ◌≡◌, refl,
}

abbrev dpkg_detector : Detector
dpkg_detector = new_feature_detector (codes "dpkg") (codes "1.0")

abbrev release_detector : Detector
release_detector = new_namespace_detector (codes "os-release") (codes "1.0")

abbrev rpm_detector : Detector
rpm_detector = new_feature_detector (codes "rpm") (codes "1.0")

abbrev dpkg_feature : Bytes → Feature
dpkg_feature name = record {
  name = name;
  version = codes "1";
  source_name = [];
  source_version = [];
  version_format = codes "dpkg";
}

abbrev debian : Namespace
debian = record { name = codes "debian:9"; version_format = codes "dpkg" }

abbrev base : Layer
base = record {
  hash = codes "base";
  by = dpkg_detector ∷ release_detector ∷ [];
  namespaces = record { namespace = debian; by = release_detector } ∷ [];
  features = record { feature = dpkg_feature (codes "ssl"); by = dpkg_detector } ∷ [];
}

abbrev top : Layer
top = record {
  hash = codes "top";
  by = rpm_detector ∷ release_detector ∷ dpkg_detector ∷ [];
  namespaces = [];
  features =
      record { feature = dpkg_feature (codes "ssl"); by = dpkg_detector }
      ∷ record { feature = dpkg_feature (codes "git"); by = dpkg_detector }
      ∷ [];
}

abbrev at_debian : Bytes → AncestryFeature
at_debian name = record {
  namespaced_feature = record { feature = dpkg_feature name; namespace = debian };
  feature_by = dpkg_detector;
  namespace_by = release_detector;
}

-- The package of both layers belongs to the first.
abbrev layers_found : List AncestryLayer
layers_found =
    record { hash = codes "base"; features = at_debian (codes "ssl") ∷ [] }
    ∷ record { hash = codes "top"; features = at_debian (codes "git") ∷ [] }
    ∷ []

abbrev detectors_found : List Detector
detectors_found = release_detector ∷ dpkg_detector ∷ []

two_layers-Computed :
    compute_ancestry_layers in_order list_set (base ∷ top ∷ [])
    ≡ some (layers_found, detectors_found)
unfolding compute_ancestry_layers get_common_detectors intersect_all add_namespaces inherited
    add_feature add_features replace_formats scan_layers append_at place place_all initialize set_of
    add_all keep get put new_feature_detector new_namespace_detector Detector-discrete
    Bytes-discrete ℕ_discrete
two_layers-Computed = refl

compute_ancestry_layers_lem_example :
    (hashes layers_found ≡ map (λ (l : Layer). l.hash) (base ∷ top ∷ []))
    × ((d : Detector) → elem d detectors_found ≡ all (λ (l : Layer). elem d l.by) (base ∷ top ∷ []))
compute_ancestry_layers_lem_example =
    compute_ancestry_layers_lem in_order list_set base (top ∷ []) layers_found detectors_found
      two_layers-Computed

compute_ancestry_layers-IsFrom_example :
    LayersIn
      (IsFrom (base ∷ top ∷ []) (λ d. all (λ (l : Layer). elem d l.by) (base ∷ top ∷ [])))
      0
      layers_found
compute_ancestry_layers-IsFrom_example =
    compute_ancestry_layers-IsFrom in_order list_set base (top ∷ []) layers_found detectors_found
      two_layers-Computed
