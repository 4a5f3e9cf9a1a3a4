-- ===== src/Tests/Data.antt =====
-- The theorem on layers that are merged, at concrete values.
use clair.Database.{
  Detector, LayerNamespace, LayerFeature, Layer, detector_eq, namespace_eq, layer_feature_eq,
  layer_namespace_eq, new_feature_detector, new_namespace_detector,
}
use clair.Database.Sets.{list_set}
use clair.Database.Dbutil.{LayerSets, merge_layers}
use clair.Database.Dbutil.Merge.{elem-merge_layers}
use clair.Prelude.{◌||◌, [], ◌∷◌, bytes_eq, codes, elem, ◌≡◌}

abbrev dpkg_detector : Detector
dpkg_detector = new_feature_detector (codes "dpkg") (codes "1.0")

abbrev release_detector : Detector
release_detector = new_namespace_detector (codes "os-release") (codes "1.0")

abbrev openssl : LayerFeature
openssl = record {
  feature = record {
    name = codes "openssl";
    version = codes "1.0-1";
    source_name = [];
    source_version = [];
    version_format = codes "dpkg";
  };
  by = dpkg_detector;
}

abbrev debian : LayerNamespace
debian = record {
  namespace = record { name = codes "debian:9"; version_format = codes "dpkg" };
  by = release_detector;
}

abbrev base : Layer
base = record {
  hash = codes "base";
  by = release_detector ∷ [];
  namespaces = debian ∷ [];
  features = [];
}

abbrev update : Layer
update = record {
  hash = codes "base";
  by = dpkg_detector ∷ release_detector ∷ [];
  namespaces = debian ∷ [];
  features = openssl ∷ openssl ∷ [];
}

abbrev sets : LayerSets
sets = record { features = list_set; namespaces = list_set; detectors = list_set }

elem-merge_layers_example :
    ((merge_layers sets base update).hash ≡ base.hash)
    × (elem openssl (merge_layers sets base update).features
        ≡ (elem openssl base.features || elem openssl update.features))
    × (elem debian (merge_layers sets base update).namespaces
        ≡ (elem debian base.namespaces || elem debian update.namespaces))
    × (elem dpkg_detector (merge_layers sets base update).by
        ≡ (elem dpkg_detector base.by || elem dpkg_detector update.by))
elem-merge_layers_example = elem-merge_layers sets base update openssl debian dpkg_detector
