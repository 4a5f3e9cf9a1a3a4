-- ===== src/Database.antt =====
-- database/models.go and database/detector.go: the data that Clair stores. A struct that is embedded
-- in another is a field of it.
pub mod Severity
pub mod Sets
pub mod Releases
pub mod Dbutil
pub mod Session
pub mod Transactions
use clair.Prelude.{
  Bytes, Bool, true, false, not, ◌||◌, ◌&&◌, Option, none, some, List, [], ◌∷◌, ◌++◌, map, codes,
  any, all, bytes_eq, Eq, ◌===◌, is_empty, if◌then◌else◌, ℕ_discrete,
}

-- database/detector.go
abbrev pub namespace_detector_type : Bytes
namespace_detector_type = codes "namespace"

abbrev pub feature_detector_type : Bytes
feature_detector_type = codes "feature"

abbrev pub detector_types : List Bytes
detector_types = namespace_detector_type ∷ feature_detector_type ∷ []

-- database/affected_feature_type.go
abbrev pub affect_source_package : Bytes
affect_source_package = codes "source"

abbrev pub affect_binary_package : Bytes
affect_binary_package = codes "binary"

pub record Detector : Type 0 where
  pub name : Bytes
  pub version : Bytes
  pub dtype : Bytes

pub record Namespace : Type 0 where
  pub name : Bytes
  pub version_format : Bytes

pub record Feature : Type 0 where
  pub name : Bytes
  pub version : Bytes
  pub source_name : Bytes
  pub source_version : Bytes
  pub version_format : Bytes

pub record LayerNamespace : Type 0 where
  pub namespace : Namespace
  pub by : Detector

pub record LayerFeature : Type 0 where
  pub feature : Feature
  pub by : Detector

pub record Layer : Type 0 where
  pub hash : Bytes
  pub by : List Detector
  pub namespaces : List LayerNamespace
  pub features : List LayerFeature

pub record NamespacedFeature : Type 0 where
  pub feature : Feature
  pub namespace : Namespace

pub record AncestryFeature : Type 0 where
  pub namespaced_feature : NamespacedFeature
  pub feature_by : Detector
  pub namespace_by : Detector

pub record AncestryLayer : Type 0 where
  pub hash : Bytes
  pub features : List AncestryFeature

pub record Ancestry : Type 0 where
  pub name : Bytes
  pub by : List Detector
  pub layers : List AncestryLayer

pub record AffectedFeature : Type 0 where
  pub affected_type : Bytes
  pub namespace : Namespace
  pub feature_name : Bytes
  pub fixed_in_version : Bytes
  pub affected_version : Bytes

pub record VulnerabilityId : Type 0 where
  pub name : Bytes
  pub namespace : Bytes

-- A nil map of metadata is `none`; a value of it is opaque, and stands here as a text.
pub record Vulnerability : Type 0 where
  pub name : Bytes
  pub namespace : Namespace
  pub description : Bytes
  pub link : Bytes
  pub severity : Bytes
  pub metadata : Option (List (Bytes × Bytes))

pub record VulnerabilityWithAffected : Type 0 where
  pub vulnerability : Vulnerability
  pub affected : List AffectedFeature

unfoldable pub Detector-discrete : Discrete Detector
Detector-discrete = hlevel ℕ_discrete

unfoldable pub Namespace-discrete : Discrete Namespace
Namespace-discrete = hlevel ℕ_discrete

unfoldable pub Feature-discrete : Discrete Feature
Feature-discrete = hlevel ℕ_discrete

unfoldable pub LayerNamespace-discrete : Discrete LayerNamespace
LayerNamespace-discrete = hlevel ℕ_discrete

unfoldable pub LayerFeature-discrete : Discrete LayerFeature
LayerFeature-discrete = hlevel ℕ_discrete

unfoldable pub NamespacedFeature-discrete : Discrete NamespacedFeature
NamespacedFeature-discrete = hlevel ℕ_discrete

unfoldable pub VulnerabilityId-discrete : Discrete VulnerabilityId
VulnerabilityId-discrete = hlevel ℕ_discrete

instance abbrev pub detector_eq : Eq Detector
detector_eq = record { dec_eq = Detector-discrete }

instance abbrev pub namespace_eq : Eq Namespace
namespace_eq = record { dec_eq = Namespace-discrete }

instance abbrev pub feature_eq : Eq Feature
feature_eq = record { dec_eq = Feature-discrete }

instance abbrev pub layer_namespace_eq : Eq LayerNamespace
layer_namespace_eq = record { dec_eq = LayerNamespace-discrete }

instance abbrev pub layer_feature_eq : Eq LayerFeature
layer_feature_eq = record { dec_eq = LayerFeature-discrete }

instance abbrev pub namespaced_feature_eq : Eq NamespacedFeature
namespaced_feature_eq = record { dec_eq = NamespacedFeature-discrete }

instance abbrev pub vulnerability_id_eq : Eq VulnerabilityId
vulnerability_id_eq = record { dec_eq = VulnerabilityId-discrete }

-- The methods Valid of database/detector.go.
unfoldable pub detector_type_valid : Bytes → Bool
detector_type_valid s = any (λ t. s === t) detector_types

unfoldable pub detector_valid : Detector → Bool
detector_valid d = not (is_empty d.name || is_empty d.version || not (detector_type_valid d.dtype))

unfoldable pub to_string : Detector → Bytes
to_string d = d.name ++ b':' ∷ d.version

unfoldable pub new_namespace_detector : Bytes → Bytes → Detector
new_namespace_detector name version = record {
  name = name;
  version = version;
  dtype = namespace_detector_type;
}

unfoldable pub new_feature_detector : Bytes → Bytes → Detector
new_feature_detector name version = record {
  name = name;
  version = version;
  dtype = feature_detector_type;
}

unfoldable pub serialize_detectors : List Detector → List Bytes
unfolding to_string
serialize_detectors detectors = map to_string detectors

-- The methods Valid of database/models.go; a nil pointer is `none`.
unfoldable pub ancestry_layer_valid : Option AncestryLayer → Bool
ancestry_layer_valid none = false
ancestry_layer_valid (some l) = not (is_empty l.hash)

unfoldable pub ancestry_valid : Option Ancestry → Bool
ancestry_valid none = false
ancestry_valid (some a) =
    not (is_empty a.name)
    && all detector_valid a.by
    && all (λ l. ancestry_layer_valid (some l)) a.layers

unfoldable pub ancestry_layer_get_features : AncestryLayer → List NamespacedFeature
ancestry_layer_get_features l = map (λ (f : AncestryFeature). f.namespaced_feature) l.features

unfoldable pub layer_get_features : Layer → List Feature
layer_get_features l = map (λ (f : LayerFeature). f.feature) l.features

unfoldable pub layer_get_namespaces : Layer → List Namespace
layer_get_namespaces l = map (λ (n : LayerNamespace). n.namespace) l.namespaces

-- The id of a vulnerability, and the first vulnerability of a list with an id.
abbrev pub id_of : VulnerabilityWithAffected → VulnerabilityId
id_of v = record { name = v.vulnerability.name; namespace = v.vulnerability.namespace.name }

unfoldable pub find_by :
    VulnerabilityId → List VulnerabilityWithAffected → Option VulnerabilityWithAffected
find_by id [] = none
find_by id (v ∷ vs) = if id_of v === id then some v else find_by id vs

abbrev pub or_else :
    Option VulnerabilityWithAffected
    → Option VulnerabilityWithAffected
    → Option VulnerabilityWithAffected
or_else none w = w
or_else (some v) w = some v
