-- ===== src/Updater/Namespacing.antt =====
-- doVulnerabilitiesNamespacing and appendFunc of updater.go. The slice that is ranged over gives
-- copies, so a vulnerability of the map is no part of the input.
pub mod WellFormed
pub mod Kept
use clair.Database.{Namespace, AffectedFeature, Vulnerability, VulnerabilityWithAffected}
use clair.Database.Severity
use clair.Prelude.{
  Bool, true, false, not, ◌||◌, Option, none, some, List, [], ◌∷◌, ◌++◌, map, Bytes, bytes_eq,
  is_empty, get, put, ◌===◌, MapOrder, if◌then◌else◌,
}

abbrev pub VulnerabilityMap : Type 0
VulnerabilityMap = List (Bytes × VulnerabilityWithAffected)

-- The features that are thrown out.
unfoldable pub feature_malformed : AffectedFeature → Bool
feature_malformed fv =
    is_empty fv.affected_type
    || is_empty fv.affected_version
    || is_empty fv.feature_name
    || is_empty fv.namespace.name
    || is_empty fv.namespace.version_format

-- fv.Namespace.Name + ":" + v.Name
abbrev pub index_of : Namespace → Vulnerability → Bytes
index_of n v = n.name ++ b':' ∷ v.name

-- A copy of v in the namespace of a feature that it affects.
abbrev pub new_vulnerability : Vulnerability → AffectedFeature → VulnerabilityWithAffected
new_vulnerability v fv = record {
  vulnerability = record v { namespace = fv.namespace };
  affected = fv ∷ [];
}

abbrev pub add_affected : VulnerabilityWithAffected → AffectedFeature → VulnerabilityWithAffected
add_affected w fv = record w { affected = w.affected ++ fv ∷ [] }

-- What a feature that is kept does to the entry of its index.
abbrev pub with_feature :
    Option VulnerabilityWithAffected → Vulnerability → AffectedFeature → VulnerabilityWithAffected
with_feature none v fv = new_vulnerability v fv
with_feature (some w) v fv = add_affected w fv

-- The inner loop, over the features that v affects.
unfoldable pub split_features :
    VulnerabilityMap → Vulnerability → List AffectedFeature → VulnerabilityMap
split_features m v [] = m
split_features m v (fv ∷ rest) =
    split_features
      (if feature_malformed fv
        then m
        else put (index_of fv.namespace v) (with_feature (get (index_of fv.namespace v) m) v fv) m)
      v rest

-- The outer loop.
unfoldable pub split_all : VulnerabilityMap → List VulnerabilityWithAffected → VulnerabilityMap
split_all m [] = m
split_all m (v ∷ vs) = split_all (split_features m v.vulnerability v.affected) vs

unfoldable pub vulnerability_malformed : Vulnerability → Bool
vulnerability_malformed v =
    is_empty v.name
    || not (Severity.valid v.severity)
    || is_empty v.namespace.name
    || is_empty v.namespace.version_format

-- The loop over the map that keeps what is well formed.
unfoldable pub respond : List (Bytes × VulnerabilityWithAffected) → List VulnerabilityWithAffected
respond [] = []
respond ((index, v) ∷ rest) =
    let response = respond rest in
    if vulnerability_malformed v.vulnerability then response else v ∷ response

unfoldable pub do_vulnerabilities_namespacing :
    MapOrder → List VulnerabilityWithAffected → List VulnerabilityWithAffected
do_vulnerabilities_namespacing o vulnerabilities =
    respond (o.visit (Bytes × VulnerabilityWithAffected) (split_all [] vulnerabilities))

abbrev pub or_no_metadata : Option (List (Bytes × Bytes)) → List (Bytes × Bytes)
or_no_metadata none = []
or_no_metadata (some m) = m

-- appendFunc, which the lock of the vulnerability makes one step.
unfoldable pub append_func : Vulnerability → Bytes → Bytes → Bytes → Vulnerability
append_func lv metadata_key metadata severity = record lv {
  metadata = some (put metadata_key metadata (or_no_metadata lv.metadata));
  severity = if lv.severity === Severity.unknown_severity then severity else lv.severity;
}
