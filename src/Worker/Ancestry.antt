-- ===== src/Worker/Ancestry.antt =====
-- getCommonDetectors and computeAncestryLayers of worker.go.
pub mod Common
pub mod Introduced
pub mod Placed
use clair.Database.{
  Detector, Namespace, Feature, LayerNamespace, LayerFeature, Layer, NamespacedFeature,
  AncestryFeature, AncestryLayer, detector_eq,
}
use clair.Database.Sets.{MapSet}
use clair.Database.Dbutil.{set_of}
use clair.Prelude.{
  ℕ, zero, suc, ◌+◌, Bool, true, false, ◌&&◌, Option, none, some, List, [], ◌∷◌, ◌++◌, Bytes,
  bytes_eq, get, put, MapOrder, if◌then◌else◌,
}

pub record IntroducedFeature : Type 0 where
  pub feature : AncestryFeature
  pub layer_index : ℕ

-- Feature ID -> feature, and version format -> feature ID -> feature.
abbrev pub FeatureMap : Type 0
FeatureMap = List (Bytes × IntroducedFeature)

abbrev pub FormatMap : Type 0
FormatMap = List (Bytes × FeatureMap)

abbrev pub NamespaceMap : Type 0
NamespaceMap = List (Bytes × LayerNamespace)

-- f.Name+":"+f.Version
abbrev pub feature_id : Feature → Bytes
feature_id f = f.name ++ b':' ∷ f.version

module _ (s : MapSet Detector) where
  -- The loop over the layers.
  unfoldable pub intersect_all : s.Set → List Layer → s.Set
  intersect_all common [] = common
  intersect_all common (l ∷ layers) = intersect_all (s.intersect common (set_of s l.by)) layers

  -- layers[0] is there: the one caller has tested the length.
  unfoldable pub get_common_detectors : Layer → List Layer → s.Set
  unfolding intersect_all
  get_common_detectors first layers = intersect_all (set_of s first.by) (first ∷ layers)

  module _ (common : s.Set) where
    -- The loop over the namespaces of a layer.
    unfoldable pub add_namespaces : NamespaceMap → List LayerNamespace → NamespaceMap
    add_namespaces namespaces [] = namespaces
    add_namespaces namespaces (ns ∷ rest) =
        add_namespaces
          (if s.contains common ns.by
            then put ns.namespace.version_format ns namespaces
            else namespaces)
          rest

    -- The feature that an earlier layer introduced, if its format holds it.
    unfoldable pub inherited : FormatMap → Feature → Option IntroducedFeature
    inherited features f = elim (get f.version_format features) [
      | none ↦ none
      | some map_f ↦ get (feature_id f) map_f
    ]

    abbrev pub introduce : LayerNamespace → LayerFeature → ℕ → IntroducedFeature
    introduce ns f index = record {
      feature = record {
        namespaced_feature = record { feature = f.feature; namespace = ns.namespace };
        feature_by = f.by;
        namespace_by = ns.by;
      };
      layer_index = index;
    }

    abbrev pub or_empty : Option FeatureMap → FeatureMap
    or_empty none = []
    or_empty (some m) = m

    abbrev pub or_introduced : Option IntroducedFeature → IntroducedFeature → IntroducedFeature
    or_introduced none new = new
    or_introduced (some parent) new = parent

    -- currentMap[id] = entry, in the map of the feature's format.
    unfoldable pub add_feature : FormatMap → Feature → IntroducedFeature → FormatMap
    add_feature current f entry =
        put f.version_format (put (feature_id f) entry (or_empty (get f.version_format current)))
          current

    -- The loop over the features of a layer; `none` is the error "No corresponding version format".
    unfoldable pub add_features :
        NamespaceMap → FormatMap → ℕ → FormatMap → List LayerFeature → Option FormatMap
    add_features namespaces features index current [] = some current
    add_features namespaces features index current (f ∷ rest) = elim (s.contains common f.by) [
      | false ↦ add_features namespaces features index current rest
      | true ↦ elim (get f.feature.version_format namespaces) [
        | none ↦ none
        | some ns ↦
            add_features namespaces features index
              (add_feature current f.feature
                (or_introduced (inherited features f.feature) (introduce ns f index)))
              rest
      ]
    ]

    -- features[vf] = mapF for each format of the layer.
    unfoldable pub replace_formats : FormatMap → FormatMap → FormatMap
    replace_formats features [] = features
    replace_formats features ((vf, map_f) ∷ current) =
        replace_formats (put vf map_f features) current

    -- The loop over the layers from `index` on.
    unfoldable pub scan_layers : ℕ → NamespaceMap → FormatMap → List Layer → Option FormatMap
    scan_layers index namespaces features [] = some features
    scan_layers index namespaces features (l ∷ layers) =
        let namespaces' = add_namespaces namespaces l.namespaces in
        elim (add_features namespaces' features index [] l.features) [
          | none ↦ none
          | some current ↦
              scan_layers (suc index) namespaces' (replace_formats features current) layers
        ]

-- ancestryLayers[i].Features = append(…); the index is in range.
unfoldable pub append_at : ℕ → AncestryFeature → List AncestryLayer → List AncestryLayer
append_at i f [] = []
append_at zero f (l ∷ ls) = record l { features = l.features ++ f ∷ [] } ∷ ls
append_at (suc i) f (l ∷ ls) = l ∷ append_at i f ls

unfoldable pub place : List (Bytes × IntroducedFeature) → List AncestryLayer → List AncestryLayer
unfolding append_at
place [] ls = ls
place ((id, f) ∷ rest) ls = place rest (append_at f.layer_index f.feature ls)

-- The two loops over the maps, in the order that the map gives.
unfoldable pub place_all :
    MapOrder → List (Bytes × FeatureMap) → List AncestryLayer → List AncestryLayer
unfolding place
place_all o [] ls = ls
place_all o ((vf, map_f) ∷ rest) ls = place_all o rest (place (o.visit _ map_f) ls)

unfoldable pub initialize : List Layer → List AncestryLayer
initialize [] = []
initialize (l ∷ layers) = record { hash = l.hash; features = [] } ∷ initialize layers

-- `none` is the error.
unfoldable pub compute_ancestry_layers :
    MapOrder → MapSet Detector → List Layer → Option (List AncestryLayer × List Detector)
compute_ancestry_layers o s [] = some ([], [])
compute_ancestry_layers o s (first ∷ layers) =
    let common = get_common_detectors s first layers in
    elim (scan_layers s common 0 [] [] (first ∷ layers)) [
      | none ↦ none
      | some features ↦
          some (place_all o (o.visit _ features) (initialize (first ∷ layers)), s.iter common)
    ]
