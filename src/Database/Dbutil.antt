-- ===== src/Database/Dbutil.antt =====
-- database/dbutil.go: what it computes with sets. Each set is the interface of Database/Sets.antt.
pub mod Merge
use clair.Database.{
  Detector, Namespace, Feature, LayerNamespace, LayerFeature, Layer, detector_eq, namespace_eq,
  feature_eq, layer_namespace_eq, layer_feature_eq,
}
use clair.Database.Sets.{MapSet}
use clair.Prelude.{Bool, true, false, List, [], ◌∷◌, ◌++◌, Eq, if◌then◌else◌}

module _ {A : Type 0} ⦃e : Eq A⦄ (s : MapSet A) where
  open s use {Set, new_set, add, contains, intersect, difference, iter}

  -- A new set to which a loop adds the elements of a list.
  unfoldable pub add_all : Set → List A → Set
  add_all set [] = set
  add_all set (a ∷ xs) = add_all (add a set) xs

  unfoldable pub set_of : List A → Set
  unfolding add_all
  set_of xs = add_all new_set xs

  unfoldable pub deduplicate : List A → List A
  unfolding set_of
  deduplicate xs = iter (set_of xs)

  unfoldable pub intersect_lists : List A → List A → List A
  unfolding set_of
  intersect_lists d1 d2 = iter (intersect (set_of d1) (set_of d2))

  unfoldable pub diff_lists : List A → List A → List A
  unfolding set_of
  diff_lists d1 d2 = iter (difference (set_of d1) (set_of d2))

  -- The loop of MergeLayers over the new elements: the set holds what the list holds.
  unfoldable pub merge_loop : Set → List A → List A → List A
  merge_loop set l [] = l
  merge_loop set l (x ∷ xs) =
      let seen = merge_loop set l xs in
      let unseen = merge_loop (add x set) (l ++ x ∷ []) xs in
      if contains set x then seen else unseen

  unfoldable pub merge_lists : List A → List A → List A
  unfolding set_of merge_loop
  merge_lists l new = merge_loop (set_of l) l new

unfoldable pub deduplicate_namespaces : MapSet Namespace → List Namespace → List Namespace
unfolding deduplicate
deduplicate_namespaces s namespaces = deduplicate s namespaces

unfoldable pub convert_feature_set_to_features : (s : MapSet Feature) → s.Set → List Feature
convert_feature_set_to_features s features = s.iter features

unfoldable pub deduplicate_features : MapSet Feature → List Feature → List Feature
unfolding set_of convert_feature_set_to_features
deduplicate_features s features = convert_feature_set_to_features s (set_of s features)

unfoldable pub intersect_detectors : MapSet Detector → List Detector → List Detector → List Detector
unfolding intersect_lists
intersect_detectors s d1 d2 = intersect_lists s d1 d2

unfoldable pub diff_detectors : MapSet Detector → List Detector → List Detector → List Detector
unfolding diff_lists
diff_detectors s d1 d2 = diff_lists s d1 d2

-- The three sets of MergeLayers.
pub record LayerSets : Type 1 where
  pub features : MapSet LayerFeature
  pub namespaces : MapSet LayerNamespace
  pub detectors : MapSet Detector

-- MergeLayers(l, new): the layer l behind the call.
unfoldable pub merge_layers : LayerSets → Layer → Layer → Layer
merge_layers s l new = record l {
  features = merge_lists s.features l.features new.features;
  namespaces = merge_lists s.namespaces l.namespaces new.namespaces;
  by = merge_lists s.detectors l.by new.by;
}
