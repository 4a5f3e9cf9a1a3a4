-- ===== src/Worker/Process.antt =====
-- ProcessAncestry, processAncestry and isAncestryProcessed of worker.go.
pub mod Processed
pub mod Again
use clair.Database.{
  Detector, Namespace, Feature, Layer, NamespacedFeature, Ancestry, AncestryLayer, detector_eq,
  feature_eq, namespace_eq, namespaced_feature_eq,
}
use clair.Database.Sets.{MapSet}
use clair.Database.Dbutil.{LayerSets, diff_detectors}
use clair.Database.Session.{Datastore}
use clair.Database.Transactions.{
  Result, find_ancestry_and_rollback, get_ancestry_features, persist_namespaced_features_and_commit,
  cache_related_vulnerability_and_commit, upsert_ancestry_and_commit,
}
use clair.Worker.Ancestry.{compute_ancestry_layers}
use clair.Worker.Layers.{LayerRequest, Scanners, process_layers, and_then}
use clair.Prelude.{
  Bool, true, false, Option, none, some, List, [], ◌∷◌, Bytes, codes, is_empty, MapOrder, Outcome,
  ok, err, panic, hang, ◌>>=◌, if◌then◌else◌,
}

-- The sets of the worker, one for each type.
pub record WorkerSets : Type 1 where
  pub layers : LayerSets
  pub detectors : MapSet Detector
  pub features : MapSet Feature
  pub namespaces : MapSet Namespace
  pub namespaced_features : MapSet NamespacedFeature

module _ (o : MapOrder) (d : Datastore) (sets : WorkerSets) (enabled_detectors : List Detector)
    (scanners : Scanners d.Error) where
  open d use {Store, Error}

  abbrev pub then_next : {A B : Type 0} → Result d A → (A → Store → Result d B) → Result d B
  then_next = and_then o d sets.detectors enabled_detectors scanners

  unfoldable pub is_processed : Option Ancestry → Bool
  is_processed none = false
  is_processed (some ancestry) =
      is_empty (diff_detectors sets.detectors enabled_detectors ancestry.by)

  unfoldable pub is_ancestry_processed : Bytes → Store → Outcome Error Bool
  is_ancestry_processed name store = do
    ancestry ← find_ancestry_and_rollback d name store
    ok (is_processed ancestry)

  -- processAncestry behind computeAncestryLayers: three sessions, each committed by itself.
  unfoldable pub persist_ancestry : Ancestry → Store → Result d Unit
  persist_ancestry ancestry store =
      let features = get_ancestry_features sets.namespaced_features ancestry in
      then_next (persist_namespaced_features_and_commit d features store) (λ _ s.
        then_next (cache_related_vulnerability_and_commit d features s)
          (λ _. upsert_ancestry_and_commit d ancestry))

  abbrev pub or_no_format :
      Bytes → Option (List AncestryLayer × List Detector) → Store → Result d Unit
  or_no_format name none store =
      (err (d.new_error (codes "No corresponding version format")), store)
  or_no_format name (some (layers, by)) store =
      persist_ancestry (record { name = name; by = by; layers = layers }) store

  unfoldable pub process_computed : Bytes → List Layer → Store → Result d Unit
  process_computed name layers store =
      or_no_format name (compute_ancestry_layers o sets.detectors layers) store

  -- ProcessAncestry behind the test whether the ancestry is processed.
  abbrev pub unless_processed :
      Bytes → Bytes → List LayerRequest → Outcome Error Bool → Store → Result d Unit
  unless_processed image_format name layer_request (err e) store = (err e, store)
  unless_processed image_format name layer_request panic store = (panic, store)
  unless_processed image_format name layer_request hang store = (hang, store)
  unless_processed image_format name layer_request (ok true) store = (ok tt, store)
  unless_processed image_format name layer_request (ok false) store =
      then_next
        (process_layers o d sets.detectors enabled_detectors scanners sets.layers sets.features
          sets.namespaces image_format layer_request store)
        (process_computed name)

  unfoldable pub process_ancestry : Bytes → Bytes → List LayerRequest → Store → Result d Unit
  process_ancestry image_format name layer_request store =
      if is_empty name
      then (err (d.new_error (codes "could not process a layer which does not have a name")), store)
      else if is_empty image_format
      then (
        err (d.new_error (codes "could not process a layer which does not have a format")),
        store,
      )
      else unless_processed image_format name layer_request (is_ancestry_processed name store) store
