-- ===== src/Worker/Layers.antt =====
-- The processing of layers in worker.go, up to processLayers. The goroutines of processRequests each
-- write a result of their own, and all of them end before a result is read.
mod Detected
pub mod Scanned
use clair.Database.{
  Detector, Namespace, Feature, LayerNamespace, LayerFeature, Layer, layer_get_features,
  layer_get_namespaces, detector_eq, feature_eq, namespace_eq,
}
use clair.Database.Sets.{MapSet}
use clair.Database.Dbutil.{
  LayerSets, diff_detectors, merge_layers, deduplicate_features, deduplicate_namespaces,
}
use clair.Database.Session.{Datastore}
use clair.Database.Transactions.{
  Result, find_layer_and_rollback, persist_namespaces_and_commit, persist_features_and_commit,
  persist_partial_layer_and_commit,
}
use clair.Worker.Errors.{combine_errors}
use clair.Prelude.{
  Bool, true, false, Option, none, some, List, [], ◌∷◌, ◌++◌, map, Bytes, bytes_eq, get, put,
  MapOrder, Outcome, ok, err, panic, hang, ◌>>=◌, ◌⊎◌, inl, inr,
}

pub record LayerRequest : Type 0 where
  pub hash : Bytes
  pub path : Bytes
  pub headers : List (Bytes × Bytes)

pub record ProcessRequest : Type 0 where
  pub request : LayerRequest
  pub existing_layer : Layer
  pub detectors : List Detector

pub record ProcessResult (E : Type 0) : Type 0 where
  pub existing_layer : Layer
  pub new_layer_content : Layer
  pub error : Option E

-- The steps of detectContent that read an archive: extractRequiredFiles, featurens.Detect and
-- featurefmt.ListFeatures.
pub record Scanners (E : Type 0) : Type 1 where
  pub Files : Type 0
  pub extract_required_files : Bytes → ProcessRequest → E ⊎ Files
  pub detect : Files → List Detector → E ⊎ List LayerNamespace
  pub list_features : Files → List Detector → E ⊎ List LayerFeature

abbrev pub empty_layer : Bytes → List Detector → Layer
empty_layer hash by = record { hash = hash; by = by; namespaces = []; features = [] }

module _ {E : Type 0} (scanners : Scanners E) where
  open scanners use {Files, extract_required_files, detect, list_features}

  -- A failed step leaves what the steps in front of it have set.
  abbrev pub scan_features : Layer → E ⊎ List LayerFeature → Layer × Option E
  scan_features layer (inl e) = (layer, some e)
  scan_features layer (inr features) = (record layer { features = features }, none)

  abbrev pub scan_namespaces :
      Layer → List Detector → Files → E ⊎ List LayerNamespace → Layer × Option E
  scan_namespaces layer detectors files (inl e) = (layer, some e)
  scan_namespaces layer detectors files (inr namespaces) =
      scan_features (record layer { namespaces = namespaces }) (list_features files detectors)

  abbrev pub scan_files : Layer → List Detector → E ⊎ Files → Layer × Option E
  scan_files layer detectors (inl e) = (layer, some e)
  scan_files layer detectors (inr files) =
      scan_namespaces layer detectors files (detect files detectors)

  unfoldable pub detect_content : Bytes → ProcessRequest → ProcessResult E
  detect_content image_format req =
      let layer = empty_layer req.request.hash req.detectors in
      let (content, error) =
        scan_files layer req.detectors (extract_required_files image_format req) in
      record { existing_layer = req.existing_layer; new_layer_content = content; error = error }

abbrev pub RequestMap : Type 0
RequestMap = List (Bytes × ProcessRequest)

module _ (o : MapOrder) (d : Datastore) (detector_set : MapSet Detector)
    (enabled_detectors : List Detector) (scanners : Scanners d.Error) where
  open d use {Store, Error}

  abbrev pub ResultMap : Type 0
  ResultMap = List (Bytes × ProcessResult Error)

  -- The request of a layer that the store holds, or does not hold.
  abbrev pub request_of : LayerRequest → Option Layer → ProcessRequest
  request_of req none = record {
    request = req;
    existing_layer = empty_layer req.hash [];
    detectors = enabled_detectors;
  }
  request_of req (some layer) = record {
    request = req;
    existing_layer = layer;
    detectors = diff_detectors detector_set enabled_detectors layer.by;
  }

  unfoldable pub get_process_request : LayerRequest → Store → Outcome Error ProcessRequest
  get_process_request req store = do
    layer ← find_layer_and_rollback d req.hash store
    ok (request_of req layer)

  -- The first loop of processLayers.
  unfoldable pub get_process_requests :
      RequestMap → List LayerRequest → Store → Outcome Error RequestMap
  get_process_requests requests [] store = ok requests
  get_process_requests requests (r ∷ rest) store = do
    preq ← get_process_request r store
    get_process_requests (put r.hash preq requests) rest store

  unfoldable pub run_requests : Bytes → RequestMap → ResultMap
  run_requests image_format [] = []
  run_requests image_format ((hash, req) ∷ rest) =
      (hash, detect_content scanners image_format req) ∷ run_requests image_format rest

  -- The texts of the errors, a nil one included.
  abbrev pub text_of : Option Error → Option Bytes
  text_of none = none
  text_of (some e) = some (d.error_text e)

  abbrev pub error_of : Bytes × ProcessResult Error → Option Bytes
  error_of r = text_of r.1.error

  abbrev pub unless_error : Option Bytes → ResultMap → Outcome Error ResultMap
  unless_error none results = ok results
  unless_error (some text) results = err (d.new_error text)

  unfoldable pub process_requests : Bytes → RequestMap → Outcome Error ResultMap
  process_requests image_format to_detect =
      let results = run_requests image_format to_detect in
      unless_error (combine_errors (map error_of (o.visit (Bytes × ProcessResult Error) results)))
        results

  -- The features and the namespaces of all new contents.
  unfoldable pub all_features : ResultMap → List Feature
  all_features [] = []
  all_features ((hash, r) ∷ rest) = layer_get_features r.new_layer_content ++ all_features rest

  unfoldable pub all_namespaces : ResultMap → List Namespace
  all_namespaces [] = []
  all_namespaces ((hash, r) ∷ rest) =
      layer_get_namespaces r.new_layer_content ++ all_namespaces rest

  -- A call that fails ends the function that makes it.
  abbrev pub and_then : {A B : Type 0} → Result d A → (A → Store → Result d B) → Result d B
  and_then (ok a, store) next = next a store
  and_then (err e, store) next = (err e, store)
  and_then (panic, store) next = (panic, store)
  and_then (hang, store) next = (hang, store)

  unfoldable pub persist_layers : ResultMap → Store → Result d Unit
  persist_layers [] store = (ok tt, store)
  persist_layers ((hash, r) ∷ rest) store =
      and_then (persist_partial_layer_and_commit d r.new_layer_content store)
        (λ _. persist_layers rest)

  unfoldable pub persist_process_result :
      MapSet Feature → MapSet Namespace → ResultMap → Store → Result d Unit
  persist_process_result feature_set namespace_set results store =
      let visited = o.visit (Bytes × ProcessResult Error) results in
      and_then
        (persist_namespaces_and_commit d
          (deduplicate_namespaces namespace_set (all_namespaces visited)) store)
        (λ _ s.
          and_then
            (persist_features_and_commit d (deduplicate_features feature_set (all_features visited))
              s)
            (λ _. persist_layers visited))

  unfoldable pub get_process_result_layers : LayerSets → ResultMap → List (Bytes × Layer)
  get_process_result_layers sets [] = []
  get_process_result_layers sets ((hash, r) ∷ rest) =
      (hash, merge_layers sets r.existing_layer r.new_layer_content)
      ∷ get_process_result_layers sets rest

  -- completeLayers[r.Hash]: the zero layer on a missing key.
  abbrev pub or_zero : Option Layer → Layer
  or_zero none = empty_layer [] []
  or_zero (some layer) = layer

  unfoldable pub in_request_order : List (Bytes × Layer) → List LayerRequest → List Layer
  in_request_order complete [] = []
  in_request_order complete (r ∷ rest) =
      or_zero (get r.hash complete) ∷ in_request_order complete rest

  -- processLayers behind its calls of getProcessRequest and processRequests.
  abbrev pub store_results :
      LayerSets
      → MapSet Feature
      → MapSet Namespace
      → List LayerRequest
      → Store
      → Outcome Error ResultMap
      → Result d (List Layer)
  store_results sets feature_set namespace_set requests store (ok results) =
      and_then (persist_process_result feature_set namespace_set results store) (λ _ after.
        (ok (in_request_order (get_process_result_layers sets results) requests), after))
  store_results sets feature_set namespace_set requests store (err e) = (err e, store)
  store_results sets feature_set namespace_set requests store panic = (panic, store)
  store_results sets feature_set namespace_set requests store hang = (hang, store)

  unfoldable pub process_layers :
      LayerSets
      → MapSet Feature
      → MapSet Namespace
      → Bytes
      → List LayerRequest
      → Store
      → Result d (List Layer)
  process_layers sets feature_set namespace_set image_format requests store =
      store_results sets feature_set namespace_set requests store
        (get_process_requests [] requests store >>= process_requests image_format)
