-- ===== src/Tests/Layers.antt =====
-- The theorems on the processing of layers, at a request of one layer.
use clair.Database.{
  Detector, Layer, Ancestry, detector_eq, feature_eq, namespace_eq, layer_feature_eq,
  layer_namespace_eq, namespaced_feature_eq, Detector-discrete,
}
use clair.Database.Sets.{list_set}
use clair.Database.Dbutil.{
  LayerSets, set_of, add_all, deduplicate, deduplicate_features, deduplicate_namespaces,
  convert_feature_set_to_features, merge_layers, merge_lists, merge_loop,
}
use clair.Database.Session.{Datastore, AncestryLaws}
use clair.Database.Transactions.{
  find_layer_and_rollback, find_ancestry_and_rollback, persist_features_and_commit,
  persist_namespaces_and_commit, persist_partial_layer_and_commit,
  persist_namespaced_features_and_commit, cache_related_vulnerability_and_commit,
  upsert_ancestry_and_commit,
}
use clair.Worker.Errors.{combine_errors, error_texts}
use clair.Worker.Layers.{
  LayerRequest, Scanners, detect_content, get_process_request, get_process_requests, run_requests,
  process_requests, all_features, all_namespaces, persist_layers, persist_process_result,
  get_process_result_layers, in_request_order, process_layers,
}
use clair.Worker.Layers.Scanned.{AllScanned, FindsHash, process_layers-AllScanned}
use clair.Worker.Process.{WorkerSets, process_ancestry}
use clair.Worker.Process.Again.{Complete, process_ancestry-again}
use clair.Tests.Memory.{memory, ok_inj}
use clair.Prelude.{
  ℕ_discrete, Bytes-discrete, bytes_eq, map, none, Option, get-put, ===-refl, sym, ap, ◌∙◌, some,
  List, [], ◌∷◌, Bytes, codes, in_order, get, put, ok, inr, ◌≡◌, refl,
}

abbrev dpkg_detector : Detector
dpkg_detector = record { name = codes "dpkg"; version = codes "1.0"; dtype = codes "feature" }

abbrev enabled : List Detector
enabled = dpkg_detector ∷ []

-- Every archive is empty.
abbrev nothing_found : Scanners Bytes
nothing_found = record {
  Files = Unit;
  extract_required_files = λ f r. inr tt;
  detect = λ f ds. inr [];
  list_features = λ f ds. inr [];
}

abbrev sets : LayerSets
sets = record { features = list_set; namespaces = list_set; detectors = list_set }

abbrev request : LayerRequest
request = record { hash = codes "base"; path = codes "/base.tar"; headers = [] }

abbrev base : Layer
base = record { hash = codes "base"; by = enabled; namespaces = []; features = [] }

-- A layer that no detector has run on yet.
abbrev unscanned : Bytes → Layer
unscanned hash = record { hash = hash; by = []; namespaces = []; features = [] }

-- A store that finds such a layer under every hash.
abbrev all_layers : Datastore
all_layers = record memory { find_layer = λ h tx. ok (some (unscanned h)) }

all_layers-FindsHash : FindsHash in_order all_layers list_set enabled nothing_found
all_layers-FindsHash =
    λ hash tx l e. let same : unscanned hash ≡ l = cc e in ap (λ (m : Layer). m.hash) (sym same)

base-Processed :
    (process_layers in_order all_layers list_set enabled nothing_found sets list_set list_set
      (codes "docker")
      (request ∷ [])
      []).0
    ≡ ok (base ∷ [])
unfolding process_layers get_process_requests get_process_request find_layer_and_rollback
    process_requests run_requests detect_content combine_errors error_texts persist_process_result
    persist_layers persist_features_and_commit persist_namespaces_and_commit
    persist_partial_layer_and_commit get_process_result_layers in_request_order all_features
    all_namespaces deduplicate_features deduplicate_namespaces deduplicate
    convert_feature_set_to_features set_of add_all merge_layers merge_lists merge_loop get put
    Bytes-discrete ℕ_discrete Detector-discrete clair.Database.Dbutil.diff_detectors
    clair.Database.Sets.keep
base-Processed = refl

process_layers-AllScanned_example :
    AllScanned in_order all_layers list_set enabled nothing_found (request ∷ []) (base ∷ [])
process_layers-AllScanned_example =
    process_layers-AllScanned in_order all_layers list_set enabled nothing_found
      all_layers-FindsHash sets list_set list_set (codes "docker") (request ∷ []) [] (base ∷ [])
      base-Processed

abbrev worker_sets : WorkerSets
worker_sets = record {
  layers = sets;
  detectors = list_set;
  features = list_set;
  namespaces = list_set;
  namespaced_features = list_set;
}

-- Only the ancestries are kept.
abbrev ancestries : Datastore
ancestries = record {
  Store = List (Bytes × Ancestry);
  Tx = List (Bytes × Ancestry);
  Error = Bytes;
  new_error = λ t. t;
  error_text = λ t. t;
  begin = λ s. ok s;
  commit = λ tx. ok tx;
  upsert_ancestry = λ a tx. ok (put a.name a tx);
  find_ancestry = λ n tx. ok (get n tx);
  persist_detectors = λ d tx. ok tx;
  persist_features = λ f tx. ok tx;
  persist_namespaced_features = λ f tx. ok tx;
  cache_affected_namespaced_features = λ f tx. ok tx;
  persist_namespaces = λ n tx. ok tx;
  persist_layer = λ h f n b tx. ok tx;
  find_layer = λ h tx. ok none;
  insert_vulnerabilities = λ vs tx. ok tx;
  find_vulnerabilities = λ is tx. ok (map (λ i. none) is);
  delete_vulnerabilities = λ is tx. ok tx;
  find_key_value = λ k tx. ok none;
}

ancestry_found :
    (a : Ancestry) (tx upserted found_in s : List (Bytes × Ancestry)) (found : Option Ancestry)
    → put a.name a tx ≡ upserted
    → upserted ≡ s
    → s ≡ found_in
    → get a.name found_in ≡ found
    → found ≡ some a
ancestry_found a tx upserted found_in s found u c b g =
    sym g
    ∙ ap (get a.name) (sym (u ∙ c ∙ b))
    ∙ get-put a.name a.name a tx
    ∙ rw (===-refl a.name) refl

abbrev ancestry_laws : AncestryLaws ancestries
ancestry_laws = record {
  find-upsert = λ a tx upserted found_in s found u c b g. (
    a,
    ancestry_found a tx upserted found_in s found (ok_inj _ _ (ok _) refl u)
        (ok_inj _ _ (ok _) refl c) (ok_inj _ _ (ok _) refl b) (ok_inj _ _ (ok _) refl g),
    λ dt. refl,
  );
}

ancestries-FindsHash : FindsHash in_order ancestries list_set enabled nothing_found
ancestries-FindsHash = λ hash tx l e. absurd (cc e)

abbrev image : Ancestry
image = record {
  name = codes "image";
  by = enabled;
  layers = record { hash = codes "base"; features = [] } ∷ [];
}

image-Processed :
    process_ancestry in_order ancestries worker_sets enabled nothing_found
      (codes "docker")
      (codes "image")
      (request ∷ [])
      []
    ≡ (ok tt, (codes "image", image) ∷ [])
unfolding process_ancestry process_layers get_process_requests get_process_request
    find_layer_and_rollback process_requests run_requests detect_content combine_errors error_texts
    persist_process_result persist_layers persist_features_and_commit persist_namespaces_and_commit
    persist_partial_layer_and_commit get_process_result_layers in_request_order all_features
    all_namespaces deduplicate_features deduplicate_namespaces deduplicate
    convert_feature_set_to_features set_of add_all merge_layers merge_lists merge_loop get put
    Bytes-discrete ℕ_discrete Detector-discrete clair.Worker.Process.is_ancestry_processed
    find_ancestry_and_rollback clair.Worker.Process.is_processed
    clair.Worker.Process.process_computed clair.Worker.Ancestry.compute_ancestry_layers
    clair.Worker.Ancestry.scan_layers clair.Worker.Ancestry.add_features
    clair.Worker.Process.persist_ancestry clair.Worker.Ancestry.get_common_detectors
    clair.Worker.Ancestry.place_all clair.Database.Sets.keep clair.Worker.Ancestry.replace_formats
    clair.Worker.Ancestry.initialize persist_namespaced_features_and_commit
    cache_related_vulnerability_and_commit upsert_ancestry_and_commit
image-Processed = refl

image-Found :
    find_ancestry_and_rollback ancestries (codes "image") ((codes "image", image) ∷ [])
    ≡ ok (some image)
unfolding find_ancestry_and_rollback get Bytes-discrete ℕ_discrete
image-Found = refl

process_ancestry-again_example :
    Complete in_order ancestries worker_sets enabled nothing_found (some image)
    × (process_ancestry in_order ancestries worker_sets enabled nothing_found
          (codes "docker")
          (codes "image")
          (request ∷ [])
          ((codes "image", image) ∷ [])
        ≡ (ok tt, (codes "image", image) ∷ []))
process_ancestry-again_example =
    process_ancestry-again in_order ancestries worker_sets enabled nothing_found ancestry_laws
      ancestries-FindsHash (codes "docker") (codes "image") request [] []
      ((codes "image", image) ∷ []) (some image) image-Processed image-Found
