-- ===== src/FeatureNs/Driver.antt =====
-- ext/featurens/driver.go: the registry of namespace detectors, and Detect. What the mutex detectorsM
-- makes atomic is one step here; the log's Fatal ends the process, and is a panic.
use clair.Database.{
  Detector, Namespace, LayerNamespace, namespace_detector_type, new_namespace_detector,
}
use clair.FeatureFmt.{FilesMap}
use clair.Prelude.{
  Bytes, bytes_eq, ◌||◌, Option, none, some, List, [], ◌∷◌, ◌++◌, map, get, put, is_empty, ◌===◌,
  if◌then◌else◌, MapOrder, Outcome, ok, panic, ◌>>=◌,
}

-- The interface Detector; a nil *Namespace is `none`.
pub record Detection (E : Type 0) : Type 0 where
  pub detect_in : FilesMap → Outcome E (Option Namespace)
  pub filenames : List Bytes

-- The struct detector.
pub record Registered (E : Type 0) : Type 0 where
  pub detection : Detection E
  pub info : Detector

abbrev pub Detectors : Type 0 → Type 0
Detectors E = List (Bytes × Registered E)

abbrev pub by_detector : Detector → Option Namespace → List LayerNamespace
by_detector info none = []
by_detector info (some n) = record { namespace = n; by = info } ∷ []

module _ {E : Type 0} where
  abbrev pub add_detector :
      Option (Registered E) → Bytes → Bytes → Detection E → Detectors E → Outcome E (Detectors E)
  add_detector (some _) name version d detectors = panic
  add_detector none name version d detectors =
      ok (put name (record { detection = d; info = new_namespace_detector name version }) detectors)

  -- RegisterDetector; a nil Detector is `none`.
  unfoldable pub register_detector :
      Bytes → Bytes → Option (Detection E) → Detectors E → Outcome E (Detectors E)
  register_detector name version none detectors = panic
  register_detector name version (some d) detectors =
      if is_empty name || is_empty version
      then panic
      else add_detector (get name detectors) name version d detectors

  abbrev pub use_detector : FilesMap → Option (Registered E) → Outcome E (List LayerNamespace)
  use_detector files none = panic
  use_detector files (some r) = r.detection.detect_in files >>= λ n. ok (by_detector r.info n)

  abbrev pub append_rest :
      Outcome E (List LayerNamespace)
      → Outcome E (List LayerNamespace)
      → Outcome E (List LayerNamespace)
  append_rest m rest = m >>= λ ns. rest >>= λ more. ok (ns ++ more)

  -- Detect: the loop over the detectors that are to be used.
  unfoldable pub detect : Detectors E → FilesMap → List Detector → Outcome E (List LayerNamespace)
  detect detectors files [] = ok []
  detect detectors files (d ∷ to_use) =
      let rest = detect detectors files to_use in
      if d.dtype === namespace_detector_type
      then append_rest (use_detector files (get d.name detectors)) rest
      else rest

  -- A name that is not registered has a nil interface, whose method panics.
  abbrev pub filenames_of : Option (Registered E) → Outcome E (List Bytes)
  filenames_of none = panic
  filenames_of (some r) = ok r.detection.filenames

  abbrev pub append_names : Outcome E (List Bytes) → Outcome E (List Bytes) → Outcome E (List Bytes)
  append_names m rest = m >>= λ files. rest >>= λ more. ok (files ++ more)

  unfoldable pub required_filenames : Detectors E → List Detector → Outcome E (List Bytes)
  required_filenames detectors [] = ok []
  required_filenames detectors (d ∷ to_use) =
      let rest = required_filenames detectors to_use in
      if d.dtype === namespace_detector_type
      then append_names (filenames_of (get d.name detectors)) rest
      else rest

  unfoldable pub list_detectors : MapOrder → Detectors E → List Detector
  list_detectors o detectors =
      map (λ (x : Bytes × Registered E). x.1.info) (o.visit (Bytes × Registered E) detectors)
