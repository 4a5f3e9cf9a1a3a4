-- ===== src/FeatureFmt/Driver.antt =====
-- ext/featurefmt/driver.go: the registry of feature listers. What the mutex listersM makes atomic is
-- one step here; the log's Fatal ends the process, and is a panic.
pub mod Listed
use clair.Database.{Detector, Feature, LayerFeature, feature_detector_type, new_feature_detector}
use clair.FeatureFmt.{FilesMap}
use clair.Prelude.{
  Bool, true, false, not, ◌||◌, Bytes, bytes_eq, Option, none, some, List, [], ◌∷◌, ◌++◌, map, get,
  put, is_empty, ◌===◌, if◌then◌else◌, MapOrder, Outcome, ok, err, panic, hang, ◌>>=◌,
}

pub record Lister (E : Type 0) : Type 0 where
  pub list_features : FilesMap → Outcome E (List Feature)
  pub required_filenames : List Bytes

pub record Registered (E : Type 0) : Type 0 where
  pub lister : Lister E
  pub info : Detector

abbrev pub Listers : Type 0 → Type 0
Listers E = List (Bytes × Registered E)

abbrev pub by_lister : Detector → List Feature → List LayerFeature
by_lister info fs = map (λ f. record { feature = f; by = info }) fs

module _ {E : Type 0} where
  abbrev pub add_lister :
      Option (Registered E) → Bytes → Bytes → Lister E → Listers E → Outcome E (Listers E)
  add_lister (some _) name version l listers = panic
  add_lister none name version l listers =
      ok (put name (record { lister = l; info = new_feature_detector name version }) listers)

  -- RegisterLister; a nil Lister is `none`.
  unfoldable pub register_lister :
      Bytes → Bytes → Option (Lister E) → Listers E → Outcome E (Listers E)
  register_lister name version none listers = panic
  register_lister name version (some l) listers =
      if is_empty name || is_empty version
      then panic
      else add_lister (get name listers) name version l listers

  abbrev pub use_lister : FilesMap → Option (Registered E) → Outcome E (List LayerFeature)
  use_lister files none = panic
  use_lister files (some r) = r.lister.list_features files >>= λ fs. ok (by_lister r.info fs)

  abbrev pub append_rest :
      Outcome E (List LayerFeature) → Outcome E (List LayerFeature) → Outcome E (List LayerFeature)
  append_rest m rest = m >>= λ fs. rest >>= λ more. ok (fs ++ more)

  -- ListFeatures: the loop over the detectors that are to be used.
  unfoldable pub list_features :
      Listers E → FilesMap → List Detector → Outcome E (List LayerFeature)
  list_features listers files [] = ok []
  list_features listers files (d ∷ to_use) =
      let rest = list_features listers files to_use in
      if d.dtype === feature_detector_type
      then append_rest (use_lister files (get d.name listers)) rest
      else rest

  -- A detector without a lister has a nil interface, whose method panics.
  abbrev pub filenames_of : Option (Registered E) → Outcome E (List Bytes)
  filenames_of none = panic
  filenames_of (some r) = ok r.lister.required_filenames

  abbrev append_names : Outcome E (List Bytes) → Outcome E (List Bytes) → Outcome E (List Bytes)
  append_names m rest = m >>= λ files. rest >>= λ more. ok (files ++ more)

  unfoldable pub required_filenames : Listers E → List Detector → Outcome E (List Bytes)
  required_filenames listers [] = ok []
  required_filenames listers (d ∷ to_use) =
      let rest = required_filenames listers to_use in
      if d.dtype === feature_detector_type
      then append_names (filenames_of (get d.name listers)) rest
      else rest

  unfoldable pub list_listers : MapOrder → Listers E → List Detector
  list_listers o listers =
      map (λ (x : Bytes × Registered E). x.1.info) (o.visit (Bytes × Registered E) listers)
