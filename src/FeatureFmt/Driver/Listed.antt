-- ===== src/FeatureFmt/Driver/Listed.antt =====
-- Which lister a feature of ext/featurefmt/driver.go comes from.
use clair.Database.{Detector, Feature, LayerFeature, feature_detector_type}
use clair.FeatureFmt.{FilesMap}
use clair.FeatureFmt.Driver.{Registered, Listers, by_lister, use_lister, list_features}
use clair.Prelude.{
  bytes_eq, Option, none, some, List, [], ◌∷◌, ◌++◌, get, All, All-append, All-weaken, In, ◌===◌,
  ===_iff, ok, >>=-ok, ◌≡◌, refl, subst, Bool-cases, inl, inr,
}

-- The feature was found by the lister of one of the detectors, of the type of feature detectors.
abbrev pub FoundBy : {E : Type 0} → Listers E → FilesMap → List Detector → LayerFeature → Type 0
FoundBy {E} listers files to_use lf =
    (d : Detector) × (r : Registered E) × In d to_use
    × (d.dtype ≡ feature_detector_type)
    × (get d.name listers ≡ some r)
    × (lf.by ≡ r.info)
    × (fs : List Feature) × (r.lister.list_features files ≡ ok fs)
    × In lf.feature fs

module _ {E : Type 0} (listers : Listers E) (files : FilesMap) where
  by_lister-FoundBy :
      (d : Detector) (r : Registered E) (to_use : List Detector) (all_fs fs : List Feature)
      → ((f : Feature) → In f fs → In f all_fs)
      → d.dtype ≡ feature_detector_type
      → get d.name listers ≡ some r
      → r.lister.list_features files ≡ ok all_fs
      → All (FoundBy listers files (d ∷ to_use)) (by_lister r.info fs)
  by_lister-FoundBy d r to_use all_fs [] i t g e = tt
  by_lister-FoundBy d r to_use all_fs (f ∷ fs) i t g e = (
    (d, r, inl refl, t, g, refl, all_fs, e, i f (inl refl)),
    by_lister-FoundBy d r to_use all_fs fs (λ h j. i h (inr j)) t g e,
  )

  use_lister-FoundBy :
      (d : Detector) (to_use : List Detector) (o : Option (Registered E))
      (found : List LayerFeature)
      → d.dtype ≡ feature_detector_type
      → get d.name listers ≡ o
      → use_lister files o ≡ ok found
      → All (FoundBy listers files (d ∷ to_use)) found
  use_lister-FoundBy d to_use none found t g e = absurd (cc)
  use_lister-FoundBy d to_use (some r) found t g e =
      let (fs, x, y) = >>=-ok (r.lister.list_features files) _ found e in
      let same : by_lister r.info fs ≡ found = cc in
      subst (All (FoundBy listers files (d ∷ to_use))) same
        (by_lister-FoundBy d r to_use fs fs (λ f i. i) t g x)

  FoundBy-more :
      (d : Detector) (to_use : List Detector) (lf : LayerFeature)
      → FoundBy listers files to_use lf
      → FoundBy listers files (d ∷ to_use) lf
  FoundBy-more d to_use lf (d2, r, i, t, g, b, fs, e, j) = (d2, r, inr i, t, g, b, fs, e, j)

  -- When ListFeatures returns, each of its features was found in the files by the lister that is
  -- registered under the name of a feature detector that was to be used, and is marked as found by the
  -- detector that the lister was registered with.
  pub list_features-FoundBy :
      (to_use : List Detector) (fs : List LayerFeature)
      → list_features listers files to_use ≡ ok fs
      → All (FoundBy listers files to_use) fs
  unfolding list_features
  list_features-FoundBy [] fs e =
      let same : [] ≡ fs = cc in subst (All (FoundBy listers files [])) same tt
  list_features-FoundBy (d ∷ to_use) fs e =
      let more = λ (found : List LayerFeature) (x : list_features listers files to_use ≡ ok found).
        All-weaken found (FoundBy-more d to_use) (list_features-FoundBy to_use found x) in
      elim (Bool-cases (d.dtype === feature_detector_type)) [
        | inl t ↦
            let (found, x, y) = >>=-ok (use_lister files (get d.name listers)) _ fs (rw t at e) in
            let (others, z, w) = >>=-ok (list_features listers files to_use) _ fs y in
            let same : found ++ others ≡ fs = cc in
            subst (All (FoundBy listers files (d ∷ to_use))) same (
              All-append _ found others
                (use_lister-FoundBy d to_use (get d.name listers) found
                  ((===_iff d.dtype feature_detector_type).0 t) refl x)
                (more others z))
        | inr t ↦ more fs (rw t at e)
      ]
