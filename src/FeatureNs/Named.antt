-- ===== src/FeatureNs/Named.antt =====
-- What the namespaces that Detect of ext/featurens/driver.go returns have in common.
pub mod Releases
pub mod Redhat
use clair.Database.{
  Detector, Namespace, LayerNamespace, namespace_detector_type, new_namespace_detector,
}
use clair.FeatureFmt.{FilesMap}
use clair.FeatureNs.Shapes.{IsNamespace, AllNamed}
use clair.FeatureNs.Named.Releases.{
  os_release-AllNamed, lsb_release-AllNamed, alpine_release-AllNamed, apt_sources-AllNamed,
}
use clair.FeatureNs.Named.Redhat.{redhat_release-AllNamed}
use clair.FeatureNs.Driver.{Registered, Detectors, by_detector, use_detector, append_rest, detect}
use clair.FeatureNs.Builtin.{builtin, builtin_detectors}
use clair.Prelude.{
  Bytes, Bytes-discrete, ℕ_discrete, bytes_eq, Option, none, some, List, [], ◌∷◌, ◌++◌, codes, get,
  All, All-append, All-get, ◌===◌, Outcome, ok, err, panic, hang, ◌>>=◌, ◌≡◌, refl, ap, ◌∙◌, ◌⊎◌,
  false, true, Bool-cases, inl, inr, if◌then◌else◌, arith,
}

-- A detector that is no namespace detector, or has the name of one of the five.
abbrev pub Known : Detector → Type 0
Known d =
    ((d.dtype === namespace_detector_type) ≡ false)
    ⊎ ((r : Registered Bytes) × (get d.name builtin_detectors ≡ some r))

-- A namespace of the form that the formats need, by a namespace detector.
abbrev pub FromDetector : LayerNamespace → Type 0
FromDetector ln = IsNamespace ln.namespace × (ln.by.dtype ≡ namespace_detector_type)

module _ (files : FilesMap) where
  abbrev Answers : Registered Bytes → Type 0
  Answers r =
      (o : Option Namespace) × (r.detection.detect_in files ≡ ok o)
      × AllNamed o
      × (r.info.dtype ≡ namespace_detector_type)

  builtin_detectors-Answers : All (λ (x : Bytes × Registered Bytes). Answers x.1) builtin_detectors
  unfolding new_namespace_detector
  builtin_detectors-Answers = (
    (_, refl, os_release-AllNamed files, refl),
    (
      (_, refl, lsb_release-AllNamed files, refl),
      (
        (_, refl, redhat_release-AllNamed files, refl),
        (
          (_, refl, alpine_release-AllNamed files, refl),
          ((_, refl, apt_sources-AllNamed files, refl), tt),
        ),
      ),
    ),
  )

  by_detector-FromDetector :
      (info : Detector) (o : Option Namespace)
      → AllNamed o
      → info.dtype ≡ namespace_detector_type
      → All FromDetector (by_detector info o)
  by_detector-FromDetector info none h t = tt
  by_detector-FromDetector info (some n) h t = ((h n refl, t), tt)

  -- A detector that answers is followed by what the others find.
  detected :
      (d : Detector) (r : Registered Bytes) (o : Option Namespace)
      (rest : Outcome Bytes (List LayerNamespace)) (found : List LayerNamespace)
      → get d.name builtin_detectors ≡ some r
      → r.detection.detect_in files ≡ ok o
      → rest ≡ ok found
      → append_rest (use_detector files (get d.name builtin_detectors)) rest
        ≡ ok (by_detector r.info o ++ found)
  detected d r o rest found g x e =
      ap (λ u. append_rest u rest)
        (ap (use_detector files) g
          ∙ ap (λ (m : Outcome Bytes (Option Namespace)). m >>= λ n. ok (by_detector r.info n)) x)
      ∙ ap (append_rest (ok (by_detector r.info o))) e

  -- Detect over the five detectors returns, for detectors to use that are each one of the five or no
  -- namespace detector; and each namespace it returns is by a namespace detector, is named by a system
  -- and a version that is not empty, and has the version format of dpkg or of rpm.
  pub detect-FromDetector :
      (to_use : List Detector)
      → All Known to_use
      → (found : List LayerNamespace) × (detect {E = Bytes} builtin_detectors files to_use
          ≡ ok found)
        × All FromDetector found
  unfolding detect
  detect-FromDetector [] h = ([], refl, tt)
  detect-FromDetector (d ∷ to_use) (inl t, h) =
      let (found, e, all_found) = detect-FromDetector to_use h in (found, rw t e, all_found)
  detect-FromDetector (d ∷ to_use) (inr (r, g), h) =
      let (found, e, all_found) = detect-FromDetector to_use h in
      let (o, x, named, dtype) =
        All-get (λ k r. Answers r) d.name r builtin_detectors builtin_detectors-Answers g in
      elim (Bool-cases (d.dtype === namespace_detector_type)) [
        | inl t ↦ (
          by_detector r.info o ++ found,
          rw t (detected d r o _ found g x e),
          All-append FromDetector (by_detector r.info o) found
              (by_detector-FromDetector r.info o named dtype) all_found,
        )
        | inr t ↦ (found, rw t e, all_found)
      ]
