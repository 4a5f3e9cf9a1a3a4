-- ===== src/Worker/Ancestry/Common.antt =====
-- The detectors and the layers of an ancestry that computeAncestryLayers of worker.go returns.
use clair.Database.{Detector, Layer, AncestryFeature, AncestryLayer, detector_eq}
use clair.Database.Sets.{MapSet}
use clair.Database.Dbutil.{set_of}
use clair.Database.Dbutil.Merge.{contains-set_of}
use clair.Worker.Ancestry.{
  FeatureMap, FormatMap, intersect_all, get_common_detectors, scan_layers, append_at, place,
  place_all, initialize, compute_ancestry_layers,
}
use clair.Prelude.{
  ℕ, zero, suc, ◌&&◌, some, Option-cases, inl, inr, List, [], ◌∷◌, Bytes, all, map, elem, MapOrder,
  ◌≡◌, refl, arith, ◌∙◌, ap,
}

module _ (s : MapSet Detector) where
  contains-intersect_all :
      (common : s.Set) (layers : List Layer) (d : Detector)
      → s.contains (intersect_all s common layers) d
        ≡ (s.contains common d && all (λ (l : Layer). elem d l.by) layers)
  unfolding intersect_all
  contains-intersect_all common [] d = ground arith
  contains-intersect_all common (l ∷ layers) d = ground (
    arith,
    contains-intersect_all (s.intersect common (set_of s l.by)) layers d,
    s.contains-intersect common (set_of s l.by) d,
    contains-set_of s l.by d,
  )

  -- getCommonDetectors gives the detectors that every layer names.
  pub contains-get_common_detectors :
      (first : Layer) (layers : List Layer) (d : Detector)
      → s.contains (get_common_detectors s first layers) d
        ≡ all (λ (l : Layer). elem d l.by) (first ∷ layers)
  unfolding get_common_detectors
  contains-get_common_detectors first layers d =
      contains-intersect_all (set_of s first.by) (first ∷ layers) d
      ∙ ground (arith, contains-set_of s first.by d)

abbrev pub hashes : List AncestryLayer → List Bytes
hashes ls = map (λ (l : AncestryLayer). l.hash) ls

hashes-append_at :
    (i : ℕ) (f : AncestryFeature) (ls : List AncestryLayer) → hashes (append_at i f ls) ≡ hashes ls
unfolding append_at
hashes-append_at i f [] = refl
hashes-append_at zero f (l ∷ ls) = refl
hashes-append_at (suc i) f (l ∷ ls) = ap (λ (t : List Bytes). l.hash ∷ t) (hashes-append_at i f ls)

hashes-place : (m : FeatureMap) (ls : List AncestryLayer) → hashes (place m ls) ≡ hashes ls
unfolding place
hashes-place [] ls = refl
hashes-place ((id, f) ∷ rest) ls =
    hashes-place rest (append_at f.layer_index f.feature ls)
    ∙ hashes-append_at f.layer_index f.feature ls

hashes-place_all :
    (o : MapOrder) (m : FormatMap) (ls : List AncestryLayer) → hashes (place_all o m ls) ≡ hashes ls
unfolding place_all
hashes-place_all o [] ls = refl
hashes-place_all o ((vf, m) ∷ rest) ls =
    hashes-place_all o rest (place (o.visit _ m) ls) ∙ hashes-place (o.visit _ m) ls

hashes-initialize :
    (layers : List Layer) → hashes (initialize layers) ≡ map (λ (l : Layer). l.hash) layers
unfolding initialize
hashes-initialize [] = refl
hashes-initialize (l ∷ layers) = ap (λ (t : List Bytes). l.hash ∷ t) (hashes-initialize layers)

-- What a computation that succeeds has gone through.
pub compute_ancestry_layers-ok :
    (o : MapOrder) (s : MapSet Detector) (first : Layer) (layers : List Layer)
    (ls : List AncestryLayer) (by : List Detector)
    → compute_ancestry_layers o s (first ∷ layers) ≡ some (ls, by)
    → (features : FormatMap) × (scan_layers s
          (get_common_detectors s first layers)
          0
          []
          []
          (first ∷ layers)
        ≡ some features)
      × (ls ≡ place_all o (o.visit _ features) (initialize (first ∷ layers)))
      × (by ≡ s.iter (get_common_detectors s first layers))
unfolding compute_ancestry_layers
compute_ancestry_layers-ok o s first layers ls by h =
    elim (Option-cases
      (scan_layers s (get_common_detectors s first layers) 0 [] [] (first ∷ layers))) [
        | inl e ↦ absurd (ground (arith, e))
        | inr (features, e) ↦ (features, e, ground (arith, e), ground (arith, e))
      ]

-- If an ancestry is computed, its layers have the hashes of the given layers in their order, and its
-- detectors are exactly those that ran on every layer.
pub compute_ancestry_layers_lem :
    (o : MapOrder) (s : MapSet Detector) (first : Layer) (layers : List Layer)
    (ls : List AncestryLayer) (by : List Detector)
    → compute_ancestry_layers o s (first ∷ layers) ≡ some (ls, by)
    → (hashes ls ≡ map (λ (l : Layer). l.hash) (first ∷ layers))
      × ((d : Detector) → elem d by ≡ all (λ (l : Layer). elem d l.by) (first ∷ layers))
compute_ancestry_layers_lem o s first layers ls by h =
    let (features, e, e1, e2) = compute_ancestry_layers-ok o s first layers ls by h in
    (
      ap hashes e1
          ∙ hashes-place_all o (o.visit _ features) (initialize (first ∷ layers))
          ∙ hashes-initialize (first ∷ layers),
      λ d. ap (elem d) e2 ∙ s.elem-iter _ d ∙ contains-get_common_detectors s first layers d,
    )
