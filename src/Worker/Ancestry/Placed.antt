-- ===== src/Worker/Ancestry/Placed.antt =====
-- The features of an ancestry that computeAncestryLayers of worker.go returns, and the layers they
-- stand in.
use clair.Database.{Detector, Layer, AncestryFeature, AncestryLayer, detector_eq}
use clair.Database.Sets.{MapSet}
use clair.Worker.Ancestry.{
  IntroducedFeature, FeatureMap, FormatMap, NamespaceMap, add_namespaces, add_features,
  replace_formats, scan_layers, append_at, place, place_all, initialize, get_common_detectors,
  compute_ancestry_layers,
}
use clair.Worker.Ancestry.Common.{compute_ancestry_layers-ok, contains-get_common_detectors}
use clair.Worker.Ancestry.Introduced.{
  IsFrom, From, GoodNamespaces, GoodEntry, GoodFormats, GoodNamespaces-next, add_namespaces-Good,
  add_features-Good, replace_formats-Good,
}
use clair.Prelude.{
  ℕ, zero, suc, ◌+◌, Option, none, some, List, [], ◌∷◌, ◌++◌, append_assoc, Bytes, all, All,
  All-append, visit-All, get_elem?, elem, length, length-append, MapOrder, ◌≡◌, refl, arith, ◌∙◌,
  sym, subst, fun_ext,
}

-- Each feature of the layers from number i on has the property, at the number of its layer.
abbrev pub LayersIn : (ℕ → AncestryFeature → Type 0) → ℕ → List AncestryLayer → Type 0
LayersIn P i [] = Unit
LayersIn P i (l ∷ ls) = All (P i) l.features × LayersIn P (suc i) ls

module _ (s : MapSet Detector) (common : s.Set) (layers : List Layer) where
  -- What is left of the layers from number i on.
  abbrev pub RestAt : ℕ → List Layer → Type 0
  RestAt i [] = Unit
  RestAt i (l ∷ rest) = (get_elem? layers i ≡ some l) × RestAt (suc i) rest

  abbrev Found : Option FormatMap → Type 0
  Found none = Unit
  Found (some m) = GoodFormats s common layers m

  scan_layers-Good :
      (rest : List Layer) (i : ℕ) (namespaces : NamespaceMap) (features : FormatMap)
      → RestAt i rest
      → GoodNamespaces s common layers i namespaces
      → GoodFormats s common layers features
      → Found (scan_layers s common i namespaces features rest)
  unfolding scan_layers
  scan_layers-Good [] i namespaces features r n g = g
  scan_layers-Good (l ∷ rest) i namespaces features r n g =
      go (add_features s common namespaces' features i [] l.features) refl (λ features' g'.
        scan_layers-Good rest (suc i) (add_namespaces s common namespaces l.namespaces) features'
          r.1
          (GoodNamespaces-next s common layers i (add_namespaces s common namespaces l.namespaces)
            (add_namespaces-Good s common layers i l r.0 namespaces l.namespaces (λ x m. m) n))
          g')
    where
      namespaces' : NamespaceMap
      namespaces' = add_namespaces s common namespaces l.namespaces

      good : GoodNamespaces s common layers i namespaces'
      good = add_namespaces-Good s common layers i l r.0 namespaces l.namespaces (λ x m. m) n

      go :
          (o : Option FormatMap)
          → add_features s common namespaces' features i [] l.features ≡ o
          → ((features' : FormatMap)
              → GoodFormats s common layers features'
              → Found (scan_layers s common (suc i) namespaces' features' rest))
          → Found (elim o [
            | none ↦ none
            | some current ↦
                scan_layers s common
                  (suc i)
                  namespaces'
                  (replace_formats s common features current)
                  rest
          ])
      go none e ih = tt
      go (some current) e ih = ih (replace_formats s common features current) (
          replace_formats-Good s common layers features current g (
            add_features-Good s common layers i l r.0 namespaces' features [] l.features current
              good g tt (λ x m. m) e))

  abbrev LayersFrom : ℕ → List AncestryLayer → Type 0
  LayersFrom = LayersIn (From s common layers)

  append_at-From :
      (k i j : ℕ) (f : AncestryFeature) (ls : List AncestryLayer)
      → i + k ≡ j
      → From s common layers j f
      → LayersFrom i ls
      → LayersFrom i (append_at k f ls)
  unfolding append_at
  append_at-From k i j f [] e h x = tt
  append_at-From zero i j f (l ∷ ls) e h x = (
    All-append _ l.features (f ∷ []) x.0
        (subst (λ n. From s common layers n f) (omega arith) h, tt),
    x.1,
  )
  append_at-From (suc k) i j f (l ∷ ls) e h x =
      (x.0, append_at-From k (suc i) j f ls (omega arith) h x.1)

  place-From :
      (m : FeatureMap) (ls : List AncestryLayer)
      → All (λ (x : Bytes × IntroducedFeature). GoodEntry s common layers x.0 x.1) m
      → LayersFrom 0 ls
      → LayersFrom 0 (place m ls)
  unfolding place
  place-From [] ls h x = x
  place-From ((id, f) ∷ rest) ls h x =
      place-From rest (append_at f.layer_index f.feature ls) h.1
        (append_at-From f.layer_index 0 f.layer_index f.feature ls (omega arith) h.0 x)

  place_all-From :
      (o : MapOrder) (m : FormatMap) (ls : List AncestryLayer)
      → GoodFormats s common layers m
      → LayersFrom 0 ls
      → LayersFrom 0 (place_all o m ls)
  unfolding place_all
  place_all-From o [] ls h x = x
  place_all-From o ((vf, m) ∷ rest) ls h x =
      place_all-From o rest (place (o.visit _ m) ls) h.1
        (place-From (o.visit _ m) ls (visit-All _ o m h.0) x)

  initialize-From : (i : ℕ) (given : List Layer) → LayersFrom i (initialize given)
  unfolding initialize
  initialize-From i [] = tt
  initialize-From i (l ∷ given) = (tt, initialize-From (suc i) given)

get_elem?-length :
    (done rest : List Layer) (l : Layer) → get_elem? (done ++ l ∷ rest) (length done) ≡ some l
get_elem?-length [] rest l = refl
get_elem?-length (x ∷ done) rest l = get_elem?-length done rest l

RestAt-done :
    (s : MapSet Detector) (common : s.Set) (layers done rest : List Layer) (i : ℕ)
    → layers ≡ done ++ rest
    → length done ≡ i
    → RestAt s common layers i rest
RestAt-done s common layers done [] i e h = tt
RestAt-done s common layers done (l ∷ rest) i e h = (
  rw (e, ← h) (get_elem?-length done rest l),
  RestAt-done s common layers (done ++ l ∷ []) rest (suc i)
      (e ∙ sym (append_assoc done (l ∷ []) rest)) (omega (arith, length-append {0} done (l ∷ []))),
)

-- If an ancestry is computed, each feature of its layer number i is held by the given layer number i,
-- its namespace by a given layer up to i, both found by detectors that ran on every layer, and the
-- two have one version format.
pub compute_ancestry_layers-IsFrom :
    (o : MapOrder) (s : MapSet Detector) (first : Layer) (layers : List Layer)
    (ls : List AncestryLayer) (by : List Detector)
    → compute_ancestry_layers o s (first ∷ layers) ≡ some (ls, by)
    → LayersIn
        (IsFrom (first ∷ layers) (λ d. all (λ (l : Layer). elem d l.by) (first ∷ layers)))
        0
        ls
compute_ancestry_layers-IsFrom o s first layers ls by h =
    let (features, e, e1, e2) = compute_ancestry_layers-ok o s first layers ls by h in
    let given = first ∷ layers in
    let common = get_common_detectors s first layers in
    let good =
      scan_layers-Good s common given given 0 [] []
        (RestAt-done s common given [] given 0 refl refl) tt tt in
    let found : GoodFormats s common given features = subst (λ m. Found s common given m) e good in
    subst (λ c. LayersIn (IsFrom given c) 0 ls)
      (fun_ext (contains-get_common_detectors s first layers))
      (subst (λ x. LayersIn (From s common given) 0 x) (sym e1)
        (place_all-From s common given o (o.visit _ features) (initialize given)
          (visit-All _ o features found) (initialize-From s common given 0 given)))
