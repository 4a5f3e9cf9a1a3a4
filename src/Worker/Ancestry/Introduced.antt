-- ===== src/Worker/Ancestry/Introduced.antt =====
-- Where the features of an ancestry come from.
use clair.Database.{
  Detector, Feature, LayerNamespace, LayerFeature, Layer, AncestryFeature, detector_eq,
  layer_namespace_eq, layer_feature_eq,
}
use clair.Database.Sets.{MapSet}
use clair.Worker.Ancestry.{
  IntroducedFeature, FeatureMap, FormatMap, NamespaceMap, feature_id, add_namespaces, inherited,
  introduce, or_empty, or_introduced, add_feature, add_features, replace_formats,
}
use clair.Prelude.{
  ℕ, suc, ◌≤◌, Bool, true, false, none, some, Option-cases, Bool-cases, inl, inr, List, [], ◌∷◌,
  Bytes, bytes_eq, All, All-put, All-get, get, put, get_elem?, elem, ===-refl, ◌⊎◌, ◌≡◌, refl,
  arith, ◌∙◌, sym, subst,
}

-- A layer up to number i holds this namespace.
abbrev pub NamespaceSeen : List Layer → ℕ → LayerNamespace → Type 0
NamespaceSeen layers i ns =
    (j : ℕ) × (l : Layer) × (j ≤ i) × (get_elem? layers j ≡ some l) × (elem ns l.namespaces ≡ true)

-- The feature as the layer holds it, and its namespace.
abbrev pub found_feature : AncestryFeature → LayerFeature
found_feature f = record { feature = f.namespaced_feature.feature; by = f.feature_by }

abbrev pub found_namespace : AncestryFeature → LayerNamespace
found_namespace f = record { namespace = f.namespaced_feature.namespace; by = f.namespace_by }

-- Layer number i holds the feature, a layer up to i holds its namespace, both were found by detectors
-- in `common`, and the two have one version format.
pub record IsFrom (layers : List Layer) (common : Detector → Bool) (i : ℕ) (f : AncestryFeature)
    : Type 0 where
  pub in_layer :
      (l : Layer) × (get_elem? layers i ≡ some l) × (elem (found_feature f) l.features ≡ true)
  pub feature_common : common f.feature_by ≡ true
  pub namespace_common : common f.namespace_by ≡ true
  pub namespace_seen : NamespaceSeen layers i (found_namespace f)
  pub same_format :
      f.namespaced_feature.namespace.version_format ≡ f.namespaced_feature.feature.version_format

module _ (s : MapSet Detector) (common : s.Set) (layers : List Layer) where
  abbrev pub From : ℕ → AncestryFeature → Type 0
  From = IsFrom layers (s.contains common)

  abbrev pub GoodNamespace : ℕ → Bytes → LayerNamespace → Type 0
  GoodNamespace i vf ns =
      (ns.namespace.version_format ≡ vf)
      × (s.contains common ns.by ≡ true)
      × NamespaceSeen layers i ns

  abbrev pub GoodNamespaces : ℕ → NamespaceMap → Type 0
  GoodNamespaces i m = All (λ (x : Bytes × LayerNamespace). GoodNamespace i x.0 x.1) m

  abbrev pub GoodEntry : Bytes → IntroducedFeature → Type 0
  GoodEntry id e = From e.layer_index e.feature

  abbrev pub GoodFeatures : Bytes → FeatureMap → Type 0
  GoodFeatures vf m = All (λ (x : Bytes × IntroducedFeature). GoodEntry x.0 x.1) m

  abbrev pub GoodFormats : FormatMap → Type 0
  GoodFormats m = All (λ (x : Bytes × FeatureMap). GoodFeatures x.0 x.1) m

  pub GoodNamespaces-next :
      (i : ℕ) (m : NamespaceMap) → GoodNamespaces i m → GoodNamespaces (suc i) m
  GoodNamespaces-next i [] h = tt
  GoodNamespaces-next i ((vf, ns) ∷ m) h =
      let (e, c, (j, l, le, at, mem)) = h.0 in
      ((e, c, (j, l, omega arith, at, mem)), GoodNamespaces-next i m h.1)

  module _ (i : ℕ) (l : Layer) (here : get_elem? layers i ≡ some l) where
    pub add_namespaces-Good :
        (m : NamespaceMap) (rest : List LayerNamespace)
        → ((n : LayerNamespace) → elem n rest ≡ true → elem n l.namespaces ≡ true)
        → GoodNamespaces i m
        → GoodNamespaces i (add_namespaces s common m rest)
    unfolding add_namespaces
    add_namespaces-Good m [] k h = h
    add_namespaces-Good m (ns ∷ rest) k h = elim (Bool-cases (s.contains common ns.by)) [
      | inl c ↦ rw c (
          add_namespaces-Good (put ns.namespace.version_format ns m) rest
            (λ n e. k n (ground arith))
            (All-put (GoodNamespace i) ns.namespace.version_format ns m h
              (refl, c, (i, l, omega arith, here, k ns (ground (arith, ===-refl ns))))))
      | inr c ↦ rw c (add_namespaces-Good m rest (λ n e. k n (ground arith)) h)
    ]

    introduce-Good :
        (ns : LayerNamespace) (f : LayerFeature)
        → GoodNamespace i f.feature.version_format ns
        → s.contains common f.by ≡ true
        → elem f l.features ≡ true
        → From i (introduce s common ns f i).feature
    introduce-Good ns f h c m = record {
      in_layer = (l, here, m);
      feature_common = c;
      namespace_common = h.1;
      namespace_seen = h.2;
      same_format = h.0;
    }

    inherited-Good :
        (features : FormatMap) (f : Feature) (e : IntroducedFeature)
        → GoodFormats features
        → inherited s common features f ≡ some e
        → From e.layer_index e.feature
    inherited-Good features f e h k = elim (Option-cases (get f.version_format features)) [
      | inl x ↦ absurd (unfold inherited in ground (arith, x))
      | inr (m, x) ↦
          All-get GoodEntry (feature_id f) e m
            (All-get GoodFeatures f.version_format m features h x)
            (unfold inherited in ground (arith, x))
    ]

    or_introduced-Good :
        (features : FormatMap) (f : Feature) (new : IntroducedFeature)
        → GoodFormats features
        → From new.layer_index new.feature
        → GoodEntry (feature_id f) (or_introduced s common (inherited s common features f) new)
    or_introduced-Good features f new h k = elim (Option-cases (inherited s common features f)) [
      | inl e ↦ rw e k
      | inr (x, e) ↦ rw e (inherited-Good features f x h e)
    ]

    or_empty-Good :
        (vf : Bytes) (current : FormatMap)
        → GoodFormats current
        → GoodFeatures vf (or_empty s common (get vf current))
    or_empty-Good vf current h = elim (Option-cases (get vf current)) [
      | inl e ↦ rw e tt
      | inr (m, e) ↦ rw e (All-get GoodFeatures vf m current h e)
    ]

    add_feature-Good :
        (current : FormatMap) (f : Feature) (e : IntroducedFeature)
        → GoodFormats current
        → GoodEntry (feature_id f) e
        → GoodFormats (add_feature s common current f e)
    unfolding add_feature
    add_feature-Good current f e h k =
        All-put GoodFeatures f.version_format _ current h
          (All-put GoodEntry (feature_id f) e _ (or_empty-Good f.version_format current h) k)

    add_features-skip :
        (namespaces : NamespaceMap) (features current : FormatMap) (f : LayerFeature)
        (rest : List LayerFeature)
        → s.contains common f.by ≡ false
        → add_features s common namespaces features i current (f ∷ rest)
          ≡ add_features s common namespaces features i current rest
    unfolding add_features
    add_features-skip namespaces features current f rest c = ground (arith, c)

    add_features-next :
        (namespaces : NamespaceMap) (features current : FormatMap) (f : LayerFeature)
        (rest : List LayerFeature) (ns : LayerNamespace)
        → s.contains common f.by ≡ true
        → get f.feature.version_format namespaces ≡ some ns
        → add_features s common namespaces features i current (f ∷ rest)
          ≡ add_features s common namespaces features i
              (add_feature s common current f.feature (
                or_introduced s common
                  (inherited s common features f.feature)
                  (introduce s common ns f i)))
              rest
    unfolding add_features
    add_features-next namespaces features current f rest ns c x = ground (arith, c, x)

    pub add_features-Good :
        (namespaces : NamespaceMap) (features : FormatMap) (current : FormatMap)
        (rest : List LayerFeature) (after : FormatMap)
        → GoodNamespaces i namespaces
        → GoodFormats features
        → GoodFormats current
        → ((f : LayerFeature) → elem f rest ≡ true → elem f l.features ≡ true)
        → add_features s common namespaces features i current rest ≡ some after
        → GoodFormats after
    add_features-Good namespaces features current [] after n g h k e =
        unfold add_features in let q : current ≡ after = cc e in subst (λ m. GoodFormats m) q h
    add_features-Good namespaces features current (f ∷ rest) after n g h k e =
        go (Bool-cases (s.contains common f.by))
          (Option-cases (get f.feature.version_format namespaces))
          (λ current'. add_features-Good namespaces features current' rest after n g)
      where
        go :
            ((s.contains common f.by ≡ true) ⊎ (s.contains common f.by ≡ false))
            → ((get f.feature.version_format namespaces ≡ none)
                ⊎ ((ns : LayerNamespace) × (get f.feature.version_format namespaces ≡ some ns)))
            → ((current' : FormatMap)
                → GoodFormats current'
                → ((x : LayerFeature) → elem x rest ≡ true → elem x l.features ≡ true)
                → add_features s common namespaces features i current' rest ≡ some after
                → GoodFormats after)
            → GoodFormats after
        go (inr c) _ ih =
            ih current h (λ x m. k x (ground arith))
              (sym (add_features-skip namespaces features current f rest c) ∙ e)
        go (inl c) (inl x) ih = absurd (unfold add_features in ground (arith, c, x, e))
        go (inl c) (inr (ns, x)) ih =
            ih
              (add_feature s common current f.feature (
                or_introduced s common (inherited s common features f.feature)
                  (introduce s common ns f i)))
              (add_feature-Good current f.feature _ h (
                or_introduced-Good features f.feature (introduce s common ns f i) g (
                  introduce-Good ns f
                    (All-get (GoodNamespace i) f.feature.version_format ns namespaces n x) c
                    (k f (ground (arith, ===-refl f))))))
              (λ y m. k y (ground arith))
              (sym (add_features-next namespaces features current f rest ns c x) ∙ e)

  pub replace_formats-Good :
      (features current : FormatMap)
      → GoodFormats features
      → GoodFormats current
      → GoodFormats (replace_formats s common features current)
  unfolding replace_formats
  replace_formats-Good features [] h k = h
  replace_formats-Good features ((vf, m) ∷ current) h k =
      replace_formats-Good (put vf m features) current (All-put GoodFeatures vf m features h k.0)
        k.1
