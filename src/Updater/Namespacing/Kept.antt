-- ===== src/Updater/Namespacing/Kept.antt =====
-- What becomes of the features that doVulnerabilitiesNamespacing of updater.go is given.
use clair.Database.{AffectedFeature, Vulnerability, VulnerabilityWithAffected}
use clair.Updater.Namespacing.{
  VulnerabilityMap, feature_malformed, index_of, add_affected, with_feature, split_features,
  split_all, vulnerability_malformed, respond, do_vulnerabilities_namespacing,
}
use clair.Prelude.{
  true, false, Option, none, some, List, [], ◌∷◌, Bytes, bytes_eq, get, put, get-put, get-In, ◌===◌,
  ===_iff, ===-refl, MapOrder, visit-In, In, In-append_left, In-append_right, ◌≡◌, refl, ◌∙◌, ap,
  sym, subst, Bool-cases, ◌⊎◌, inl, inr,
}

-- The entry of the index holds the feature.
abbrev Held : VulnerabilityMap → Bytes → AffectedFeature → Type 0
Held m i fv = (w : VulnerabilityWithAffected) × (get i m ≡ some w) × In fv w.affected

abbrev insert : VulnerabilityMap → Vulnerability → AffectedFeature → VulnerabilityMap
insert m v fv =
    put (index_of fv.namespace v) (with_feature (get (index_of fv.namespace v) m) v fv) m

with_feature-In :
    (c : Option VulnerabilityWithAffected) (v : Vulnerability) (fv : AffectedFeature)
    → In fv (with_feature c v fv).affected
with_feature-In none v fv = inl refl
with_feature-In (some w) v fv = In-append_right fv w.affected (fv ∷ []) (inl refl)

insert-Held :
    (m : VulnerabilityMap) (v : Vulnerability) (fv : AffectedFeature)
    → Held (insert m v fv) (index_of fv.namespace v) fv
insert-Held m v fv =
    let i = index_of fv.namespace v in
    (
      with_feature (get i m) v fv,
      get-put i i _ m ∙ rw (===-refl i) refl,
      with_feature-In (get i m) v fv,
    )

Held-insert :
    (m : VulnerabilityMap) (v : Vulnerability) (g fv : AffectedFeature) (i : Bytes)
    → Held m i fv
    → Held (insert m v g) i fv
Held-insert m v g fv i (w, e, h) = elim (Bool-cases (index_of g.namespace v === i)) [
  | inl x ↦
      let same = (===_iff (index_of g.namespace v) i).0 x in
      (
        add_affected w g,
        get-put (index_of g.namespace v) i _ m ∙ rw (x, same, e) refl,
        In-append_left fv w.affected (g ∷ []) h,
      )
  | inr x ↦ (w, get-put (index_of g.namespace v) i _ m ∙ rw x e, h)
]

Held-features :
    (fvs : List AffectedFeature) (m : VulnerabilityMap) (v : Vulnerability) (fv : AffectedFeature)
    (i : Bytes)
    → Held m i fv
    → Held (split_features m v fvs) i fv
unfolding split_features
Held-features [] m v fv i h = h
Held-features (g ∷ fvs) m v fv i h =
    Held-features fvs _ v fv i (elim (Bool-cases (feature_malformed g)) [
      | inl e ↦ rw e h
      | inr e ↦ rw e (Held-insert m v g fv i h)
    ])

features-Held :
    (fvs : List AffectedFeature) (m : VulnerabilityMap) (v : Vulnerability) (fv : AffectedFeature)
    → In fv fvs
    → feature_malformed fv ≡ false
    → Held (split_features m v fvs) (index_of fv.namespace v) fv
unfolding split_features
features-Held [] m v fv h k = absurd h
features-Held (g ∷ fvs) m v fv (inl e) k =
    let here : feature_malformed g ≡ false = ap feature_malformed e ∙ k in
    Held-features fvs _ v fv _ (
      rw here (
        subst (λ f. Held (insert m v f) (index_of fv.namespace v) fv) (sym e) (insert-Held m v fv)))
features-Held (g ∷ fvs) m v fv (inr h) k = features-Held fvs _ v fv h k

Held-all :
    (us : List VulnerabilityWithAffected) (m : VulnerabilityMap) (fv : AffectedFeature) (i : Bytes)
    → Held m i fv
    → Held (split_all m us) i fv
unfolding split_all
Held-all [] m fv i h = h
Held-all (u ∷ us) m fv i h = Held-all us _ fv i (Held-features u.affected m u.vulnerability fv i h)

all-Held :
    (us : List VulnerabilityWithAffected) (m : VulnerabilityMap) (u : VulnerabilityWithAffected)
    (fv : AffectedFeature)
    → In u us
    → In fv u.affected
    → feature_malformed fv ≡ false
    → Held (split_all m us) (index_of fv.namespace u.vulnerability) fv
unfolding split_all
all-Held [] m u fv h f k = absurd h
all-Held (v ∷ us) m u fv (inl e) f k = Held-all us _ fv _ (
    subst
      (λ (x : VulnerabilityWithAffected).
        Held (split_features m x.vulnerability x.affected) (index_of fv.namespace u.vulnerability)
          fv)
      (sym e) (features-Held u.affected m u.vulnerability fv f k))
all-Held (v ∷ us) m u fv (inr h) f k = all-Held us _ u fv h f k

respond-In :
    (m : VulnerabilityMap) (i : Bytes) (w : VulnerabilityWithAffected)
    → In (i, w) m
    → (vulnerability_malformed w.vulnerability ≡ true) ⊎ In w (respond m)
unfolding respond
respond-In [] i w h = absurd h
respond-In ((j, v) ∷ m) i w (inl e) = elim (Bool-cases (vulnerability_malformed w.vulnerability)) [
  | inl x ↦ inl x
  | inr x ↦ inr (
      rw
        (ap (λ (y : Bytes × VulnerabilityWithAffected). vulnerability_malformed y.1.vulnerability) e
          ∙ x)
        (inl (ap (λ (y : Bytes × VulnerabilityWithAffected). y.1) e)))
]
respond-In ((j, v) ∷ m) i w (inr h) = elim (respond-In m i w h) [
  | inl x ↦ inl x
  | inr k ↦ elim (Bool-cases (vulnerability_malformed v.vulnerability)) [
    | inl e ↦ inr (rw e k)
    | inr e ↦ inr (rw e (inr k))
  ]
]

-- Each well formed feature that a given vulnerability affects is held by the entry of its index, the
-- namespace and the name, and that entry is in the result unless it is malformed.
pub do_vulnerabilities_namespacing_keeps :
    (o : MapOrder) (given : List VulnerabilityWithAffected) (u : VulnerabilityWithAffected)
    (fv : AffectedFeature)
    → In u given
    → In fv u.affected
    → feature_malformed fv ≡ false
    → (w : VulnerabilityWithAffected) × (get
          (index_of fv.namespace u.vulnerability)
          (split_all [] given)
        ≡ some w)
      × In fv w.affected
      × ((vulnerability_malformed w.vulnerability ≡ true)
          ⊎ In w (do_vulnerabilities_namespacing o given))
unfolding do_vulnerabilities_namespacing
do_vulnerabilities_namespacing_keeps o given u fv h f k =
    let (w, e, i) = all-Held given [] u fv h f k in
    (w, e, i, respond-In _ _ w (visit-In _ o _ (get-In _ w _ e)))
