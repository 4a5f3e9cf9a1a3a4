-- ===== src/Updater/Namespacing/WellFormed.antt =====
-- What the namespacing of vulnerabilities gives.
use clair.Database.{AffectedFeature, Vulnerability, VulnerabilityWithAffected}
use clair.Updater.Namespacing.{
  VulnerabilityMap, feature_malformed, index_of, with_feature, split_features, split_all,
  vulnerability_malformed, respond, do_vulnerabilities_namespacing,
}
use clair.Prelude.{
  false, List, [], ◌∷◌, ◌++◌, Bytes, bytes_eq, is_empty, get, MapOrder, ◌≡◌, refl, Bool-cases,
  Option-cases, inl, inr, All, In, All-append, All-put, All-get, visit-All,
}

is_empty-append : (xs ys : List AffectedFeature) → is_empty ys ≡ false → is_empty (xs ++ ys) ≡ false
is_empty-append [] ys h = h
is_empty-append (x ∷ xs) ys h = refl

-- What the features of an entry w of the map are: well formed, and of a given vulnerability with the
-- same index.
abbrev pub Belongs : List VulnerabilityWithAffected → Vulnerability → AffectedFeature → Type 0
Belongs given w fv =
    (feature_malformed fv ≡ false)
    × ((u : VulnerabilityWithAffected) × In u given
        × In fv u.affected
        × (index_of fv.namespace u.vulnerability ≡ index_of w.namespace w))

-- A vulnerability that was split off a given one: all but the namespace is as given, and it has
-- features, which all belong to it.
abbrev pub IsSplit : List VulnerabilityWithAffected → VulnerabilityWithAffected → Type 0
IsSplit given w =
    ((u : VulnerabilityWithAffected) × In u given
      × (w.vulnerability ≡ record u.vulnerability { namespace = w.vulnerability.namespace }))
    × (is_empty w.affected ≡ false)
    × All (Belongs given w.vulnerability) w.affected

module _ (given : List VulnerabilityWithAffected) where
  abbrev Entry : Bytes → VulnerabilityWithAffected → Type 0
  Entry i w = (i ≡ index_of w.vulnerability.namespace w.vulnerability) × IsSplit given w

  abbrev Entries : VulnerabilityMap → Type 0
  Entries m = All (λ (x : Bytes × VulnerabilityWithAffected). Entry x.0 x.1) m

  module _ (u : VulnerabilityWithAffected) (from : In u given) where
    with_feature-Entry :
        (m : VulnerabilityMap) (fv : AffectedFeature)
        → Entries m
        → In fv u.affected
        → feature_malformed fv ≡ false
        → Entry
            (index_of fv.namespace u.vulnerability)
            (with_feature (get (index_of fv.namespace u.vulnerability) m) u.vulnerability fv)
    with_feature-Entry m fv h f ok =
        elim (Option-cases (get (index_of fv.namespace u.vulnerability) m)) [
          | inl e ↦
              let belongs : Belongs given (record u.vulnerability { namespace = fv.namespace }) fv =
                (ok, (u, from, f, refl)) in
              rw e (refl, ((u, from, refl), refl, (belongs, tt)))
          | inr (w, e) ↦
              let (i, (s, n, b)) = All-get Entry _ w m h e in
              rw e (
                i,
                (
                  s,
                  is_empty-append w.affected (fv ∷ []) refl,
                  All-append (Belongs given w.vulnerability) w.affected (fv ∷ []) b
                      ((ok, (u, from, f, i)), tt),
                ),
              )
        ]

    split_features-Entries :
        (fvs : List AffectedFeature) (m : VulnerabilityMap)
        → ((fv : AffectedFeature) → In fv fvs → In fv u.affected)
        → Entries m
        → Entries (split_features m u.vulnerability fvs)
    unfolding split_features
    split_features-Entries [] m sub h = h
    split_features-Entries (fv ∷ fvs) m sub h =
        split_features-Entries fvs _ (λ g k. sub g (inr k))
          (elim (Bool-cases (feature_malformed fv)) [
            | inl e ↦ rw e h
            | inr e ↦ rw e (All-put Entry _ _ m h (with_feature-Entry m fv h (sub fv (inl refl)) e))
          ])

  split_all-Entries :
      (us : List VulnerabilityWithAffected) (m : VulnerabilityMap)
      → ((u : VulnerabilityWithAffected) → In u us → In u given)
      → Entries m
      → Entries (split_all m us)
  unfolding split_all
  split_all-Entries [] m sub h = h
  split_all-Entries (u ∷ us) m sub h =
      split_all-Entries us _ (λ v k. sub v (inr k))
        (split_features-Entries u (sub u (inl refl)) u.affected m (λ fv k. k) h)

  respond-IsSplit :
      (m : VulnerabilityMap)
      → Entries m
      → All (λ w. (vulnerability_malformed w.vulnerability ≡ false) × IsSplit given w) (respond m)
  unfolding respond
  respond-IsSplit [] h = tt
  respond-IsSplit ((i, w) ∷ m) h = elim (Bool-cases (vulnerability_malformed w.vulnerability)) [
    | inl e ↦ rw e (respond-IsSplit m h.1)
    | inr e ↦ rw e ((e, h.0.1), respond-IsSplit m h.1)
  ]

-- Each vulnerability that the namespacing gives is well formed, is a given one but for its namespace,
-- and affects features, each of them well formed and affected by a given vulnerability with the same
-- index of namespace and name.
pub do_vulnerabilities_namespacing-IsSplit :
    (o : MapOrder) (given : List VulnerabilityWithAffected)
    → All
        (λ w. (vulnerability_malformed w.vulnerability ≡ false) × IsSplit given w)
        (do_vulnerabilities_namespacing o given)
unfolding do_vulnerabilities_namespacing
do_vulnerabilities_namespacing-IsSplit o given = respond-IsSplit given _ (
    visit-All (λ (x : Bytes × VulnerabilityWithAffected). Entry given x.0 x.1) o _
      (split_all-Entries given given [] (λ u k. k) tt))
