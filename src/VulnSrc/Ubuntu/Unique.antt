-- ===== src/VulnSrc/Ubuntu/Unique.antt =====
-- What parseUbuntuCVE of ext/vulnsrc/ubuntu/ubuntu.go keeps from line to line.
use clair.Database.{AffectedFeature}
use clair.Database.Severity
use clair.Updater.Namespacing.{feature_malformed}
use clair.VersionFmt.Errors.{VersionError, max_version_text}
use clair.VersionFmt.Driver.{Parsers}
use clair.VulnSrc.Ubuntu.Affects.{Capture}
use clair.VulnSrc.Ubuntu.Package.{noted_version, version_of, feature_of, key_of}
use clair.Prelude.{
  Bytes, bytes_eq, Bool, true, false, Option, none, some, List, [], ◌∷◌, ◌++◌, map, codes, get, put,
  get-put, elem, elem-append, Unique, Unique-append_one, is_empty, All, All-append, ◌===◌, Outcome,
  ok, err, panic, hang, >>=-ok, ◌≡◌, refl, sym, ap, ◌∙◌, subst, arith, Bool-cases, ◌⊎◌, inl, inr,
}
use clair.VulnSrc.Ubuntu.{Parsing, start, append_feature, if_new, add_feature, parse_release}

-- The updater keeps the feature unless its package has an empty name.
abbrev pub Kept : AffectedFeature → Type 0
Kept f = feature_malformed f ≡ is_empty f.feature_name

abbrev pub keys : Parsing → List Bytes
keys p = map key_of p.vulnerability.affected

pub record Inv (p : Parsing) : Type 0 where
  pub unique : Unique (keys p)
  pub seen : (k : Bytes) → get k p.unique_release ≡ none → elem k (keys p) ≡ false
  pub all_kept : All Kept p.vulnerability.affected
  pub graded :
      (p.vulnerability.vulnerability.severity ≡ [])
      ⊎ (Severity.valid p.vulnerability.vulnerability.severity ≡ true)

pub start-Inv : Inv start
start-Inv = record { unique = tt; seen = λ k e. refl; all_kept = tt; graded = inl refl }

-- What touches neither the features nor the set of their keys keeps the invariant.
pub details-Inv :
    (p r : Parsing)
    → p.vulnerability.affected ≡ r.vulnerability.affected
    → p.unique_release ≡ r.unique_release
    → (r.vulnerability.vulnerability.severity ≡ [])
      ⊎ (Severity.valid r.vulnerability.vulnerability.severity ≡ true)
    → Inv p
    → Inv r
details-Inv p r a u g h = record {
  unique = subst (λ (fs : List AffectedFeature). Unique (map key_of fs)) a h.unique;
  seen = λ k e.
      ap (λ (fs : List AffectedFeature). elem k (map key_of fs)) (sym a)
      ∙ h.seen k (ap (get k) u ∙ e);
  all_kept = subst (All Kept) a h.all_kept;
  graded = g;
}

map-append :
    (xs : List AffectedFeature) (f : AffectedFeature)
    → map key_of (xs ++ f ∷ []) ≡ map key_of xs ++ key_of f ∷ []
map-append [] f = refl
map-append (x ∷ xs) f = ap (λ l. key_of x ∷ l) (map-append xs f)

not_seen :
    (k j : Bytes) (l : List Bytes) (u : List (Bytes × Unit {0}))
    → (get j u ≡ none → elem j l ≡ false)
    → get j (put k tt u) ≡ none
    → elem j (l ++ k ∷ []) ≡ false
not_seen k j l u h x =
    let y = sym (get-put k j tt u) ∙ x in
    elim (Bool-cases (k === j)) [
      | inl z ↦ absurd (cc (rw z at y))
      | inr z ↦ elem-append j l (k ∷ []) ∙ rw (h (rw z at y), z) refl
    ]

append_feature-Inv :
    (f : AffectedFeature) (p : Parsing)
    → get (key_of f) p.unique_release ≡ none
    → Kept f
    → Inv p
    → Inv (append_feature f p)
append_feature-Inv f p e k h =
    let fs = p.vulnerability.affected in
    let same = map-append fs f in
    record {
      unique =
          subst Unique (sym same)
            (Unique-append_one (map key_of fs) (key_of f) h.unique (h.seen (key_of f) e));
      seen = λ j x.
          ap (elem j) same ∙ not_seen (key_of f) j (map key_of fs) p.unique_release (h.seen j) x;
      all_kept = All-append Kept fs (f ∷ []) h.all_kept (k, tt);
      graded = h.graded;
    }

feature_of-Kept :
    (md : Capture) (number version : Bytes)
    → is_empty version ≡ false
    → Kept (feature_of md number version)
unfolding feature_malformed
feature_of-Kept md number version h = ground arith

noted_version-ok :
    {E : Type 0} (note version : Bytes) (m : Outcome VersionError Bool)
    → noted_version {E = E} note m ≡ ok (some version)
    → note ≡ version
noted_version-ok note version (ok _) e = cc
noted_version-ok note version (err _) e = cc
noted_version-ok note version panic e = absurd (cc)
noted_version-ok note version hang e = absurd (cc)

-- A version that is taken is not empty.
version_of-not_empty :
    {E : Type 0} (parsers : Parsers) (md : Capture) (version : Bytes)
    → version_of {E = E} parsers md ≡ ok (some version)
    → is_empty version ≡ false
unfolding version_of
version_of-not_empty {E} parsers md version e = elim (Bool-cases (md.status === codes "released")) [
  | inl x ↦ elim (Bool-cases (is_empty md.note)) [
    | inl y ↦ absurd (cc (rw (x, y) at e))
    | inr y ↦
        let same = noted_version-ok {E = E} md.note version _ (rw (x, y) at e) in
        ap is_empty (sym same) ∙ y
  ]
  | inr x ↦
      let z : ok (some max_version_text) ≡ ok (some version) = rw x at e in
      let same : max_version_text ≡ version = cc in ap is_empty (sym same)
]

add_feature-Inv :
    (md : Capture) (number : Bytes) (version : Option Bytes) (p : Parsing)
    → ((v : Bytes) → version ≡ some v → is_empty v ≡ false)
    → Inv p
    → Inv (add_feature md number version p)
unfolding add_feature
add_feature-Inv md number none p n h = h
add_feature-Inv md number (some version) p n h = go (get (key_of f) p.unique_release) refl
  where
    f : AffectedFeature
    f = feature_of md number version

    go : (o : Option (Unit {0})) → get (key_of f) p.unique_release ≡ o → Inv (if_new o f p)
    go (some _) e = h
    go none e = append_feature-Inv f p e (feature_of-Kept md number version (n version refl)) h

pub parse_release-Inv :
    {E : Type 0} (parsers : Parsers) (md : Capture) (release : Bytes) (number : Option Bytes)
    (p q : Parsing)
    → Inv p
    → parse_release {E = E} parsers md release number p ≡ ok q
    → Inv q
parse_release-Inv parsers md release none p q h e =
    let same : record p { unknown_releases = put release tt p.unknown_releases } ≡ q = cc in
    subst Inv same
      (record { unique = h.unique; seen = h.seen; all_kept = h.all_kept; graded = h.graded })
parse_release-Inv {E} parsers md release (some number) p q h e =
    let (version, x, y) = >>=-ok (version_of {E = E} parsers md) _ q e in
    let same : add_feature md number version p ≡ q = cc in
    subst Inv same (
      add_feature-Inv md number version p (λ v z. version_of-not_empty parsers md v (x ∙ ap ok z))
        h)
