-- ===== src/VulnSrc/Debian/Accepted.antt =====
-- What a round of parseDebianJSON of ext/vulnsrc/debian/debian.go stores.
use clair.GoLib.{has_prefix}
use clair.Database.{AffectedFeature, VulnerabilityWithAffected}
use clair.Database.Severity
use clair.Database.Severity.Known.{
  unknown-valid, negligible-valid, low-valid, medium-valid, high-valid,
}
use clair.Updater.Namespacing.{feature_malformed}
use clair.VersionFmt.Errors.{VersionError, max_version_text}
use clair.VersionFmt.Driver.{Parsers, valid}
use clair.VersionFmt.Dpkg
use clair.VulnSrc.Debian.{
  JsonRel, JsonVuln, Parsed, severity_from_urgency, new_vulnerability, or_new, raise,
  fixed_version_of, version_of, package_of, store, passed_over, round_of, known_release,
}
use clair.Prelude.{
  Bytes, bytes_eq, Bool, if_either, true, false, ◌||◌, Option, none, some, List, [], ◌∷◌, ◌++◌,
  codes, get, put, is_empty, All, All-append, All-put, All-get, ◌===◌, Outcome, ok, err, panic,
  hang, >>=-ok, ◌≡◌, refl, ap, ◌∙◌, subst, arith, Bool-cases, ◌⊎◌, inl, inr,
}

-- The version is the greatest one, or dpkg's format accepts it; the updater keeps the feature unless
-- the name of its package is empty.
abbrev pub Fit : Parsers → AffectedFeature → Type 0
Fit parsers f =
    (feature_malformed f ≡ is_empty f.feature_name)
    × ((f.affected_version ≡ max_version_text)
        ⊎ (valid parsers Dpkg.parser_name f.affected_version ≡ ok true))

severity_from_urgency-valid : (u : Bytes) → Severity.valid (severity_from_urgency u) ≡ true
unfolding severity_from_urgency
severity_from_urgency-valid u =
    ground (arith, unknown-valid, negligible-valid, low-valid, medium-valid, high-valid)

module _ (parsers : Parsers) where
  -- What holds of a vulnerability under its name in the map.
  abbrev pub Named : Bytes → VulnerabilityWithAffected → Type 0
  Named name v =
      (v.vulnerability.name ≡ name)
      × (has_prefix name (codes "CVE-") ≡ true)
      × (Severity.valid v.vulnerability.severity ≡ true)
      × All (Fit parsers) v.affected

  -- It affects something, besides.
  abbrev pub Tracked : Bytes → VulnerabilityWithAffected → Type 0
  Tracked name v = (is_empty v.affected ≡ false) × Named name v

  -- A version that is taken.
  Taken : Bytes → Type 0
  Taken version =
      (is_empty version ≡ false)
      × ((version ≡ max_version_text) ⊎ (valid parsers Dpkg.parser_name version ≡ ok true))

  valid-true :
      (version : Bytes) (b : Bool) → valid parsers Dpkg.parser_name version ≡ ok b → b ≡ true
  unfolding valid
  valid-true version b e = ground arith

  fixed_version_of-Taken :
      {E : Type 0} (fixed version : Bytes) (m : Outcome VersionError Bool)
      → valid parsers Dpkg.parser_name fixed ≡ m
      → fixed_version_of {E = E} fixed m ≡ ok (some version)
      → Taken version
  unfolding Taken
  fixed_version_of-Taken fixed version (ok b) v e =
      elim (Bool-cases (fixed === codes "0" || is_empty fixed)) [
        | inl x ↦ absurd (cc (rw x at e))
        | inr x ↦
            let y : ok (some fixed) ≡ ok (some version) = rw x at e in
            let same : fixed ≡ version = cc in
            let accepted : valid parsers Dpkg.parser_name fixed ≡ ok true =
              v ∙ ap ok (valid-true fixed b v) in
            subst Taken same (ground arith, inr accepted)
      ]
  fixed_version_of-Taken fixed version (err _) v e = absurd (cc)
  fixed_version_of-Taken fixed version panic v e = absurd (cc)
  fixed_version_of-Taken fixed version hang v e = absurd (cc)

  version_of-Taken :
      {E : Type 0} (rel : JsonRel) (version : Bytes)
      → version_of {E = E} parsers rel ≡ ok (some version)
      → Taken version
  unfolding version_of Taken
  version_of-Taken {E} rel version e = elim (Bool-cases (rel.status === codes "open")) [
    | inl x ↦
        let y : ok (some max_version_text) ≡ ok (some version) = rw x at e in
        let same : max_version_text ≡ version = cc in subst Taken same (refl, inl refl)
    | inr x ↦ elim (Bool-cases (rel.status === codes "resolved")) [
      | inl y ↦
          fixed_version_of-Taken rel.fixed_version version
            (valid parsers Dpkg.parser_name rel.fixed_version) refl (rw (x, y) at e)
      | inr y ↦ absurd (cc (rw (x, y) at e))
    ]
  ]

  package_of-Fit :
      (pkg_name number version : Bytes)
      → Taken version
      → Fit parsers (package_of pkg_name number version)
  unfolding feature_malformed Taken
  package_of-Fit pkg_name number version (h, k) = (ground arith, k)

  raise-Named :
      (u name : Bytes) (v : VulnerabilityWithAffected)
      → Named name v
      → Named name (raise (severity_from_urgency u) v)
  unfolding raise
  raise-Named u name v h = if_either (Named name) _ (h.0, h.1, severity_from_urgency-valid u, h.3) h

  raise-affected : (s : Bytes) (v : VulnerabilityWithAffected) → (raise s v).affected ≡ v.affected
  unfolding raise
  raise-affected s v =
      if_either (λ (w : VulnerabilityWithAffected). w.affected ≡ v.affected) _ refl refl

  not_empty : (fs : List AffectedFeature) (f : AffectedFeature) → is_empty (fs ++ f ∷ []) ≡ false
  not_empty [] f = refl
  not_empty (x ∷ fs) f = refl

  abbrev pub AllTracked : Parsed → Type 0
  AllTracked p = All (λ (x : Bytes × VulnerabilityWithAffected). Tracked x.0 x.1) p.vulnerabilities

  add_package-AllTracked :
      (u : Bytes) (v : VulnerabilityWithAffected) (pkg_name vuln_name number version : Bytes)
      (p : Parsed)
      → Taken version
      → AllTracked p
      → Named vuln_name v
      → AllTracked (
          store none (raise (severity_from_urgency u) v) pkg_name vuln_name number (some version) p)
  unfolding store
  add_package-AllTracked u v pkg_name vuln_name number version p t h n =
      let raised = raise (severity_from_urgency u) v in
      let named = raise-Named u vuln_name v n in
      let package_lem = package_of-Fit pkg_name number version t in
      All-put Tracked vuln_name _ p.vulnerabilities h (
        not_empty raised.affected (package_of pkg_name number version),
        (
          named.0,
          named.1,
          named.2,
          All-append (Fit parsers) raised.affected (package_of pkg_name number version ∷ []) named.3
              (package_lem, tt),
        ),
      )

  store-AllTracked :
      (found : Option VulnerabilityWithAffected) (u : Bytes) (node : JsonVuln)
      (pkg_name vuln_name number : Bytes) (version : Option Bytes) (p : Parsed)
      → get vuln_name p.vulnerabilities ≡ found
      → has_prefix vuln_name (codes "CVE-") ≡ true
      → ((v : Bytes) → version ≡ some v → Taken v)
      → AllTracked p
      → AllTracked (
          store found
            (raise (severity_from_urgency u) (or_new found vuln_name node))
            pkg_name
            vuln_name
            number
            version
            p)
  unfolding store
  store-AllTracked none u node pkg_name vuln_name number none p g c t h = h
  store-AllTracked (some v) u node pkg_name vuln_name number none p g c t h =
      let tracked = All-get Tracked vuln_name v p.vulnerabilities h g in
      All-put Tracked vuln_name _ p.vulnerabilities h
        (ap is_empty (raise-affected _ v) ∙ tracked.0, raise-Named u vuln_name v tracked.1)
  store-AllTracked none u node pkg_name vuln_name number (some version) p g c t h =
      add_package-AllTracked u (new_vulnerability vuln_name node) pkg_name vuln_name number version
        p (t version refl) h (refl, c, unknown-valid, tt)
  store-AllTracked (some v) u node pkg_name vuln_name number (some version) p g c t h =
      add_package-AllTracked u v pkg_name vuln_name number version p (t version refl) h
        (All-get Tracked vuln_name v p.vulnerabilities h g).1

  round_of-AllTracked :
      {E : Type 0} (pkg_name vuln_name : Bytes) (node : JsonVuln) (rel : JsonRel) (number : Bytes)
      (p q : Parsed)
      → has_prefix vuln_name (codes "CVE-") ≡ true
      → AllTracked p
      → round_of {E = E} parsers pkg_name vuln_name node rel number p ≡ ok q
      → AllTracked q
  round_of-AllTracked {E} pkg_name vuln_name node rel number p q c h e =
      let (version, x, y) = >>=-ok (version_of {E = E} parsers rel) _ q e in
      let taken : (v : Bytes) → version ≡ some v → Taken v =
        λ v z. version_of-Taken rel v (x ∙ ap ok z) in
      let found = get vuln_name p.vulnerabilities in
      let same : store found
            (raise (severity_from_urgency rel.urgency) (or_new found vuln_name node)) pkg_name
            vuln_name number version p
          ≡ q =
        cc in
      subst AllTracked same
        (store-AllTracked found rel.urgency node pkg_name vuln_name number version p refl c taken h)

  pub known_release-AllTracked :
      {E : Type 0} (pkg_name vuln_name : Bytes) (node : JsonVuln) (release_name : Bytes)
      (rel : JsonRel) (number : Option Bytes) (p q : Parsed)
      → AllTracked p
      → known_release {E = E} parsers pkg_name vuln_name node release_name rel number p ≡ ok q
      → AllTracked q
  unfolding known_release
  known_release-AllTracked pkg_name vuln_name node release_name rel none p q h e =
      let same : record p { unknown_releases = put release_name tt p.unknown_releases } ≡ q = cc in
      subst AllTracked same h
  known_release-AllTracked {E} pkg_name vuln_name node release_name rel (some number) p q h e =
      elim (Bool-cases (passed_over vuln_name rel)) [
        | inl x ↦
            let y : ok p ≡ ok q = rw x at e in let same : p ≡ q = cc in subst AllTracked same h
        | inr x ↦
            let y : round_of {E = E} parsers pkg_name vuln_name node rel number p ≡ ok q =
              rw x at e in
            round_of-AllTracked pkg_name vuln_name node rel number p q (ground arith) h y
      ]
