-- ===== src/VulnSrc/Rhel/Parse.antt =====
-- What parseRHSA of ext/vulnsrc/rhel/rhel.go finds.
use clair.Database.{AffectedFeature, VulnerabilityWithAffected}
use clair.Database.Severity
use clair.Database.Severity.Known.{
  unknown-valid, low-valid, medium-valid, high-valid, critical-valid,
}
use clair.VersionFmt.Driver.{Parsers}
use clair.VulnSrc.Oval.{Criteria, get_possibilities}
use clair.VulnSrc.Oval.Features.{Reading}
use clair.VulnSrc.Oval.Sound.{Sound, features-Whole}
use clair.VulnSrc.Oval.Accepted.{IsRpm, Accepted, Sound-Accepted}
use clair.VulnSrc.Rhel.{
  Definition, Cve, first_considered_rhel, ignored_criterions, prefix_len, mark, in_centos, locate,
  to_features, severity, rhsa_name, advisory, one_by_cve, only_rhsa, vulnerabilities_of,
  parse_definitions,
}
use clair.GoLib.{itoa}
use clair.Prelude.{
  Bytes, bytes_eq, if_either, true, false, List, [], ◌∷◌, ◌++◌, codes, is_empty, some, All,
  All-append, All-weaken, if◌then◌else◌, ℤ, ltb_ℤ, MapOrder, ok, >>=-ok, ◌≡◌, refl, subst, arith,
  Bool-cases, inl, inr,
}

-- The feature stands in a release of CentOS from 5 on.
abbrev pub OfCentos : AffectedFeature → Type 0
OfCentos f =
    (n : ℤ) × (f.namespace.name ≡ codes "centos:" ++ itoa n)
    × (ltb_ℤ n first_considered_rhel ≡ false)

severity-valid : (sev : Bytes) → Severity.valid (severity sev) ≡ true
unfolding severity
severity-valid sev =
    ground (arith, unknown-valid, low-valid, medium-valid, high-valid, critical-valid)

module _ (parsers : Parsers) where
  locate-Sound :
      (r : Reading) (f : AffectedFeature)
      → Sound parsers mark IsRpm r.feature_version
      → locate r ≡ some f
      → Sound parsers mark IsRpm f × OfCentos f
  unfolding locate
  locate-Sound r f h e = elim (Bool-cases (ltb_ℤ r.os_version first_considered_rhel)) [
    | inl x ↦ absurd (cc (rw x at e))
    | inr x ↦
        let located : some (in_centos r) ≡ some f = rw x at e in
        let same : in_centos r ≡ f = cc in
        subst (λ g. Sound parsers mark IsRpm g × OfCentos g) same (h, (r.os_version, refl, x))
  ]

  -- Each feature that toFeatures returns is one that the updater keeps, with a version that the
  -- format of RPM accepts, in a release of CentOS from 5 on.
  pub to_features-Accepted :
      {E : Type 0} (o : MapOrder) (node : Criteria) (fs : List AffectedFeature)
      → to_features {E = E} parsers o node ≡ ok fs
      → All (λ f. Accepted parsers f × OfCentos f) fs
  unfolding to_features
  to_features-Accepted o node fs e =
      All-weaken fs (λ f h. (Sound-Accepted parsers mark f h.0.0 h.1, h.0.1))
        (features-Whole parsers mark IsRpm (λ n. refl) locate
          (λ f. Sound parsers mark IsRpm f × OfCentos f) locate-Sound o prefix_len
          (get_possibilities ignored_criterions node) fs e)

  -- What holds of each vulnerability that parseRHSA returns: it affects something, and everything that
  -- it affects is accepted; its severity is one of the scale.
  abbrev pub Reported : VulnerabilityWithAffected → Type 0
  Reported v =
      (is_empty v.affected ≡ false)
      × All (λ f. Accepted parsers f × OfCentos f) v.affected
      × (Severity.valid v.vulnerability.severity ≡ true)

  one_by_cve-Reported :
      (def : Definition) (v : VulnerabilityWithAffected) (cves : List Cve)
      → Reported v
      → All Reported (one_by_cve def v cves)
  unfolding one_by_cve
  one_by_cve-Reported def v [] h = tt
  one_by_cve-Reported def v (cve ∷ cves) h = (
    (
      h.0,
      h.1,
      if_either (λ s. Severity.valid s ≡ true) (is_empty cve.impact) (severity-valid def.severity)
          (severity-valid cve.impact),
    ),
    one_by_cve-Reported def v cves h,
  )

  vulnerabilities_of-Reported :
      {E : Type 0} (def : Definition) (pkgs : List AffectedFeature)
      (vs : List VulnerabilityWithAffected)
      → All (λ f. Accepted parsers f × OfCentos f) pkgs
      → vulnerabilities_of {E = E} def pkgs ≡ ok vs
      → All Reported vs
  unfolding vulnerabilities_of
  vulnerabilities_of-Reported def [] vs h e =
      let same : [] ≡ vs = cc in subst (All Reported) same tt
  vulnerabilities_of-Reported {E} def (pkg ∷ pkgs) vs h e =
      let (name, _, x) = >>=-ok (rhsa_name def) _ vs e in
      let v = advisory def name (pkg ∷ pkgs) in
      let reported : Reported v = (refl, h, severity-valid def.severity) in
      let same : (if only_rhsa def.references then v ∷ [] else one_by_cve def v def.cves) ≡ vs =
        cc in
      subst (All Reported) same (
        if_either (All Reported) (only_rhsa def.references) (reported, tt)
          (one_by_cve-Reported def v def.cves reported))

  -- When parseRHSA returns, each of its vulnerabilities affects a feature and has a severity of the
  -- scale, and each feature it affects is one that the updater keeps, has a version that the format of
  -- RPM accepts, and stands in a release of CentOS from 5 on.
  pub parse_definitions-Reported :
      {E : Type 0} (o : MapOrder) (defs : List Definition) (vs : List VulnerabilityWithAffected)
      → parse_definitions {E = E} parsers o defs ≡ ok vs
      → All Reported vs
  unfolding parse_definitions
  parse_definitions-Reported o [] vs e = let same : [] ≡ vs = cc in subst (All Reported) same tt
  parse_definitions-Reported o (def ∷ defs) vs e =
      let (pkgs, x, e2) = >>=-ok (to_features parsers o def.criteria) _ vs e in
      let (found, y, e3) = >>=-ok (vulnerabilities_of def pkgs) _ vs e2 in
      let (rest, z, e4) = >>=-ok (parse_definitions parsers o defs) _ vs e3 in
      let same : found ++ rest ≡ vs = cc in
      subst (All Reported) same (
        All-append Reported found rest
          (vulnerabilities_of-Reported def pkgs found (to_features-Accepted o def.criteria pkgs x)
            y)
          (parse_definitions-Reported o defs rest z))
