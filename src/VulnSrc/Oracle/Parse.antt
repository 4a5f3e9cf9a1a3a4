-- ===== src/VulnSrc/Oracle/Parse.antt =====
-- What parseELSA of ext/vulnsrc/oracle/oracle.go finds.
use clair.Database.{Namespace, AffectedFeature, VulnerabilityWithAffected}
use clair.Database.Severity
use clair.Database.Severity.Known.{
  unknown-valid, negligible-valid, low-valid, medium-valid, high-valid, critical-valid,
}
use clair.VersionFmt.Driver.{Parsers}
use clair.VulnSrc.Oval.{Criteria, get_possibilities}
use clair.VulnSrc.Oval.Features.{Reading}
use clair.VulnSrc.Oval.Sound.{Sound, features-Whole}
use clair.VulnSrc.Oval.Accepted.{IsRpm, Accepted, Sound-Accepted}
use clair.VulnSrc.Oracle.{
  Definition, ignored_criterions, prefix_len, mark, in_oracle, locate, to_features, severity, name,
  advisory, vulnerabilities_of, parse_definitions,
}
use clair.GoLib.{itoa}
use clair.Prelude.{
  Bytes, bytes_eq, true, false, List, [], ◌∷◌, ◌++◌, codes, is_empty, some, All, All-append,
  All-weaken, ℤ, MapOrder, ok, >>=-ok, ◌≡◌, refl, subst, arith,
}

-- The feature stands in a release of Oracle Linux.
abbrev pub OfOracle : AffectedFeature → Type 0
OfOracle f = (n : ℤ) × (f.namespace.name ≡ codes "oracle:" ++ itoa n)

-- Nothing is known of the namespace while the comments are read.
abbrev AnyNamespace : Namespace → Type 0
AnyNamespace n = Unit

severity-valid : (sev : Bytes) → Severity.valid (severity sev) ≡ true
unfolding severity
severity-valid sev =
    ground
      (arith, unknown-valid, negligible-valid, low-valid, medium-valid, high-valid, critical-valid)

module _ (parsers : Parsers) where
  locate-Sound :
      (r : Reading) (f : AffectedFeature)
      → Sound parsers mark AnyNamespace r.feature_version
      → locate r ≡ some f
      → Sound parsers mark IsRpm f × OfOracle f
  unfolding locate
  locate-Sound r f h e =
      let same : in_oracle r ≡ f = cc in
      subst (λ g. Sound parsers mark IsRpm g × OfOracle g) same
        ((h.0, λ x. ((h.1 x).0, refl)), (r.os_version, refl))

  -- Each feature that toFeatures returns is one that the updater keeps, with a version that the
  -- format of RPM accepts, in a release of Oracle Linux.
  pub to_features-Accepted :
      {E : Type 0} (o : MapOrder) (node : Criteria) (fs : List AffectedFeature)
      → to_features {E = E} parsers o node ≡ ok fs
      → All (λ f. Accepted parsers f × OfOracle f) fs
  unfolding to_features
  to_features-Accepted o node fs e =
      All-weaken fs (λ f h. (Sound-Accepted parsers mark f h.0.0 h.1, h.0.1))
        (features-Whole parsers mark AnyNamespace (λ n. tt) locate
          (λ f. Sound parsers mark IsRpm f × OfOracle f) locate-Sound o prefix_len
          (get_possibilities ignored_criterions node) fs e)

  -- What holds of each vulnerability that parseELSA returns: it affects something, and everything that
  -- it affects is accepted; its severity is one of the scale.
  abbrev pub Published : VulnerabilityWithAffected → Type 0
  Published v =
      (is_empty v.affected ≡ false)
      × All (λ f. Accepted parsers f × OfOracle f) v.affected
      × (Severity.valid v.vulnerability.severity ≡ true)

  vulnerabilities_of-Published :
      {E : Type 0} (def : Definition) (pkgs : List AffectedFeature)
      (vs : List VulnerabilityWithAffected)
      → All (λ f. Accepted parsers f × OfOracle f) pkgs
      → vulnerabilities_of {E = E} def pkgs ≡ ok vs
      → All Published vs
  unfolding vulnerabilities_of
  vulnerabilities_of-Published def [] vs h e =
      let same : [] ≡ vs = cc in subst (All Published) same tt
  vulnerabilities_of-Published {E} def (pkg ∷ pkgs) vs h e =
      let (text, _, x) = >>=-ok (name def) _ vs e in
      let same : advisory def text (pkg ∷ pkgs) ∷ [] ≡ vs = cc in
      subst (All Published) same ((refl, h, severity-valid def.severity), tt)

  -- When parseELSA returns, each of its vulnerabilities affects a feature and has a severity of the
  -- scale, and each feature it affects is one that the updater keeps, has a version that the format of
  -- RPM accepts, and stands in a release of Oracle Linux.
  pub parse_definitions-Published :
      {E : Type 0} (o : MapOrder) (defs : List Definition) (vs : List VulnerabilityWithAffected)
      → parse_definitions {E = E} parsers o defs ≡ ok vs
      → All Published vs
  unfolding parse_definitions
  parse_definitions-Published o [] vs e = let same : [] ≡ vs = cc in subst (All Published) same tt
  parse_definitions-Published o (def ∷ defs) vs e =
      let (pkgs, x, e2) = >>=-ok (to_features parsers o def.criteria) _ vs e in
      let (found, y, e3) = >>=-ok (vulnerabilities_of def pkgs) _ vs e2 in
      let (rest, z, e4) = >>=-ok (parse_definitions parsers o defs) _ vs e3 in
      let same : found ++ rest ≡ vs = cc in
      subst (All Published) same (
        All-append Published found rest
          (vulnerabilities_of-Published def pkgs found (to_features-Accepted o def.criteria pkgs x)
            y)
          (parse_definitions-Published o defs rest z))
