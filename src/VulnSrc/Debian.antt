-- ===== src/VulnSrc/Debian.antt =====
-- ext/vulnsrc/debian/debian.go: the security tracker of Debian. A map is an association list that is
-- visited in an order of Go's choice; a vulnerability that is in the map is changed through its
-- pointer, also where the rest of the round is passed over.
pub mod Update
pub mod Loops
pub mod Accepted
pub mod Parse
pub mod Severe
use clair.GoLib.{has_prefix}
use clair.Database.{
  Namespace, AffectedFeature, Vulnerability, VulnerabilityWithAffected, affect_source_package,
}
use clair.Database.Releases.{debian_releases_mapping}
use clair.Database.Severity
use clair.Database.Severity.{
  Severity, unknown_severity, negligible_severity, low_severity, medium_severity, high_severity,
}
use clair.VersionFmt.Errors.{VersionError, max_version_text}
use clair.VersionFmt.Driver.{Parsers, valid}
use clair.VersionFmt.Dpkg
use clair.Prelude.{
  Bytes, bytes_eq, Bool, not, ◌||◌, Option, none, some, List, [], ◌∷◌, ◌++◌, map, codes, any, get,
  put, is_empty, ◌===◌, if◌then◌else◌, pos, ltb_ℤ, MapOrder, Outcome, ok, err, panic, hang, ◌>>=◌,
}

pub record JsonRel : Type 0 where
  pub fixed_version : Bytes
  pub status : Bytes
  pub urgency : Bytes

pub record JsonVuln : Type 0 where
  pub description : Bytes
  pub releases : List (Bytes × JsonRel)

abbrev pub JsonData : Type 0
JsonData = List (Bytes × List (Bytes × JsonVuln))

abbrev pub cve_url_prefix : Bytes
cve_url_prefix = codes "https://security-tracker.debian.org/tracker"

abbrev is_one_of : Bytes → List Bytes → Bool
is_one_of s names = any (λ n. s === n) names

unfoldable pub severity_from_urgency : Bytes → Severity
severity_from_urgency urgency =
    if urgency === codes "not yet assigned"
    then unknown_severity
    else if is_one_of urgency (codes "end-of-life" ∷ codes "unimportant" ∷ [])
    then negligible_severity
    else if is_one_of urgency (codes "low" ∷ codes "low*" ∷ codes "low**" ∷ [])
    then low_severity
    else if is_one_of urgency (codes "medium" ∷ codes "medium*" ∷ codes "medium**" ∷ [])
    then medium_severity
    else if is_one_of urgency (codes "high" ∷ codes "high*" ∷ codes "high**" ∷ [])
    then high_severity
    else unknown_severity

-- The two maps that parseDebianJSON fills.
pub record Parsed : Type 0 where
  pub vulnerabilities : List (Bytes × VulnerabilityWithAffected)
  pub unknown_releases : List (Bytes × Unit {0})

-- Get or create the vulnerability.
abbrev pub new_vulnerability : Bytes → JsonVuln → VulnerabilityWithAffected
new_vulnerability vuln_name node = record {
  vulnerability = record {
    name = vuln_name;
    namespace = record { name = []; version_format = [] };
    description = node.description;
    link = cve_url_prefix ++ codes "/" ++ vuln_name;
    severity = unknown_severity;
    metadata = none;
  };
  affected = [];
}

abbrev pub or_new : Option VulnerabilityWithAffected → Bytes → JsonVuln → VulnerabilityWithAffected
or_new none vuln_name node = new_vulnerability vuln_name node
or_new (some v) vuln_name node = v

-- The highest urgency should be the one set.
unfoldable pub raise : Severity → VulnerabilityWithAffected → VulnerabilityWithAffected
raise severity v =
    if ltb_ℤ (pos 0) (Severity.compare severity v.vulnerability.severity)
    then record v { vulnerability = record v.vulnerability { severity = severity } }
    else v

-- The version that is affected; `none` where the round is passed over.
abbrev pub fixed_version_of {ℓ} :
    {E : Type ℓ} → Bytes → Outcome VersionError Bool → Outcome E (Option Bytes)
fixed_version_of version (ok _) =
    ok (if version === codes "0" || is_empty version then none else some version)
fixed_version_of version (err _) = ok none
fixed_version_of version panic = panic
fixed_version_of version hang = hang

unfoldable pub version_of {ℓ} : {E : Type ℓ} → Parsers → JsonRel → Outcome E (Option Bytes)
version_of parsers rel =
    if rel.status === codes "open"
    then ok (some max_version_text)
    else if rel.status === codes "resolved"
    then fixed_version_of rel.fixed_version (valid parsers Dpkg.parser_name rel.fixed_version)
    else ok none

abbrev pub package_of : Bytes → Bytes → Bytes → AffectedFeature
package_of pkg_name number version = record {
  affected_type = affect_source_package;
  namespace = record { name = codes "debian:" ++ number; version_format = Dpkg.parser_name };
  feature_name = pkg_name;
  fixed_in_version = if version === max_version_text then [] else version;
  affected_version = version;
}

-- The end of a round. A vulnerability that was in the map keeps its new severity in any case.
unfoldable pub store :
    Option VulnerabilityWithAffected
    → VulnerabilityWithAffected
    → Bytes
    → Bytes
    → Bytes
    → Option Bytes
    → Parsed
    → Parsed
store found v pkg_name vuln_name number (some version) p = record p {
  vulnerabilities =
      put vuln_name (record v { affected = v.affected ++ package_of pkg_name number version ∷ [] })
        p.vulnerabilities;
}
store (some _) v pkg_name vuln_name number none p = record p {
  vulnerabilities = put vuln_name v p.vulnerabilities;
}
store none v pkg_name vuln_name number none p = p

abbrev pub passed_over : Bytes → JsonRel → Bool
passed_over vuln_name rel =
    not (has_prefix vuln_name (codes "CVE-")) || rel.status === codes "undetermined"

abbrev pub round_of {ℓ} :
    {E : Type ℓ} → Parsers → Bytes → Bytes → JsonVuln → JsonRel → Bytes → Parsed → Outcome E Parsed
round_of parsers pkg_name vuln_name node rel number p = do
  version ← version_of parsers rel
  let found = get vuln_name p.vulnerabilities
  let v = raise (severity_from_urgency rel.urgency) (or_new found vuln_name node)
  ok (store found v pkg_name vuln_name number version p)

-- One round of the three loops, by the number of the release.
unfoldable pub known_release {ℓ} :
    {E : Type ℓ}
    → Parsers
    → Bytes
    → Bytes
    → JsonVuln
    → Bytes
    → JsonRel
    → Option Bytes
    → Parsed
    → Outcome E Parsed
unfolding version_of raise store severity_from_urgency
known_release parsers pkg_name vuln_name node release_name rel none p =
    ok (record p { unknown_releases = put release_name tt p.unknown_releases })
known_release parsers pkg_name vuln_name node release_name rel (some number) p =
    if passed_over vuln_name rel
    then ok p
    else round_of parsers pkg_name vuln_name node rel number p

unfoldable pub parse_releases {ℓ} :
    {E : Type ℓ}
    → Parsers
    → Bytes
    → Bytes
    → JsonVuln
    → List (Bytes × JsonRel)
    → Parsed
    → Outcome E Parsed
unfolding known_release
parse_releases parsers pkg_name vuln_name node [] p = ok p
parse_releases parsers pkg_name vuln_name node ((release_name, rel) ∷ rest) p = do
  next ←
      known_release parsers pkg_name vuln_name node release_name rel
        (get release_name debian_releases_mapping) p
  parse_releases parsers pkg_name vuln_name node rest next

unfoldable pub parse_vulnerabilities {ℓ} :
    {E : Type ℓ} → Parsers → MapOrder → Bytes → List (Bytes × JsonVuln) → Parsed → Outcome E Parsed
unfolding parse_releases
parse_vulnerabilities parsers o pkg_name [] p = ok p
parse_vulnerabilities parsers o pkg_name ((vuln_name, node) ∷ rest) p = do
  next ← parse_releases parsers pkg_name vuln_name node (o.visit (Bytes × JsonRel) node.releases) p
  parse_vulnerabilities parsers o pkg_name rest next

unfoldable pub parse_packages {ℓ} :
    {E : Type ℓ} → Parsers → MapOrder → JsonData → Parsed → Outcome E Parsed
unfolding parse_vulnerabilities
parse_packages parsers o [] p = ok p
parse_packages parsers o ((pkg_name, node) ∷ rest) p = do
  next ← parse_vulnerabilities parsers o pkg_name (o.visit (Bytes × JsonVuln) node) p
  parse_packages parsers o rest next

abbrev pub nothing_parsed : Parsed
nothing_parsed = record { vulnerabilities = []; unknown_releases = [] }

-- The values of the map as a slice.
abbrev pub slice_of :
    MapOrder → List (Bytes × VulnerabilityWithAffected) → List VulnerabilityWithAffected
slice_of o m =
    map (λ (x : Bytes × VulnerabilityWithAffected). x.1)
      (o.visit (Bytes × VulnerabilityWithAffected) m)

unfoldable pub parse_debian_json {ℓ} :
    {E : Type ℓ}
    → Parsers
    → MapOrder
    → JsonData
    → Outcome E (List VulnerabilityWithAffected × List (Bytes × Unit {0}))
unfolding parse_packages
parse_debian_json parsers o json = do
  p ← parse_packages parsers o (o.visit (Bytes × List (Bytes × JsonVuln)) json) nothing_parsed
  ok (slice_of o p.vulnerabilities, p.unknown_releases)
