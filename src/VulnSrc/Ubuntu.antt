-- ===== src/VulnSrc/Ubuntu.antt =====
-- ext/vulnsrc/ubuntu/ubuntu.go: the CVE tracker of Ubuntu. Its files reach the model as texts.
pub mod Affects
pub mod Package
pub mod Update
pub mod Unique
pub mod Parse
use clair.GoLib.{trim_space, has_prefix, index, slice, contains, scan_lines}
use clair.Database.{
  Namespace, AffectedFeature, Vulnerability, VulnerabilityWithAffected, affect_source_package,
}
use clair.Database.Releases.{ubuntu_releases_mapping}
use clair.Database.Severity.{
  Severity, unknown_severity, negligible_severity, low_severity, medium_severity, high_severity,
  critical_severity,
}
use clair.VersionFmt.Errors.{VersionError, max_version_text}
use clair.VersionFmt.Driver.{Parsers, valid}
use clair.VersionFmt.Dpkg
use clair.VulnSrc.Ubuntu.Affects.{Capture, find_affects}
use clair.VulnSrc.Ubuntu.Package.{
  ubuntu_ignored_releases, is_one_of, considered, version_of, feature_of, key_of,
}
use clair.Prelude.{
  ℕ, Bytes, bytes_eq, Bool, true, false, ◌||◌, Option, none, some, List, [], ◌∷◌, ◌++◌, codes, any,
  get, put, is_empty, length, drop, take, ◌===◌, if◌then◌else◌, Outcome, ok, err, panic, hang,
  ◌>>=◌,
}

abbrev pub tracker_uri : Bytes
tracker_uri = codes "https://git.launchpad.net/ubuntu-cve-tracker"

abbrev pub cve_url : Bytes → Bytes
cve_url name = codes "http://people.ubuntu.com/~ubuntu-security/cve/" ++ name

unfoldable pub severity_from_priority : Bytes → Severity
severity_from_priority priority =
    if priority === codes "untriaged"
    then unknown_severity
    else if priority === codes "negligible"
    then negligible_severity
    else if priority === codes "low"
    then low_severity
    else if priority === codes "medium"
    then medium_severity
    else if priority === codes "high"
    then high_severity
    else if priority === codes "critical"
    then critical_severity
    else unknown_severity

-- The variables of parseUbuntuCVE.
pub record Parsing : Type 0 where
  pub vulnerability : VulnerabilityWithAffected
  pub unknown_releases : List (Bytes × Unit {0})
  pub reading_description : Bool
  pub unique_release : List (Bytes × Unit {0})

abbrev pub start : Parsing
start = record {
  vulnerability = record {
    vulnerability = record {
      name = [];
      namespace = record { name = []; version_format = [] };
      description = [];
      link = [];
      severity = [];
      metadata = none;
    };
    affected = [];
  };
  unknown_releases = [];
  reading_description = false;
  unique_release = [];
}

abbrev pub with_details : (Vulnerability → Vulnerability) → Parsing → Parsing
with_details f p = record p {
  vulnerability = record p.vulnerability { vulnerability = f p.vulnerability.vulnerability };
}

abbrev after_prefix : Bytes → Bytes → Bytes
after_prefix prefix line = trim_space (drop (length prefix) line)

unfoldable pub parse_candidate : Bytes → Parsing → Parsing
parse_candidate line p =
    let name = after_prefix (codes "Candidate:") line in
    with_details (λ v. record v { name = name; link = cve_url name }) p

-- Handle syntax error: Priority: medium (heap-protector)
abbrev first_word : Bytes → Option ℕ → Bytes
first_word priority none = priority
first_word priority (some i) = take i priority

unfoldable pub parse_priority : Bytes → Parsing → Parsing
unfolding severity_from_priority
parse_priority line p =
    let priority = after_prefix (codes "Priority:") line in
    with_details
      (λ v. record v {
        severity = severity_from_priority (first_word priority (index priority b' '));
      })
      p

unfoldable pub parse_description : Bytes → Parsing → Parsing
parse_description line p =
    with_details (λ v. record v { description = after_prefix (codes "Description:") line })
      (record p { reading_description = true })

-- The lines that end a description.
abbrev pub ends_description : Bytes → Bool
ends_description line =
    has_prefix line (codes "Ubuntu-Description:")
    || has_prefix line (codes "Notes:")
    || has_prefix line (codes "Bugs:")
    || has_prefix line (codes "Priority:")
    || has_prefix line (codes "Discovered-by:")
    || has_prefix line (codes "Assigned-to:")

abbrev pub continue_description : Bytes → Parsing → Parsing
continue_description line p =
    with_details (λ v. record v { description = v.description ++ codes " " ++ line }) p

-- strings.Split(s, "/")[0]
abbrev pub up_to_slash : Bytes → Bytes
up_to_slash s = first_word s (index s b'/')

abbrev pub append_feature : AffectedFeature → Parsing → Parsing
append_feature f p = record p {
  vulnerability = record p.vulnerability { affected = p.vulnerability.affected ++ f ∷ [] };
  unique_release = put (key_of f) tt p.unique_release;
}

-- Only the first line of a package in a release counts.
abbrev pub if_new : Option (Unit {0}) → AffectedFeature → Parsing → Parsing
if_new (some _) f p = p
if_new none f p = append_feature f p

unfoldable pub add_feature : Capture → Bytes → Option Bytes → Parsing → Parsing
add_feature md number none p = p
add_feature md number (some version) p =
    if_new (get (key_of (feature_of md number version)) p.unique_release)
      (feature_of md number version) p

-- The release is known by its number, or not.
abbrev pub parse_release {ℓ} :
    {E : Type ℓ} → Parsers → Capture → Bytes → Option Bytes → Parsing → Outcome E Parsing
parse_release parsers md release none p =
    ok (record p { unknown_releases = put release tt p.unknown_releases })
parse_release parsers md release (some number) p = do
  version ← version_of parsers md
  ok (add_feature md number version p)

unfoldable pub parse_affects {ℓ} :
    {E : Type ℓ} → Parsers → Option Capture → Parsing → Outcome E Parsing
unfolding version_of add_feature
parse_affects parsers none p = ok p
parse_affects parsers (some md) p =
    if has_prefix md.package_name (codes "linux")
    then ok p
    else if considered md.status
    then if is_one_of (up_to_slash md.release) ubuntu_ignored_releases
      then ok p
      else parse_release parsers md (up_to_slash md.release)
          (get (up_to_slash md.release) ubuntu_releases_mapping) p
    else ok p

-- One round of the loop over the lines, from the line without the space around it.
unfoldable pub parse_line {ℓ} : {E : Type ℓ} → Parsers → Bytes → Parsing → Outcome E Parsing
unfolding parse_affects parse_candidate parse_priority parse_description
parse_line parsers line p =
    if has_prefix line (codes "#")
    then ok p
    else if has_prefix line (codes "Candidate:")
    then ok (parse_candidate line p)
    else if has_prefix line (codes "Priority:")
    then ok (parse_priority line p)
    else if has_prefix line (codes "Description:")
    then ok (parse_description line p)
    else if p.reading_description
    then if ends_description line
      then parse_affects parsers (find_affects line) (record p { reading_description = false })
      else ok (continue_description line p)
    else parse_affects parsers (find_affects line) p

unfoldable pub parse_lines {ℓ} : {E : Type ℓ} → Parsers → List Bytes → Parsing → Outcome E Parsing
unfolding parse_line
parse_lines parsers [] p = ok p
parse_lines parsers (line ∷ lines) p = do
  next ← parse_line parsers (trim_space line) p
  parse_lines parsers lines next

-- What is set behind the loop.
abbrev pub with_defaults : Vulnerability → Vulnerability
with_defaults v = record v {
  description = trim_space v.description;
  link = if is_empty v.link then tracker_uri else v.link;
  severity = if is_empty v.severity then unknown_severity else v.severity;
}

unfoldable pub parse_ubuntu_cve {ℓ} :
    {E : Type ℓ} → Parsers → Bytes → Outcome E (VulnerabilityWithAffected × List (Bytes × Unit {0}))
unfolding parse_lines
parse_ubuntu_cve parsers file_content = do
  p ← parse_lines parsers (scan_lines file_content) start
  ok ((with_details with_defaults p).vulnerability, p.unknown_releases)
