-- ===== src/Tests/Trackers.antt =====
-- The theorems on the trackers of Debian, Ubuntu and Alpine.
use clair.Database.{AffectedFeature, VulnerabilityWithAffected}
use clair.Database.Releases.{debian_releases_mapping}
use clair.VersionFmt.Driver.{valid, get_parser}
use clair.VulnSrc.Debian
use clair.VulnSrc.Debian.Accepted.{Tracked}
use clair.VulnSrc.Debian.Parse.{parse_debian_json-Tracked}
use clair.VulnSrc.Debian.Severe.{AtMost, parse_debian_json-Severe}
use clair.VulnSrc.Alpine
use clair.VulnSrc.Alpine.Fixes.{IsFix, vulnerabilities-IsFix, vulnerabilities-In}
use clair.VulnSrc.Ubuntu
use clair.VulnSrc.Ubuntu.Parse.{Parsed, parse_ubuntu_cve-Parsed}
use clair.Tests.Formats.{formats}
use clair.Prelude.{
  ℕ, Bytes, bytes_eq, true, false, none, some, List, [], ◌∷◌, ◌++◌, codes, get, in_order, All, In,
  Outcome, ok, Bytes-discrete, ℕ_discrete, ◌≡◌, refl, inl,
}

abbrev rel : Debian.JsonRel
rel = record { fixed_version = codes "1.2"; status = codes "resolved"; urgency = codes "high" }

abbrev node : Debian.JsonVuln
node = record { description = []; releases = (codes "jessie", rel) ∷ [] }

abbrev json : Debian.JsonData
json = (codes "bash", (codes "CVE-1", node) ∷ []) ∷ []

abbrev affected : Bytes → Bytes → AffectedFeature
affected kind name = record {
  affected_type = kind;
  namespace = record { name = name; version_format = codes "dpkg" };
  feature_name = codes "bash";
  fixed_in_version = codes "1.2";
  affected_version = codes "1.2";
}

abbrev tracked : VulnerabilityWithAffected
tracked = record {
  vulnerability = record {
    name = codes "CVE-1";
    namespace = record { name = []; version_format = [] };
    description = [];
    link = codes "https://security-tracker.debian.org/tracker/CVE-1";
    severity = codes "High";
    metadata = none;
  };
  affected = affected (codes "source") (codes "debian:8") ∷ [];
}

json_parsed : Debian.parse_debian_json {E = ℕ} formats in_order json ≡ ok (tracked ∷ [], [])
unfolding Debian.parse_debian_json get Bytes-discrete ℕ_discrete clair.GoLib.has_prefix valid
    get_parser clair.Prelude.put clair.Database.Severity.compare
json_parsed = refl

parse_debian_json-Tracked_example :
    All (λ (v : VulnerabilityWithAffected). Tracked formats v.vulnerability.name v) (tracked ∷ [])
parse_debian_json-Tracked_example =
    parse_debian_json-Tracked formats in_order json (tracked ∷ []) [] json_parsed

jessie_known : get (codes "jessie") debian_releases_mapping ≡ some (codes "8")
unfolding get Bytes-discrete ℕ_discrete
jessie_known = refl

counts : Debian.passed_over (codes "CVE-1") rel ≡ false
unfolding clair.GoLib.has_prefix Bytes-discrete ℕ_discrete
counts = refl

fixed : Debian.version_of {E = ℕ} formats rel ≡ ok (some (codes "1.2"))
unfolding Debian.version_of Bytes-discrete ℕ_discrete valid get_parser
fixed = refl

parse_debian_json-Severe_example :
    (v : VulnerabilityWithAffected) × In v (tracked ∷ [])
    × In (Debian.package_of (codes "bash") (codes "8") (codes "1.2")) v.affected
    × AtMost (Debian.severity_from_urgency (codes "high")) v
parse_debian_json-Severe_example =
    parse_debian_json-Severe formats in_order json (tracked ∷ []) [] (codes "bash") (codes "CVE-1")
      (codes "jessie") (codes "8") (codes "1.2") ((codes "CVE-1", node) ∷ []) node rel json_parsed
      (inl refl) (inl refl) (inl refl) jessie_known counts fixed

abbrev sec_db : Alpine.SecDb
sec_db = record {
  distro = codes "v3.4";
  packages = record { name = codes "bash"; fixes = (codes "1.2", codes "CVE-1" ∷ []) ∷ [] } ∷ [];
}

abbrev fixed_bash : VulnerabilityWithAffected
fixed_bash = Alpine.vulnerability_of (codes "v3.4") (codes "bash") (codes "1.2") (codes "CVE-1")

sec_db_read : Alpine.vulnerabilities {E = ℕ} formats in_order (some sec_db) ≡ ok (fixed_bash ∷ [])
unfolding Alpine.vulnerabilities valid get_parser Bytes-discrete ℕ_discrete
sec_db_read = refl

vulnerabilities-IsFix_example : All (IsFix formats (codes "v3.4") sec_db.packages) (fixed_bash ∷ [])
vulnerabilities-IsFix_example =
    vulnerabilities-IsFix formats in_order sec_db (fixed_bash ∷ []) sec_db_read

fixed_in_time : valid formats (codes "dpkg") (codes "1.2") ≡ ok true
unfolding valid get_parser Bytes-discrete ℕ_discrete
fixed_in_time = refl

vulnerabilities-In_example : In fixed_bash (fixed_bash ∷ [])
vulnerabilities-In_example =
    vulnerabilities-In formats in_order sec_db (fixed_bash ∷ [])
      (record { name = codes "bash"; fixes = (codes "1.2", codes "CVE-1" ∷ []) ∷ [] }) (codes "1.2")
      (codes "CVE-1") (codes "CVE-1" ∷ []) sec_db_read (inl refl) (inl refl) (inl refl)
      fixed_in_time

abbrev cve_file : Bytes
cve_file =
    codes "Candidate: CVE-1"
    ++ 10 ∷ codes "Priority: low"
    ++ 10 ∷ codes "trusty_bash: released (1.2)"
    ++ 10 ∷ codes "trusty/esm_bash: needed"

abbrev read_cve : VulnerabilityWithAffected
read_cve = record {
  vulnerability = record {
    name = codes "CVE-1";
    namespace = record { name = []; version_format = [] };
    description = [];
    link = codes "http://people.ubuntu.com/~ubuntu-security/cve/CVE-1";
    severity = codes "Low";
    metadata = none;
  };
  affected = affected (codes "source") (codes "ubuntu:14.04") ∷ [];
}

cve_file_read : Ubuntu.parse_ubuntu_cve {E = ℕ} formats cve_file ≡ ok (read_cve, [])
unfolding Ubuntu.parse_ubuntu_cve clair.GoLib.Lines.scan_lines clair.GoLib.has_prefix Bytes-discrete
    ℕ_discrete clair.GoLib.trim_space clair.VulnSrc.Ubuntu.Affects.find_affects
    clair.GoLib.last_index clair.GoLib.index get valid get_parser clair.Prelude.put
cve_file_read = refl

parse_ubuntu_cve-Parsed_example : Parsed read_cve
parse_ubuntu_cve-Parsed_example = parse_ubuntu_cve-Parsed formats cve_file read_cve [] cve_file_read
