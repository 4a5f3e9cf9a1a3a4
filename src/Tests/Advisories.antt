-- ===== src/Tests/Advisories.antt =====
-- The theorems on the advisories of Red Hat and of Oracle.
use clair.Database.{AffectedFeature, VulnerabilityWithAffected}
use clair.GoLib.{scan_lines, contains, slice, is_digit, atoi, atoi_value, itoa}
use clair.VulnSrc.Oval.Listing.{find_submatch}
use clair.VulnSrc.Oval.Features.{read_possibilities}
use clair.VersionFmt.Driver.{valid, get_parser}
use clair.Tests.Formats.{formats}
use clair.VulnSrc.Source.{UpdateResponse, no_response, Web, collect}
use clair.VulnSrc.Oval.{Criterion, Criteria, criteria, nil, cons, get_possibilities}
use clair.VulnSrc.Oval.Normal.{holds, get_possibilities_lem}
use clair.VulnSrc.Rhel
use clair.VulnSrc.Rhel.Parse.{Reported, parse_definitions-Reported}
use clair.VulnSrc.Rhel.Update.{first_rhsa, rhsa_list, update_from}
use clair.VulnSrc.Rhel.Again.{update_from-again}
use clair.VulnSrc.Oracle
use clair.VulnSrc.Oracle.Parse.{Published, parse_definitions-Published}
use clair.Prelude.{
  ℕ, ℤ, pos, Bytes, true, false, Option, none, some, List, [], ◌∷◌, codes, any, all, ltb_ℤ,
  in_order, All, Outcome, ok, Bytes-discrete, ℕ_discrete, ◌≡◌, refl,
}

abbrev old_bash : Criterion
old_bash = record { comment = codes "bash is earlier than 4.2" }

abbrev signed_bash : Criterion
signed_bash = record { comment = codes "bash is signed with Red Hat key" }

abbrev tree : Criterion → Criteria
tree installed =
    criteria (codes "AND") (cons (criteria (codes "OR") nil (old_bash ∷ signed_bash ∷ [])) nil)
      (installed ∷ [])

abbrev rhel_tree : Criteria
rhel_tree = tree (record { comment = codes "Red Hat Enterprise Linux 7 is installed" })

get_possibilities_lem_example :
    any (λ p. all (λ c. true) p) (get_possibilities Rhel.ignored_criterions rhel_tree)
    ≡ holds Rhel.ignored_criterions (λ c. true) rhel_tree
get_possibilities_lem_example = get_possibilities_lem Rhel.ignored_criterions (λ c. true) rhel_tree

abbrev bash_in : Bytes → AffectedFeature
bash_in name = record {
  affected_type = codes "binary";
  namespace = record { name = name; version_format = codes "rpm" };
  feature_name = codes "bash";
  fixed_in_version = codes "4.2";
  affected_version = codes "4.2";
}

abbrev rhsa : Rhel.Definition
rhsa = record {
  title = codes "RHSA-1: bash";
  description = codes "A flaw";
  references = [];
  criteria = rhel_tree;
  severity = codes "important";
  cves = record { impact = []; href = codes "link"; id = codes "CVE-1" } ∷ [];
}

abbrev cve : VulnerabilityWithAffected
cve = record {
  vulnerability = record {
    name = codes "CVE-1";
    namespace = record { name = []; version_format = [] };
    description = codes "A flaw";
    link = codes "link";
    severity = codes "High";
    metadata = none;
  };
  affected = bash_in (codes "centos:7") ∷ [];
}

rhsa_parsed : Rhel.parse_definitions {E = ℕ} formats in_order (rhsa ∷ []) ≡ ok (cve ∷ [])
unfolding Rhel.parse_definitions Bytes-discrete ℕ_discrete read_possibilities get_possibilities
    contains slice valid get_parser clair.GoLib.index clair.VulnSrc.Oval.Features.features_of
    Rhel.locate atoi_value clair.GoLib.trim_space clair.Prelude.put Rhel.description
    clair.GoLib.title itoa clair.GoLib.replace_all
rhsa_parsed = refl

parse_definitions-Reported_example : All (Reported formats) (cve ∷ [])
parse_definitions-Reported_example =
    parse_definitions-Reported formats in_order (rhsa ∷ []) (cve ∷ []) rhsa_parsed

abbrev elsa : Oracle.Definition
elsa = record {
  title = codes "ELSA-1: bash";
  description = codes "A flaw";
  references = record { source = codes "elsa"; uri = codes "link" } ∷ [];
  criteria = tree (record { comment = codes "Oracle Linux 7 is installed" });
  severity = codes "IMPORTANT";
}

abbrev elsa_found : VulnerabilityWithAffected
elsa_found = record {
  vulnerability = record cve.vulnerability { name = codes "ELSA-1" };
  affected = bash_in (codes "oracle:7") ∷ [];
}

elsa_parsed : Oracle.parse_definitions {E = ℕ} formats in_order (elsa ∷ []) ≡ ok (elsa_found ∷ [])
unfolding Oracle.parse_definitions Bytes-discrete ℕ_discrete read_possibilities get_possibilities
    contains slice valid get_parser clair.GoLib.index clair.VulnSrc.Oval.Features.features_of
    Oracle.locate clair.GoLib.trim_space clair.Prelude.put Oracle.description Oracle.link
    Oracle.severity itoa clair.GoLib.replace_all clair.GoLib.lower_text atoi_value
elsa_parsed = refl

parse_definitions-Published_example : All (Published formats) (elsa_found ∷ [])
parse_definitions-Published_example =
    parse_definitions-Published formats in_order (elsa ∷ []) (elsa_found ∷ []) elsa_parsed

abbrev listing : Bytes
listing = codes "com.redhat.rhsa-20180001.xml"

abbrev web : Web (Option (List Rhel.Definition))
web = record { listing = some listing; document = λ n. some (some []) }

abbrev first_run : UpdateResponse
first_run = record no_response { flag_name = codes "rhelUpdater"; flag_value = codes "20180001" }

listed : rhsa_list (first_rhsa []) (scan_lines listing) ≡ pos 20180001 ∷ []
unfolding rhsa_list first_rhsa scan_lines find_submatch is_digit atoi atoi_value
listed = refl

from_start : ltb_ℤ (first_rhsa []) (pos 0) ≡ false
unfolding first_rhsa atoi
from_start = refl

first_run_lem : update_from {E = ℕ} formats in_order web [] ≡ ok first_run
unfolding update_from scan_lines collect find_submatch is_digit atoi atoi_value
    Rhel.parse_definitions itoa
first_run_lem = refl

update_from-again_example :
    update_from {E = ℕ} formats in_order web (codes "20180001") ≡ ok no_response
update_from-again_example =
    update_from-again formats in_order web [] listing (pos 20180001) [] first_run refl from_start
      listed (refl, tt) first_run_lem
