-- ===== src/VulnSrc/Rhel.antt =====
-- ext/vulnsrc/rhel/rhel.go: the advisories of Red Hat.
pub mod Update
pub mod Again
pub mod Parse
use clair.GoLib.{
  trim_space, slice, index_text, replace_all, title, atoi_value, atoi, itoa, scan_lines,
}
use clair.Database.{
  Namespace, AffectedFeature, Vulnerability, VulnerabilityWithAffected, affect_binary_package,
}
use clair.Database.Severity.{
  Severity, unknown_severity, low_severity, medium_severity, high_severity, critical_severity,
}
use clair.VersionFmt.Driver.{Parsers}
use clair.VersionFmt.Rpm
use clair.VulnSrc.Oval.{Criterion, Criteria, get_possibilities}
use clair.VulnSrc.Oval.Features.{Reading, read_possibilities, features_of}
use clair.Prelude.{
  ℕ, Bytes, bytes_eq, Bool, Option, none, some, List, [], ◌∷◌, ◌++◌, codes, length, is_empty, ◌==◌,
  ◌===◌, if◌then◌else◌, ℤ, pos, ltb_ℤ, MapOrder, Outcome, ok, err, panic, hang, ◌>>=◌,
}

pub record Reference : Type 0 where
  pub source : Bytes
  pub uri : Bytes
  pub id : Bytes

pub record Cve : Type 0 where
  pub impact : Bytes
  pub href : Bytes
  pub id : Bytes

pub record Definition : Type 0 where
  pub title : Bytes
  pub description : Bytes
  pub references : List Reference
  pub criteria : Criteria
  pub severity : Bytes
  pub cves : List Cve

abbrev pub first_considered_rhel : ℤ
first_considered_rhel = pos 5

abbrev pub ignored_criterions : List Bytes
ignored_criterions =
    codes " is signed with Red Hat "
    ∷ codes " Client is installed"
    ∷ codes " Workstation is installed"
    ∷ codes " ComputeNode is installed"
    ∷ []

abbrev pub prefix_len : ℕ
prefix_len = length (codes "Red Hat Enterprise Linux ")

abbrev pub mark : Namespace → Namespace
mark n = record n { version_format = Rpm.parser_name }

abbrev pub in_centos : Reading → AffectedFeature
in_centos r = record r.feature_version {
  namespace = record r.feature_version.namespace {
    name = codes "centos" ++ codes ":" ++ itoa r.os_version;
  };
}

-- The end of a round: systems before RHEL 5 are passed over.
unfoldable pub locate : Reading → Option AffectedFeature
locate r = if ltb_ℤ r.os_version first_considered_rhel then none else some (in_centos r)

unfoldable pub to_features {ℓ} :
    {E : Type ℓ} → Parsers → MapOrder → Criteria → Outcome E (List AffectedFeature)
to_features parsers o node = do
  m ←
      read_possibilities parsers prefix_len mark locate (get_possibilities ignored_criterions node)
        []
  ok (features_of o m)

unfoldable pub description : Definition → Bytes
description def =
    let desc = replace_all def.description (10 ∷ 10 ∷ 10 ∷ []) (codes " ") in
    let desc' = replace_all desc (10 ∷ 10 ∷ []) (codes " ") in
    replace_all desc' (10 ∷ []) (codes " ")

unfoldable pub severity : Bytes → Severity
severity sev =
    if title sev === codes "Low"
    then low_severity
    else if title sev === codes "Moderate"
    then medium_severity
    else if title sev === codes "Important"
    then high_severity
    else if title sev === codes "Critical"
    then critical_severity
    else unknown_severity

-- def.Title[:strings.Index(def.Title, ": ")]
abbrev pub title_up_to {ℓ} : {E : Type ℓ} → Bytes → Option ℕ → Outcome E Bytes
title_up_to title none = panic
title_up_to title (some i) = slice title 0 i

unfoldable pub rhsa_name {ℓ} : {E : Type ℓ} → Definition → Outcome E Bytes
rhsa_name def = do
  name ← title_up_to def.title (index_text def.title (codes ": "))
  ok (trim_space name)

abbrev pub uri_of_first : List Reference → Bytes
uri_of_first [] = []
uri_of_first (r ∷ rs) = r.uri

unfoldable pub rhsa_link : Definition → Bytes
rhsa_link def = uri_of_first def.references

-- The loop over the CVEs of an advisory: one vulnerability for each.
unfoldable pub one_by_cve :
    Definition → VulnerabilityWithAffected → List Cve → List VulnerabilityWithAffected
unfolding severity
one_by_cve def v [] = []
one_by_cve def v (cve ∷ cves) =
    record v {
      vulnerability = record v.vulnerability {
        name = cve.id;
        link = cve.href;
        severity = if is_empty cve.impact then severity def.severity else severity cve.impact;
      };
    }
    ∷ one_by_cve def v cves

abbrev pub only_rhsa : List Reference → Bool
only_rhsa references = length references == 1

abbrev pub advisory : Definition → Bytes → List AffectedFeature → VulnerabilityWithAffected
advisory def name pkgs = record {
  vulnerability = record {
    name = name;
    namespace = record { name = []; version_format = [] };
    description = description def;
    link = rhsa_link def;
    severity = severity def.severity;
    metadata = none;
  };
  affected = pkgs;
}

-- What a definition with affected features adds.
unfoldable pub vulnerabilities_of {ℓ} :
    {E : Type ℓ} → Definition → List AffectedFeature → Outcome E (List VulnerabilityWithAffected)
unfolding rhsa_name one_by_cve
vulnerabilities_of def [] = ok []
vulnerabilities_of def (pkg ∷ pkgs) = do
  name ← rhsa_name def
  let v = advisory def name (pkg ∷ pkgs)
  ok (if only_rhsa def.references then v ∷ [] else one_by_cve def v def.cves)

-- The loop of parseRHSA.
unfoldable pub parse_definitions {ℓ} :
    {E : Type ℓ} → Parsers → MapOrder → List Definition → Outcome E (List VulnerabilityWithAffected)
unfolding to_features vulnerabilities_of
parse_definitions parsers o [] = ok []
parse_definitions parsers o (def ∷ defs) = do
  pkgs ← to_features parsers o def.criteria
  vs ← vulnerabilities_of def pkgs
  rest ← parse_definitions parsers o defs
  ok (vs ++ rest)
