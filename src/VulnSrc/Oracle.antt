-- ===== src/VulnSrc/Oracle.antt =====
-- ext/vulnsrc/oracle/oracle.go: the advisories of Oracle Linux.
pub mod Update
pub mod Parse
use clair.GoLib.{trim_space, slice, index_text, replace_all, lower_text, itoa}
use clair.Database.{
  Namespace, AffectedFeature, Vulnerability, VulnerabilityWithAffected, affect_binary_package,
}
use clair.Database.Severity.{
  Severity, unknown_severity, negligible_severity, low_severity, medium_severity, high_severity,
  critical_severity,
}
use clair.VersionFmt.Driver.{Parsers}
use clair.VersionFmt.Rpm
use clair.VulnSrc.Oval.{Criterion, Criteria, get_possibilities}
use clair.VulnSrc.Oval.Features.{Reading, read_possibilities, features_of}
use clair.Prelude.{
  ℕ, Bytes, bytes_eq, Bool, Option, none, some, List, [], ◌∷◌, ◌++◌, codes, length, is_empty, ◌==◌,
  ◌===◌, if◌then◌else◌, ℤ, pos, ltb_ℤ, MapOrder, Outcome, ok, err, panic, hang, ◌>>=◌,
}

pub record Reference : Type 0 where
  pub source : Bytes
  pub uri : Bytes

pub record Definition : Type 0 where
  pub title : Bytes
  pub description : Bytes
  pub references : List Reference
  pub criteria : Criteria
  pub severity : Bytes

abbrev pub ignored_criterions : List Bytes
ignored_criterions = codes " is signed with the Oracle Linux" ∷ codes ".ksplice1." ∷ []

abbrev pub prefix_len : ℕ
prefix_len = length (codes "Oracle Linux ")

-- A version that is valid leaves the namespace alone.
abbrev pub mark : Namespace → Namespace
mark n = n

-- The end of a round.
abbrev pub in_oracle : Reading → AffectedFeature
in_oracle r = record r.feature_version {
  namespace = record {
    name = codes "oracle" ++ codes ":" ++ itoa r.os_version;
    version_format = Rpm.parser_name;
  };
}

unfoldable pub locate : Reading → Option AffectedFeature
locate r = some (in_oracle r)

unfoldable pub to_features {ℓ} :
    {E : Type ℓ} → Parsers → MapOrder → Criteria → Outcome E (List AffectedFeature)
to_features parsers o node = do
  m ←
      read_possibilities parsers prefix_len mark locate (get_possibilities ignored_criterions node)
        []
  ok (features_of o m)

unfoldable pub description : Definition → Bytes
description def =
    let desc = replace_all def.description (10 ∷ 10 ∷ 10 ∷ []) (codes " ") in
    let desc' = replace_all desc (10 ∷ 10 ∷ []) (codes " ") in
    replace_all desc' (10 ∷ []) (codes " ")

-- def.Title[:strings.Index(def.Title, ": ")]
abbrev pub title_up_to {ℓ} : {E : Type ℓ} → Bytes → Option ℕ → Outcome E Bytes
title_up_to title none = panic
title_up_to title (some i) = slice title 0 i

unfoldable pub name {ℓ} : {E : Type ℓ} → Definition → Outcome E Bytes
name def = do text ← title_up_to def.title (index_text def.title (codes ": ")); ok (trim_space text)

unfoldable pub link_of : List Reference → Bytes
link_of [] = []
link_of (r ∷ rs) = if r.source === codes "elsa" then r.uri else link_of rs

unfoldable pub link : Definition → Bytes
unfolding link_of
link def = link_of def.references

unfoldable pub severity : Bytes → Severity
severity sev =
    if lower_text sev === codes "n/a"
    then negligible_severity
    else if lower_text sev === codes "low"
    then low_severity
    else if lower_text sev === codes "moderate"
    then medium_severity
    else if lower_text sev === codes "important"
    then high_severity
    else if lower_text sev === codes "critical"
    then critical_severity
    else unknown_severity

abbrev pub advisory : Definition → Bytes → List AffectedFeature → VulnerabilityWithAffected
advisory def text pkgs = record {
  vulnerability = record {
    name = text;
    namespace = record { name = []; version_format = [] };
    description = description def;
    link = link def;
    severity = severity def.severity;
    metadata = none;
  };
  affected = pkgs;
}

-- What a definition with affected features adds.
unfoldable pub vulnerabilities_of {ℓ} :
    {E : Type ℓ} → Definition → List AffectedFeature → Outcome E (List VulnerabilityWithAffected)
unfolding name
vulnerabilities_of def [] = ok []
vulnerabilities_of def (pkg ∷ pkgs) = do text ← name def; ok (advisory def text (pkg ∷ pkgs) ∷ [])

-- The loop of parseELSA.
unfoldable pub parse_definitions {ℓ} :
    {E : Type ℓ} → Parsers → MapOrder → List Definition → Outcome E (List VulnerabilityWithAffected)
unfolding to_features vulnerabilities_of
parse_definitions parsers o [] = ok []
parse_definitions parsers o (def ∷ defs) = do
  pkgs ← to_features parsers o def.criteria
  vs ← vulnerabilities_of def pkgs
  rest ← parse_definitions parsers o defs
  ok (vs ++ rest)
