-- ===== src/VulnSrc/Alpine.antt =====
-- ext/vulnsrc/alpine/alpine.go: the security database of Alpine Linux. Its repository and the files
-- of it reach the model as what Git, the file system and YAML's decoder make of them.
pub mod Fixes
use clair.Database.{
  Namespace, AffectedFeature, Vulnerability, VulnerabilityWithAffected, affect_binary_package,
}
use clair.Database.Session.{Datastore}
use clair.Database.Severity.{unknown_severity}
use clair.Database.Transactions.{find_key_value_and_rollback}
use clair.VersionFmt.Errors.{VersionError, max_version_text}
use clair.VersionFmt.Driver.{Parsers, valid}
use clair.VersionFmt.Dpkg
use clair.VulnSrc.Source.{UpdateResponse, no_response}
use clair.Prelude.{
  Bytes, bytes_eq, Bool, true, false, Option, none, some, List, [], ◌∷◌, ◌++◌, codes, ◌===◌,
  if◌then◌else◌, MapOrder, Outcome, ok, err, panic, hang, ◌>>=◌,
}

pub record Package : Type 0 where
  pub name : Bytes
  pub fixes : List (Bytes × List Bytes)

pub record SecDb : Type 0 where
  pub distro : Bytes
  pub packages : List Package

abbrev pub updater_flag : Bytes
updater_flag = codes "alpine-secdbUpdater"

abbrev pub nvd_url_prefix : Bytes
nvd_url_prefix = codes "https://cve.mitre.org/cgi-bin/cvename.cgi?name="

abbrev pub namespace_of : Bytes → Namespace
namespace_of distro = record { name = codes "alpine:" ++ distro; version_format = Dpkg.parser_name }

abbrev pub vulnerability_of : Bytes → Bytes → Bytes → Bytes → VulnerabilityWithAffected
vulnerability_of distro pkg_name version cve = record {
  vulnerability = record {
    name = cve;
    namespace = namespace_of distro;
    description = [];
    link = nvd_url_prefix ++ cve;
    severity = unknown_severity;
    metadata = none;
  };
  affected =
      record {
        affected_type = affect_binary_package;
        namespace = namespace_of distro;
        feature_name = pkg_name;
        fixed_in_version = if version === max_version_text then [] else version;
        affected_version = version;
      }
      ∷ [];
}

-- The innermost loop, over the CVEs that a version fixes.
unfoldable pub fixed_cves : Bytes → Bytes → Bytes → List Bytes → List VulnerabilityWithAffected
fixed_cves distro pkg_name version [] = []
fixed_cves distro pkg_name version (cve ∷ cves) =
    vulnerability_of distro pkg_name version cve ∷ fixed_cves distro pkg_name version cves

-- A version that is not valid is skipped.
abbrev pub if_valid {ℓ} :
    {E : Type ℓ}
    → Outcome VersionError Bool
    → List VulnerabilityWithAffected
    → Outcome E (List VulnerabilityWithAffected)
if_valid (ok _) vs = ok vs
if_valid (err _) vs = ok []
if_valid panic vs = panic
if_valid hang vs = hang

unfoldable pub fixed_versions {ℓ} :
    {E : Type ℓ}
    → Parsers
    → Bytes
    → Bytes
    → List (Bytes × List Bytes)
    → Outcome E (List VulnerabilityWithAffected)
unfolding fixed_cves
fixed_versions parsers distro pkg_name [] = ok []
fixed_versions parsers distro pkg_name ((version, cves) ∷ fixes) = do
  vs ← if_valid (valid parsers Dpkg.parser_name version) (fixed_cves distro pkg_name version cves)
  rest ← fixed_versions parsers distro pkg_name fixes
  ok (vs ++ rest)

unfoldable pub fixed_packages {ℓ} :
    {E : Type ℓ}
    → Parsers
    → MapOrder
    → Bytes
    → List Package
    → Outcome E (List VulnerabilityWithAffected)
unfolding fixed_versions
fixed_packages parsers o distro [] = ok []
fixed_packages parsers o distro (p ∷ packages) = do
  vs ← fixed_versions parsers distro p.name (o.visit (Bytes × List Bytes) p.fixes)
  rest ← fixed_packages parsers o distro packages
  ok (vs ++ rest)

-- The method Vulnerabilities; a nil file has none.
unfoldable pub vulnerabilities {ℓ} :
    {E : Type ℓ} → Parsers → MapOrder → Option SecDb → Outcome E (List VulnerabilityWithAffected)
unfolding fixed_packages
vulnerabilities parsers o none = ok []
vulnerabilities parsers o (some file) = fixed_packages parsers o file.distro file.packages

-- What Git and the file system answer: the commit that was pulled, the namespaces of the repository,
-- the names of the files of a namespace, and a file by its namespace and name.
pub record Repository (E : Type 0) : Type 0 where
  pub clone_or_pull : Outcome E Bytes
  pub namespaces : Outcome E (List Bytes)
  pub filenames : Bytes → Outcome E (List Bytes)
  pub new_sec_db : Bytes → Bytes → Outcome E SecDb

module _ {E : Type 0} (parsers : Parsers) (o : MapOrder) (git : Repository E) where
  unfoldable pub parse_files : Bytes → List Bytes → Outcome E (List VulnerabilityWithAffected)
  unfolding vulnerabilities
  parse_files namespace [] = ok []
  parse_files namespace (filename ∷ filenames) = do
    db ← git.new_sec_db namespace filename
    vs ← vulnerabilities parsers o (some db)
    rest ← parse_files namespace filenames
    ok (vs ++ rest)

  unfoldable pub parse_vulns_from_namespace : Bytes → Outcome E (List VulnerabilityWithAffected)
  unfolding parse_files
  parse_vulns_from_namespace namespace = do
    filenames ← git.filenames namespace
    parse_files namespace filenames

  unfoldable pub parse_namespaces : List Bytes → Outcome E (List VulnerabilityWithAffected)
  unfolding parse_vulns_from_namespace
  parse_namespaces [] = ok []
  parse_namespaces (namespace ∷ namespaces) = do
    vs ← parse_vulns_from_namespace namespace
    rest ← parse_namespaces namespaces
    ok (vs ++ rest)

  abbrev pub same_commit : Bytes → Option Bytes → Bool
  same_commit commit none = false
  same_commit commit (some existing) = commit === existing

  unfoldable pub changed : Bytes → Outcome E UpdateResponse
  unfolding parse_namespaces
  changed commit = do
    namespaces ← git.namespaces
    vs ← parse_namespaces namespaces
    ok (record { flag_name = updater_flag; flag_value = commit; notes = []; vulnerabilities = vs })

  -- Update, from what the datastore says of the flag.
  unfoldable pub update_from : Outcome E (Option Bytes) → Outcome E UpdateResponse
  unfolding changed
  update_from flag = do
    commit ← git.clone_or_pull
    existing ← flag
    if same_commit commit existing
        then ok (record no_response { flag_name = updater_flag; flag_value = commit })
        else changed commit

unfoldable pub update :
    (d : Datastore)
    → Parsers
    → MapOrder
    → Repository d.Error
    → d.Store
    → Outcome d.Error UpdateResponse
unfolding update_from
update d parsers o git store =
    update_from parsers o git (find_key_value_and_rollback d updater_flag store)
