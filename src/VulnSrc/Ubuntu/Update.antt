-- ===== src/VulnSrc/Ubuntu/Update.antt =====
-- The method Update of ext/vulnsrc/ubuntu/ubuntu.go, and how it collects the files of the tracker's
-- repository. The transaction that Update opens is only rolled back.
use clair.GoLib.{has_prefix}
use clair.Database.{VulnerabilityWithAffected}
use clair.Database.Session.{Datastore}
use clair.Database.Transactions.{find_key_value_and_rollback}
use clair.VersionFmt.Driver.{Parsers}
use clair.VulnSrc.Source.{UpdateResponse, no_response, flag_value}
use clair.VulnSrc.Ubuntu.{parse_ubuntu_cve}
use clair.Prelude.{
  Bytes, bytes_eq, Option, none, some, List, [], ◌∷◌, ◌++◌, map, codes, put, is_empty, ◌===◌,
  if◌then◌else◌, MapOrder, Outcome, ok, ◌>>=◌,
}

abbrev pub updater_flag : Bytes
updater_flag = codes "ubuntuUpdater"

abbrev pub Paths : Type 0
Paths = List (Bytes × Unit {0})

-- What Git and the file system answer: the commit that was pulled, the names in a directory, and the
-- text of a file by its path.
pub record Tracker (E : Type 0) : Type 0 where
  pub clone_or_pull : Outcome E Bytes
  pub read_dir_names : Bytes → Outcome E (List Bytes)
  pub open_file : Bytes → Option Bytes

-- The loop of processDirectory over the names.
unfoldable pub add_paths : Bytes → List Bytes → Paths → Paths
add_paths dir_name [] paths = paths
add_paths dir_name (name ∷ names) paths =
    add_paths dir_name names (
      if has_prefix name (codes "CVE-")
      then put (dir_name ++ codes "/" ++ name) tt paths
      else paths)

abbrev pub error_note : Bytes → Bytes
error_note k =
    codes "found packages with CVEs for a verison of Ubuntu that Clair doesn't know about"
    ++ codes ": "
    ++ k

unfoldable pub add_notes :
    List (Bytes × Unit {0}) → List (Bytes × Unit {0}) → List (Bytes × Unit {0})
add_notes [] notes = notes
add_notes ((k, _) ∷ unknown) notes = add_notes unknown (put (error_note k) tt notes)

module _ {E : Type 0} (parsers : Parsers) (o : MapOrder) (git : Tracker E) where
  unfoldable pub process_directory : Bytes → Paths → Outcome E Paths
  unfolding add_paths
  process_directory dir_name paths = do
    names ← git.read_dir_names dir_name
    ok (add_paths dir_name names paths)

  unfoldable pub collect_modified_vulnerabilities : Outcome E Paths
  unfolding process_directory
  collect_modified_vulnerabilities = do
    active ← process_directory (codes "active") []
    process_directory (codes "retired") active

  abbrev pub Collected : Type 0
  Collected = List VulnerabilityWithAffected × List (Bytes × Unit {0})

  abbrev pub add_vulnerability :
      Collected → VulnerabilityWithAffected × List (Bytes × Unit {0}) → Collected
  add_vulnerability (vulns, notes) (v, unknown) =
      (vulns ++ v ∷ [], add_notes (o.visit (Bytes × Unit {0}) unknown) notes)

  -- A file that cannot be opened is skipped.
  abbrev pub collect_file : Option Bytes → Collected → Outcome E Collected
  collect_file none c = ok c
  collect_file (some text) c = do
    parsed ← parse_ubuntu_cve parsers text
    ok (add_vulnerability c parsed)

  unfoldable pub collect_files : Paths → Collected → Outcome E Collected
  unfolding parse_ubuntu_cve add_notes
  collect_files [] c = ok c
  collect_files ((path, _) ∷ paths) c = do
    next ← collect_file (git.open_file path) c
    collect_files paths next

  unfoldable pub collect_vulnerabilities_and_notes :
      Paths → Outcome E (List VulnerabilityWithAffected × List Bytes)
  unfolding collect_files
  collect_vulnerabilities_and_notes paths = do
    (vulns, notes) ← collect_files (o.visit (Bytes × Unit {0}) paths) ([], [])
    ok (vulns, map (λ (x : Bytes × Unit {0}). x.0) (o.visit (Bytes × Unit {0}) notes))

  -- A commit with notes does not count as managed.
  abbrev pub response : Bytes → Bytes → List VulnerabilityWithAffected × List Bytes → UpdateResponse
  response commit db_commit (vulns, notes) = record {
    flag_name = updater_flag;
    flag_value = if is_empty notes then commit else db_commit;
    notes = notes;
    vulnerabilities = vulns;
  }

  unfoldable pub changed : Bytes → Bytes → Outcome E UpdateResponse
  unfolding collect_modified_vulnerabilities collect_vulnerabilities_and_notes
  changed commit db_commit = do
    paths ← collect_modified_vulnerabilities
    found ← collect_vulnerabilities_and_notes paths
    ok (response commit db_commit found)

  abbrev pub unless_same : Bytes → Bytes → Outcome E UpdateResponse
  unless_same commit db_commit =
      if commit === db_commit
      then ok (record no_response { flag_name = updater_flag; flag_value = commit })
      else changed commit db_commit

-- Update begins a transaction before it asks for the flag.
unfoldable pub update :
    (d : Datastore)
    → Parsers
    → MapOrder
    → Tracker d.Error
    → d.Store
    → Outcome d.Error UpdateResponse
unfolding changed
update d parsers o git store = do
  commit ← git.clone_or_pull
  tx ← d.begin store
  found ← find_key_value_and_rollback d updater_flag store
  unless_same parsers o git commit (flag_value found)
