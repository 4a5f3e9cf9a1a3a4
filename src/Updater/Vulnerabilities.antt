-- ===== src/Updater/Vulnerabilities.antt =====
-- updateVulnerabilities of updater.go, in a session of the datastore.
pub mod Entries
pub mod Stored
use clair.Database.{VulnerabilityId, VulnerabilityWithAffected, id_of}
use clair.Database.Session.{Datastore}
use clair.Database.Transactions.{Result, finish}
use clair.Updater.Changes.{VulnerabilityChange, find_vulnerability_changes, to_remove, to_add}
use clair.Prelude.{
  Bool, true, false, Option, none, some, List, [], ◌∷◌, map, Bytes, codes, MapOrder, Outcome, ok,
  err, panic, hang, ◌>>=◌,
}

-- The loop that keeps the valid ones of the vulnerabilities that were found.
unfoldable pub keep_valid : List (Option VulnerabilityWithAffected) → List VulnerabilityWithAffected
keep_valid [] = []
keep_valid (none ∷ vs) = keep_valid vs
keep_valid (some v ∷ vs) = v ∷ keep_valid vs

module _ (o : MapOrder) (d : Datastore) where
  open d use {Store, Tx, Error}

  abbrev pub or_duplicated :
      Option (List VulnerabilityChange) → Outcome Error (List VulnerabilityChange)
  or_duplicated none = err (d.new_error (codes "duplicated old vulnerability"))
  or_duplicated (some changes) = ok changes

  -- What happens in the session behind the valid old vulnerabilities.
  unfoldable pub write_changes :
      List VulnerabilityWithAffected
      → List VulnerabilityWithAffected
      → Tx
      → Outcome Error (List VulnerabilityChange × Tx)
  write_changes vulnerabilities old tx = do
    changes ← or_duplicated (find_vulnerability_changes o old vulnerabilities)
    removed ← d.delete_vulnerabilities (to_remove changes) tx
    added ← d.insert_vulnerabilities (to_add changes) removed
    ok (changes, added)

  unfoldable pub apply_changes :
      List VulnerabilityWithAffected → Tx → Outcome Error (List VulnerabilityChange × Tx)
  apply_changes vulnerabilities tx = do
    old ← d.find_vulnerabilities (map id_of vulnerabilities) tx
    write_changes vulnerabilities (keep_valid old) tx

  unfoldable pub update_vulnerabilities :
      List VulnerabilityWithAffected → Store → Result d (List VulnerabilityChange)
  update_vulnerabilities [] store = (ok [], store)
  update_vulnerabilities (v ∷ vs) store = finish d (d.begin store >>= apply_changes (v ∷ vs)) store
