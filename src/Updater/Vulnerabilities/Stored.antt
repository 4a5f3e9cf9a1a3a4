-- ===== src/Updater/Vulnerabilities/Stored.antt =====
-- What updateVulnerabilities leaves in the store.
use clair.Database.{VulnerabilityId, VulnerabilityWithAffected, vulnerability_id_eq, find_by}
use clair.Database.Session.{Datastore, VulnerabilityLaws}
use clair.Updater.Changes.{
  VulnerabilityChange, ChangeMap, is_vulnerability_changed, find_changes, to_remove,
}
use clair.Updater.Changes.Found.{ids, expected}
use clair.Updater.Vulnerabilities.{keep_valid}
use clair.Updater.Vulnerabilities.Entries.{is_some, changes_of}
use clair.Prelude.{
  false, Option, none, some, List, [], ◌∷◌, map, elem, get, MapOrder, ok, if◌then◌else◌, ◌≡◌, refl,
  arith,
}

-- What the store holds for an id behind the update: the new vulnerability, unless there is none or
-- it counts as unchanged.
unfoldable pub updated :
    Option VulnerabilityWithAffected
    → Option VulnerabilityWithAffected
    → Option VulnerabilityWithAffected
updated old none = old
updated none (some n) = some n
updated (some v) (some n) =
    if is_vulnerability_changed false (some v) (some n) then some n else some v

-- The entries in the order of the map.
module _ (o : MapOrder) (old new : List VulnerabilityWithAffected) (m : ChangeMap)
    (found : find_changes old new ≡ some m)
    (spec : (id : VulnerabilityId) → get id m ≡ expected (find_by id old) (find_by id new)) where
  abbrev visited : ChangeMap
  visited = o.visit (VulnerabilityId × VulnerabilityChange) m

-- An id is among those of a list just if the list has a vulnerability for it.
pub elem-ids :
    (id : VulnerabilityId) (vs : List VulnerabilityWithAffected)
    → elem id (ids vs) ≡ is_some (find_by id vs)
unfolding find_by
elem-ids id [] = refl
elem-ids id (v ∷ vs) = ground (arith, elem-ids id vs)

module _ (o : MapOrder) (d : Datastore) (laws : VulnerabilityLaws d) where
  open d use {Store, Tx, Error}
  open laws use {
    stored, lookup, lookup-begin, stored-commit, lookup-id, find_lem, lookup-delete, lookup-insert,
  }

  -- What a session that has found the old vulnerabilities does.
  module _ (new : List VulnerabilityWithAffected) (tx removed after : Tx) (m : ChangeMap)
      (found : find_changes (keep_valid (map (lookup tx) (ids new))) new ≡ some m)
      (spec : (id : VulnerabilityId)
        → get id m
          ≡ expected (find_by id (keep_valid (map (lookup tx) (ids new)))) (find_by id new))
      (r : d.delete_vulnerabilities (to_remove (changes_of (o.visit _ m))) tx ≡ ok removed) where
    abbrev old : List VulnerabilityWithAffected
    old = keep_valid (map (lookup tx) (ids new))
