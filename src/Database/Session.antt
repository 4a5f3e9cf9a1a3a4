-- ===== src/Database/Session.antt =====
-- The interfaces Datastore and Session of database/database.go, which database/pgsql implements: a
-- store, and sessions that work on a copy of it until Commit. Rollback drops a session, and the code
-- ignores its error.
use clair.Database.{
  Detector, Namespace, Feature, LayerNamespace, LayerFeature, Layer, NamespacedFeature, Ancestry,
  VulnerabilityId, VulnerabilityWithAffected, vulnerability_id_eq, id_of, find_by, or_else,
  detector_eq,
}
use clair.Prelude.{
  Option, none, some, List, map, Bytes, Outcome, ok, elem, Unique, ◌≡◌, ◌≢◌, true, if◌then◌else◌,
}

pub record Datastore : Type 1 where
  pub Store : Type 0
  pub Tx : Type 0
  pub Error : Type 0
  -- errors.New, since the type error is open, and the method Error.
  pub new_error : Bytes → Error
  pub error_text : Error → Bytes
  pub begin : Store → Outcome Error Tx
  pub commit : Tx → Outcome Error Store
  pub upsert_ancestry : Ancestry → Tx → Outcome Error Tx
  pub find_ancestry : Bytes → Tx → Outcome Error (Option Ancestry)
  pub persist_detectors : List Detector → Tx → Outcome Error Tx
  pub persist_features : List Feature → Tx → Outcome Error Tx
  pub persist_namespaced_features : List NamespacedFeature → Tx → Outcome Error Tx
  pub cache_affected_namespaced_features : List NamespacedFeature → Tx → Outcome Error Tx
  pub persist_namespaces : List Namespace → Tx → Outcome Error Tx
  pub persist_layer :
      Bytes → List LayerFeature → List LayerNamespace → List Detector → Tx → Outcome Error Tx
  pub find_layer : Bytes → Tx → Outcome Error (Option Layer)
  pub insert_vulnerabilities : List VulnerabilityWithAffected → Tx → Outcome Error Tx
  pub find_vulnerabilities :
      List VulnerabilityId → Tx → Outcome Error (List (Option VulnerabilityWithAffected))
  pub delete_vulnerabilities : List VulnerabilityId → Tx → Outcome Error Tx
  pub find_key_value : Bytes → Tx → Outcome Error (Option Bytes)

-- What the interface says of vulnerabilities: a session starts from the store and its commit becomes
-- the store, an id has at most one vulnerability, and the operations find, remove and add by id. A
-- removal is for ids that are in the database, and an insertion for unique ids that are not; nothing
-- is said of what they do for others.
pub record VulnerabilityLaws (d : Datastore) : Type 0 where
  pub stored : d.Store → VulnerabilityId → Option VulnerabilityWithAffected
  pub lookup : d.Tx → VulnerabilityId → Option VulnerabilityWithAffected
  pub lookup-begin :
      (s : d.Store) (tx : d.Tx)
      → d.begin s ≡ ok tx
      → (id : VulnerabilityId) → lookup tx id ≡ stored s id
  pub stored-commit :
      (tx : d.Tx) (s : d.Store)
      → d.commit tx ≡ ok s
      → (id : VulnerabilityId) → stored s id ≡ lookup tx id
  pub lookup-id :
      (tx : d.Tx) (id : VulnerabilityId) (v : VulnerabilityWithAffected)
      → lookup tx id ≡ some v
      → id_of v ≡ id
  pub find_lem :
      (ids : List VulnerabilityId) (tx : d.Tx) (found : List (Option VulnerabilityWithAffected))
      → d.find_vulnerabilities ids tx ≡ ok found
      → found ≡ map (lookup tx) ids
  pub lookup-delete :
      (ids : List VulnerabilityId) (tx after : d.Tx)
      → ((id : VulnerabilityId) → elem id ids ≡ true → lookup tx id ≢ none)
      → d.delete_vulnerabilities ids tx ≡ ok after
      → (id : VulnerabilityId) → lookup after id ≡ (if elem id ids then none else lookup tx id)
  pub lookup-insert :
      (vs : List VulnerabilityWithAffected) (tx after : d.Tx)
      → Unique (map id_of vs)
      → ((id : VulnerabilityId) → elem id (map id_of vs) ≡ true → lookup tx id ≡ none)
      → d.insert_vulnerabilities vs tx ≡ ok after
      → (id : VulnerabilityId) → lookup after id ≡ or_else (find_by id vs) (lookup tx id)

-- What the interface says of ancestries: one that was upserted and committed is found under its name,
-- with the same detectors.
pub record AncestryLaws (d : Datastore) : Type 0 where
  pub find-upsert :
      (a : Ancestry) (tx upserted found_in : d.Tx) (s : d.Store) (found : Option Ancestry)
      → d.upsert_ancestry a tx ≡ ok upserted
      → d.commit upserted ≡ ok s
      → d.begin s ≡ ok found_in
      → d.find_ancestry a.name found_in ≡ ok found
      → (b : Ancestry) × (found ≡ some b) × ((dt : Detector) → elem dt b.by ≡ elem dt a.by)
