-- ===== src/Database/Transactions.antt =====
-- The functions of database/dbutil.go that run one operation in a session. Each returns its result
-- beside the store that it leaves.
pub mod Atomic
use clair.Database.{
  Namespace, Feature, Layer, NamespacedFeature, Ancestry, AncestryLayer, NamespacedFeature-discrete,
  ancestry_layer_get_features, namespaced_feature_eq,
}
use clair.Database.Sets.{MapSet}
use clair.Database.Dbutil.{deduplicate}
use clair.Database.Session.{Datastore}
use clair.Prelude.{
  Bool, true, false, Option, none, some, List, [], ◌∷◌, ◌++◌, Bytes, Outcome, ok, err, panic, hang,
  ◌>>=◌,
}

-- DeduplicateNamespacedFeatures and GetAncestryFeatures.
unfoldable pub deduplicate_namespaced_features :
    MapSet NamespacedFeature → List NamespacedFeature → List NamespacedFeature
deduplicate_namespaced_features s features = deduplicate s features

unfoldable pub all_features : List AncestryLayer → List NamespacedFeature
all_features [] = []
all_features (l ∷ layers) = ancestry_layer_get_features l ++ all_features layers

unfoldable pub get_ancestry_features : MapSet NamespacedFeature → Ancestry → List NamespacedFeature
get_ancestry_features s ancestry = deduplicate_namespaced_features s (all_features ancestry.layers)

module _ (d : Datastore) where
  open d use {Store, Tx, Error}

  abbrev pub Result : Type 0 → Type 0
  Result A = Outcome Error A × Store

  -- The store behind a commit, and the old one if anything before it failed.
  abbrev pub committed : {A : Type 0} → A → Outcome Error Store → Store → Result A
  committed a (ok after) before = (ok a, after)
  committed a (err e) before = (err e, before)
  committed a panic before = (panic, before)
  committed a hang before = (hang, before)

  -- Commit behind an operation, or the deferred Rollback.
  abbrev pub finish : {A : Type 0} → Outcome Error (A × Tx) → Store → Result A
  finish (ok (a, tx)) store = committed a (d.commit tx) store
  finish (err e) store = (err e, store)
  finish panic store = (panic, store)
  finish hang store = (hang, store)

  abbrev pub write : Outcome Error Tx → Outcome Error (Unit {0} × Tx)
  write m = m >>= λ tx. ok (tt, tx)

  unfoldable pub persist_partial_layer_and_commit : Layer → Store → Result Unit
  persist_partial_layer_and_commit layer store =
      finish
        (d.begin store >>= λ tx.
          write (d.persist_layer layer.hash layer.features layer.namespaces layer.by tx))
        store

  unfoldable pub persist_features_and_commit : List Feature → Store → Result Unit
  persist_features_and_commit features store =
      finish (d.begin store >>= λ tx. write (d.persist_features features tx)) store

  unfoldable pub persist_namespaces_and_commit : List Namespace → Store → Result Unit
  persist_namespaces_and_commit namespaces store =
      finish (d.begin store >>= λ tx. write (d.persist_namespaces namespaces tx)) store

  unfoldable pub upsert_ancestry_and_commit : Ancestry → Store → Result Unit
  upsert_ancestry_and_commit ancestry store =
      finish (d.begin store >>= λ tx. write (d.upsert_ancestry ancestry tx)) store

  unfoldable pub persist_namespaced_features_and_commit :
      List NamespacedFeature → Store → Result Unit
  persist_namespaced_features_and_commit features store =
      finish (d.begin store >>= λ tx. write (d.persist_namespaced_features features tx)) store

  unfoldable pub cache_related_vulnerability_and_commit :
      List NamespacedFeature → Store → Result Unit
  cache_related_vulnerability_and_commit features store =
      finish (d.begin store >>= λ tx. write (d.cache_affected_namespaced_features features tx))
        store

  -- The functions that only look: they leave the store as it is.
  unfoldable pub find_key_value_and_rollback : Bytes → Store → Outcome Error (Option Bytes)
  find_key_value_and_rollback key store = d.begin store >>= d.find_key_value key

  unfoldable pub find_layer_and_rollback : Bytes → Store → Outcome Error (Option Layer)
  find_layer_and_rollback hash store = d.begin store >>= d.find_layer hash

  -- FindAncestryAndRollback defers the call of Rollback before it tests the error of Begin, and a
  -- session that Begin has not started is nil.
  abbrev pub find_ancestry_in : Bytes → Outcome Error Tx → Outcome Error (Option Ancestry)
  find_ancestry_in name (ok tx) = d.find_ancestry name tx
  find_ancestry_in name (err e) = panic
  find_ancestry_in name panic = panic
  find_ancestry_in name hang = hang

  unfoldable pub find_ancestry_and_rollback : Bytes → Store → Outcome Error (Option Ancestry)
  find_ancestry_and_rollback name store = find_ancestry_in name (d.begin store)
