-- ===== src/Tests/Memory.antt =====
-- A datastore in memory, which meets what the interface says of vulnerabilities.
use clair.Database.{
  VulnerabilityId, VulnerabilityWithAffected, vulnerability_id_eq, id_of, find_by, or_else,
}
use clair.Database.Session.{Datastore, VulnerabilityLaws}
use clair.Updater.Changes.Found.{ids}
use clair.Updater.Vulnerabilities.Entries.{is_some, Named, find_by-Named}
use clair.Updater.Vulnerabilities.Stored.{elem-ids}
use clair.Prelude.{
  true, Option, Option-cases, ◌∙◌, none, some, List, [], ◌∷◌, ◌++◌, map, Bytes, codes, elem,
  Outcome, ok, if◌then◌else◌, ◌===◌, ===_iff, ◌≡◌, refl, arith, sym, subst, ap, Bool-cases, inl,
  inr,
}

unfoldable pub remove :
    List VulnerabilityId → List VulnerabilityWithAffected → List VulnerabilityWithAffected
remove is [] = []
remove is (v ∷ vs) = if elem (id_of v) is then remove is vs else v ∷ remove is vs

find_by-remove :
    (is : List VulnerabilityId) (vs : List VulnerabilityWithAffected) (id : VulnerabilityId)
    → find_by id (remove is vs) ≡ (if elem id is then none else find_by id vs)
unfolding remove find_by
find_by-remove is [] id = ground arith
find_by-remove is (v ∷ vs) id = elim (Bool-cases (id_of v === id)) [
  | inl x ↦
      let same : elem (id_of v) is ≡ elem id is =
        ap (λ i. elem i is) ((===_iff (id_of v) id).0 x) in
      ground (arith, find_by-remove is vs id, same, x)
  | inr x ↦ ground (arith, find_by-remove is vs id, x)
]

find_by-append :
    (vs ws : List VulnerabilityWithAffected) (id : VulnerabilityId)
    → find_by id (vs ++ ws) ≡ or_else (find_by id vs) (find_by id ws)
unfolding find_by
find_by-append [] ws id = refl
find_by-append (v ∷ vs) ws id = ground (arith, find_by-append vs ws id)

-- Only the vulnerabilities are kept; one that is inserted stands behind the others, and the first of an
-- id is found.
abbrev pub memory : Datastore
memory = record {
  Store = List VulnerabilityWithAffected;
  Tx = List VulnerabilityWithAffected;
  Error = Bytes;
  new_error = λ t. t;
  error_text = λ t. t;
  begin = λ s. ok s;
  commit = λ tx. ok tx;
  upsert_ancestry = λ a tx. ok tx;
  find_ancestry = λ n tx. ok none;
  persist_detectors = λ d tx. ok tx;
  persist_features = λ f tx. ok tx;
  persist_namespaced_features = λ f tx. ok tx;
  cache_affected_namespaced_features = λ f tx. ok tx;
  persist_namespaces = λ n tx. ok tx;
  persist_layer = λ h f n b tx. ok tx;
  find_layer = λ h tx. ok none;
  insert_vulnerabilities = λ vs tx. ok (tx ++ vs);
  find_vulnerabilities = λ is tx. ok (map (λ i. find_by i tx) is);
  delete_vulnerabilities = λ is tx. ok (remove is tx);
  find_key_value = λ k tx. ok none;
}

-- A result is one value.
pub ok_inj : {A : Type 0} (a b : A) (p : Outcome Bytes A) → p ≡ ok a → p ≡ ok b → a ≡ b
ok_inj a b p h k = cc

named-id :
    (tx : List VulnerabilityWithAffected) (id : VulnerabilityId) (v : VulnerabilityWithAffected)
    → find_by id tx ≡ some v
    → id_of v ≡ id
named-id tx id v e = subst (Named id) e (find_by-Named id tx)

or_else-none : (o : Option VulnerabilityWithAffected) → or_else o none ≡ o
or_else-none none = refl
or_else-none (some a) = refl

-- Behind the others, what is inserted is found if there was nothing of its id.
inserted_absent :
    (vs tx : List VulnerabilityWithAffected) (id : VulnerabilityId)
    → (elem id (ids vs) ≡ true → find_by id tx ≡ none)
    → or_else (find_by id tx) (find_by id vs) ≡ or_else (find_by id vs) (find_by id tx)
inserted_absent vs tx id absent = elim (Option-cases (find_by id vs)) [
  | inl e ↦ rw e (or_else-none (find_by id tx))
  | inr (v, e) ↦ rw (absent (elem-ids id vs ∙ ap is_some e), e) refl
]

abbrev memory_laws : VulnerabilityLaws memory
memory_laws = record {
  stored = λ s id. find_by id s;
  lookup = λ tx id. find_by id tx;
  lookup-begin = λ s tx e id. ap (find_by id) (sym (ok_inj _ _ (ok _) refl e));
  stored-commit = λ tx s e id. ap (find_by id) (sym (ok_inj _ _ (ok _) refl e));
  lookup-id = named-id;
  find_lem = λ is tx found e. sym (ok_inj _ _ (ok _) refl e);
  lookup-delete = λ is tx after there e id.
      subst (λ t. find_by id t ≡ (if elem id is then none else find_by id tx))
        (ok_inj _ _ (ok _) refl e) (find_by-remove is tx id);
  lookup-insert = λ vs tx after u absent e id.
      subst (λ t. find_by id t ≡ or_else (find_by id vs) (find_by id tx)) (ok_inj _ _ (ok _) refl e)
        (find_by-append tx vs id ∙ inserted_absent vs tx id (absent id));
}

abbrev vulnerability : Bytes → Bytes → VulnerabilityWithAffected
vulnerability name severity = record {
  vulnerability = record {
    name = name;
    namespace = record { name = codes "debian:9"; version_format = codes "dpkg" };
    description = [];
    link = [];
    severity = severity;
    metadata = none;
  };
  affected = [];
}

-- One vulnerability that the store holds with another severity, and one that it does not hold.
abbrev fetched : List VulnerabilityWithAffected
fetched =
    vulnerability (codes "CVE-1") (codes "High") ∷ vulnerability (codes "CVE-2") (codes "Low") ∷ []

abbrev held : List VulnerabilityWithAffected
held = vulnerability (codes "CVE-1") (codes "Low") ∷ []
