-- ===== src/Updater/Changes.antt =====
-- isVulnerabilityChanged and findVulnerabilityChanges of updater.go.
pub mod Changed
pub mod Found
use mathlib.Core.Option
use clair.Database.{
  AffectedFeature, VulnerabilityId, VulnerabilityWithAffected, vulnerability_id_eq, id_of,
}
use clair.Prelude.{
  ℕ, Bool, true, false, not, ◌&&◌, ◌||◌, Option, none, some, List, [], ◌∷◌, ◌++◌, map, Bytes,
  bytes_eq, length, get, put, delete, ◌==◌, ◌===◌, MapOrder, if◌then◌else◌,
}

pub record VulnerabilityChange : Type 0 where
  pub old : Option VulnerabilityWithAffected
  pub new : Option VulnerabilityWithAffected

-- affected.Namespace.Name+":"+affected.FeatureName
abbrev pub affected_key : AffectedFeature → Bytes
affected_key f = f.namespace.name ++ b':' ∷ f.feature_name

-- checked[key] = false for each old feature.
unfoldable pub mark_all : List (Bytes × Bool) → List AffectedFeature → List (Bytes × Bool)
mark_all checked [] = checked
mark_all checked (f ∷ fs) = mark_all (put (affected_key f) false checked) fs

-- The second loop: a key that is not there, or that was there before, is a change.
unfoldable pub visit_all : List (Bytes × Bool) → List AffectedFeature → Bool
visit_all checked [] = false
visit_all checked (f ∷ fs) =
    let rest = visit_all (put (affected_key f) true checked) fs in
    elim (get (affected_key f) checked) [
      | none ↦ true
      | some visited ↦ if visited then true else rest
    ]

-- The first argument says whether the two pointers are the same one; a nil pointer is `none`.
unfoldable pub is_vulnerability_changed :
    Bool → Option VulnerabilityWithAffected → Option VulnerabilityWithAffected → Bool
is_vulnerability_changed true a b = false
is_vulnerability_changed false none b = true
is_vulnerability_changed false (some a) none = true
is_vulnerability_changed false (some a) (some b) =
    if a.vulnerability.severity === b.vulnerability.severity
      && length a.affected == length b.affected
    then visit_all (mark_all [] a.affected) b.affected
    else true

abbrev pub ChangeMap : Type 0
ChangeMap = List (VulnerabilityId × VulnerabilityChange)

-- The loop over the old vulnerabilities; `none` is the error "duplicated old vulnerability".
unfoldable pub add_old : ChangeMap → List VulnerabilityWithAffected → Option ChangeMap
add_old changes [] = some changes
add_old changes (v ∷ vs) =
    let rest = add_old (put (id_of v) (record { old = some v; new = none }) changes) vs in
    elim (get (id_of v) changes) [ some _ ↦ none | none ↦ rest ]

-- What one new vulnerability does to the map. The pointer &vuln is that of the loop's variable, and
-- no pointer of the map.
unfoldable pub step_new : ChangeMap → VulnerabilityWithAffected → ChangeMap
step_new changes v = elim (get (id_of v) changes) [
  | some change ↦
      if is_vulnerability_changed false change.old (some v)
      then put (id_of v) (record change { new = some v }) changes
      else delete (id_of v) changes
  | none ↦ put (id_of v) (record { old = none; new = some v }) changes
]

unfoldable pub add_new : ChangeMap → List VulnerabilityWithAffected → ChangeMap
add_new changes [] = changes
add_new changes (v ∷ vs) = add_new (step_new changes v) vs

unfoldable pub find_changes :
    List VulnerabilityWithAffected → List VulnerabilityWithAffected → Option ChangeMap
find_changes old new = Option.map (λ changes. add_new changes new) (add_old [] old)

unfoldable pub find_vulnerability_changes :
    MapOrder
    → List VulnerabilityWithAffected
    → List VulnerabilityWithAffected
    → Option (List VulnerabilityChange)
find_vulnerability_changes o old new =
    Option.map
      (λ changes. map (λ (x : VulnerabilityId × VulnerabilityChange). x.1) (o.visit _ changes))
      (find_changes old new)

-- The ids to remove and the vulnerabilities to add, from updateVulnerabilities.
unfoldable pub to_remove : List VulnerabilityChange → List VulnerabilityId
to_remove [] = []
to_remove (c ∷ cs) = let rest = to_remove cs in elim c.old [ some v ↦ id_of v ∷ rest | none ↦ rest ]

unfoldable pub to_add : List VulnerabilityChange → List VulnerabilityWithAffected
to_add [] = []
to_add (c ∷ cs) = let rest = to_add cs in elim c.new [ some v ↦ v ∷ rest | none ↦ rest ]
