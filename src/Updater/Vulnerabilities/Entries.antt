-- ===== src/Updater/Vulnerabilities/Entries.antt =====
-- The changes that updateVulnerabilities finds: which ids it removes, and which vulnerabilities it adds.
use clair.Database.{VulnerabilityId, VulnerabilityWithAffected, vulnerability_id_eq, id_of, find_by}
use clair.Updater.Changes.{
  VulnerabilityChange, ChangeMap, is_vulnerability_changed, add_old, step_new, add_new,
  find_changes, to_remove, to_add,
}
use clair.Updater.Changes.Found.{ids, expected, Steps, step_new-Steps, add_old-fresh}
use clair.Prelude.{
  Bool, true, false, Option, none, some, List, [], ◌∷◌, map, elem, Unique, get, Distinct,
  put-Distinct, delete-Distinct, get-none, has_key, ◌===◌, ===_iff, ===-refl, ◌≡◌, refl, arith, ◌∙◌,
  ap, sym, subst, Bool-cases, Option-cases, inl, inr,
}

-- The old and the new side of the entry of an id.
abbrev pub old_of : Option VulnerabilityChange → Option VulnerabilityWithAffected
old_of none = none
old_of (some c) = c.old

abbrev pub new_of : Option VulnerabilityChange → Option VulnerabilityWithAffected
new_of none = none
new_of (some c) = c.new

abbrev pub is_some : Option VulnerabilityWithAffected → Bool
is_some none = false
is_some (some v) = true

abbrev pub Named : VulnerabilityId → Option VulnerabilityWithAffected → Type 0
Named id none = Unit
Named id (some v) = id_of v ≡ id

-- Each entry holds vulnerabilities of its own id.
abbrev pub Coherent : ChangeMap → Type 0
Coherent [] = Unit
Coherent ((k, c) ∷ m) = Named k c.old × Named k c.new × Coherent m

abbrev pub changes_of : ChangeMap → List VulnerabilityChange
changes_of m = map (λ (x : VulnerabilityId × VulnerabilityChange). x.1) m

some_inj : {A : Type 0} {a b : A} → some a ≡ some b → a ≡ b
some_inj e = cc

step_new-Distinct :
    (m : ChangeMap) (v : VulnerabilityWithAffected) → Distinct m → Distinct (step_new m v)
unfolding Steps
step_new-Distinct m v h = by_entry (get (id_of v) m) (step_new-Steps m v)
  where
    by_entry : (c : Option VulnerabilityChange) → Steps m v c → Distinct (step_new m v)
    by_entry none e = rw e (put-Distinct (id_of v) _ m h)
    by_entry (some c) e = rw e (elim (Bool-cases (is_vulnerability_changed false c.old (some v))) [
      | inl x ↦ rw x (put-Distinct (id_of v) _ m h)
      | inr x ↦ rw x (delete-Distinct (id_of v) m h)
    ])

add_new-Distinct :
    (vs : List VulnerabilityWithAffected) (m : ChangeMap) → Distinct m → Distinct (add_new m vs)
unfolding add_new
add_new-Distinct [] m h = h
add_new-Distinct (v ∷ vs) m h = add_new-Distinct vs (step_new m v) (step_new-Distinct m v h)

add_old-Distinct :
    (vs : List VulnerabilityWithAffected) (m after : ChangeMap)
    → Distinct m
    → add_old m vs ≡ some after
    → Distinct after
unfolding add_old
add_old-Distinct [] m after h e = subst Distinct (some_inj e) h
add_old-Distinct (v ∷ vs) m after h e = elim (Option-cases (get (id_of v) m)) [
  | inl x ↦
      add_old-Distinct vs _ after (put-Distinct (id_of v) _ m h) (sym (add_old-fresh m v vs x) ∙ e)
  | inr (c, x) ↦ absurd (ground (arith, x, e))
]

pub find_changes-Distinct :
    (old new : List VulnerabilityWithAffected) (m : ChangeMap)
    → find_changes old new ≡ some m
    → Distinct m
unfolding find_changes
find_changes-Distinct old new m e = elim (Option-cases (add_old [] old)) [
  | inl x ↦ absurd (cc (rw x at e))
  | inr (after, x) ↦
      let q : add_new after new ≡ m = some_inj (rw x at e) in
      subst Distinct q (add_new-Distinct new after (add_old-Distinct old [] after tt x))
]

pub elem-to_remove :
    (m : ChangeMap) (id : VulnerabilityId)
    → Distinct m
    → Coherent m
    → elem id (to_remove (changes_of m)) ≡ is_some (old_of (get id m))
unfolding to_remove get
elem-to_remove [] id h c = refl
elem-to_remove ((k, c) ∷ m) id h n = elim (Option-cases c.old) [
  | inl e ↦ ground (arith, e, elem-to_remove m id h.1 n.2, get-none k m h.0, ===_iff k id)
  | inr (v, e) ↦
      let named : id_of v ≡ k = rw e at n.0 in
      ground (arith, e, elem-to_remove m id h.1 n.2, ap (λ j. j === id) named)
]

pub find_by-to_add :
    (m : ChangeMap) (id : VulnerabilityId)
    → Distinct m
    → Coherent m
    → find_by id (to_add (changes_of m)) ≡ new_of (get id m)
unfolding to_add get find_by
find_by-to_add [] id h c = refl
find_by-to_add ((k, c) ∷ m) id h n = elim (Option-cases c.new) [
  | inl e ↦ ground (arith, e, find_by-to_add m id h.1 n.2, get-none k m h.0, ===_iff k id)
  | inr (v, e) ↦
      let named : id_of v ≡ k = rw e at n.1 in
      ground (arith, e, find_by-to_add m id h.1 n.2, ap (λ j. j === id) named)
]

to_add-missing :
    (m : ChangeMap) (id : VulnerabilityId)
    → has_key id m ≡ false
    → Coherent m
    → elem id (ids (to_add (changes_of m))) ≡ false
unfolding to_add
to_add-missing [] id h n = refl
to_add-missing ((k, c) ∷ m) id h n = elim (Option-cases c.new) [
  | inl e ↦ ground (arith, e, to_add-missing m id, n.2)
  | inr (v, e) ↦
      let named : id_of v ≡ k = rw e at n.1 in
      ground (arith, e, to_add-missing m id (ground (arith, h)) n.2, ap (λ j. j === id) named)
]

pub to_add-Unique : (m : ChangeMap) → Distinct m → Coherent m → Unique (ids (to_add (changes_of m)))
unfolding to_add
to_add-Unique [] h n = tt
to_add-Unique ((k, c) ∷ m) h n = elim (Option-cases c.new) [
  | inl e ↦ rw e (to_add-Unique m h.1 n.2)
  | inr (v, e) ↦
      let named : id_of v ≡ k = rw e at n.1 in
      rw e (
        ap (λ j. elem j (ids (to_add (changes_of m)))) named ∙ to_add-missing m k h.0 n.2,
        to_add-Unique m h.1 n.2,
      )
]

pub find_by-Named :
    (id : VulnerabilityId) (vs : List VulnerabilityWithAffected) → Named id (find_by id vs)
unfolding find_by
find_by-Named id [] = tt
find_by-Named id (v ∷ vs) = elim (Bool-cases (id_of v === id)) [
  | inl x ↦ rw x ((===_iff (id_of v) id).0 x)
  | inr x ↦ rw x (find_by-Named id vs)
]

pub expected-Named :
    (id : VulnerabilityId) (a b : Option VulnerabilityWithAffected) (c : VulnerabilityChange)
    → Named id a
    → Named id b
    → expected a b ≡ some c
    → Named id c.old × Named id c.new
unfolding expected
expected-Named id none none c n k e = absurd (cc)
expected-Named id (some o) none c n k e = rw (← some_inj e) (n, tt)
expected-Named id none (some b) c n k e = rw (← some_inj e) (tt, k)
expected-Named id (some o) (some b) c n k e =
    elim (Bool-cases (is_vulnerability_changed false (some o) (some b))) [
      | inl x ↦ rw (← some_inj (rw x at e)) (n, k)
      | inr x ↦ absurd (cc (rw x at e))
    ]

-- The entries of a map whose lookups are as expected are coherent.
pub Coherent-all :
    (m : ChangeMap)
    → Distinct m
    → ((id : VulnerabilityId) (c : VulnerabilityChange)
        → get id m ≡ some c
        → Named id c.old × Named id c.new)
    → Coherent m
unfolding get
Coherent-all [] h f = tt
Coherent-all ((k, c) ∷ m) h f =
    let (a, b) = f k c (rw (===-refl k) refl) in
    (
      a,
      b,
      Coherent-all m h.1 (λ id d e.
          f id d (ground (arith, e, ===_iff k id, h.0, get-none id m, ap (λ j. has_key j m)))),
    )
