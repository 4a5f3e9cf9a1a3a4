-- ===== src/Updater/Changes/Found.antt =====
-- What findVulnerabilityChanges finds: for each id, the old and the new vulnerability are compared.
use clair.Database.{VulnerabilityId, VulnerabilityWithAffected, vulnerability_id_eq, id_of, find_by}
use clair.Updater.Changes.{
  VulnerabilityChange, ChangeMap, is_vulnerability_changed, add_old, step_new, add_new,
  find_changes,
}
use clair.Prelude.{
  true, false, Option, none, some, List, [], ◌∷◌, map, elem, Unique, get, put, delete, get-put,
  get-delete, ◌===◌, ===_iff, ===-refl, if◌then◌else◌, ◌≡◌, refl, arith, ◌∙◌, ap, Bool-cases,
  Option-cases, inl, inr,
}

abbrev pub ids : List VulnerabilityWithAffected → List VulnerabilityId
ids vs = map id_of vs

-- The change of one id: nothing, a removal, an addition, or an update of what has changed.
unfoldable pub expected :
    Option VulnerabilityWithAffected → Option VulnerabilityWithAffected → Option VulnerabilityChange
expected none none = none
expected (some o) none = some (record { old = some o; new = none })
expected none (some n) = some (record { old = none; new = some n })
expected (some o) (some n) =
    if is_vulnerability_changed false (some o) (some n)
    then some (record { old = some o; new = some n })
    else none

get-nil : (id : VulnerabilityId) → get {V = VulnerabilityChange} id [] ≡ none
unfolding get
get-nil id = refl

abbrev removal :
    Option VulnerabilityWithAffected → Option VulnerabilityChange → Option VulnerabilityChange
removal none c = c
removal (some v) c = some (record { old = some v; new = none })

-- What a new vulnerability makes of the entry of its id.
abbrev update : Option VulnerabilityChange → VulnerabilityWithAffected → Option VulnerabilityChange
update none v = some (record { old = none; new = some v })
update (some c) v =
    if is_vulnerability_changed false c.old (some v) then some (record c { new = some v }) else none

abbrev update_by :
    Option VulnerabilityChange → Option VulnerabilityWithAffected → Option VulnerabilityChange
update_by c none = c
update_by c (some v) = update c v

find_by-none :
    (id : VulnerabilityId) (vs : List VulnerabilityWithAffected)
    → elem id (ids vs) ≡ false
    → find_by id vs ≡ none
unfolding find_by
find_by-none id [] h = refl
find_by-none id (v ∷ vs) h = ground (arith, find_by-none id vs)

-- The three things that a new vulnerability does to the map.
unfoldable pub Steps : ChangeMap → VulnerabilityWithAffected → Option VulnerabilityChange → Type 0
Steps changes v none =
    step_new changes v ≡ put (id_of v) (record { old = none; new = some v }) changes
Steps changes v (some c) = step_new changes v ≡ (
    if is_vulnerability_changed false c.old (some v)
    then put (id_of v) (record c { new = some v }) changes
    else delete (id_of v) changes)

pub step_new-Steps :
    (changes : ChangeMap) (v : VulnerabilityWithAffected) → Steps changes v (get (id_of v) changes)
unfolding step_new Steps
step_new-Steps changes v = elim (Option-cases (get (id_of v) changes)) [
  | inl e ↦ rw e (ground (arith, e))
  | inr (c, e) ↦ rw e (ground (arith, e))
]

get-step_new :
    (changes : ChangeMap) (v : VulnerabilityWithAffected) (id : VulnerabilityId)
    → get id (step_new changes v)
      ≡ (if id_of v === id then update (get (id_of v) changes) v else get id changes)
unfolding Steps
get-step_new changes v id = by_entry (get (id_of v) changes) (step_new-Steps changes v)
  where
    by_entry :
        (c : Option VulnerabilityChange)
        → Steps changes v c
        → get id (step_new changes v) ≡ (if id_of v === id then update c v else get id changes)
    by_entry none e = rw (e, get-put (id_of v) id (record { old = none; new = some v }) changes)
    by_entry (some c) e = ground (
      arith,
      e,
      get-put (id_of v) id (record c { new = some v }) changes,
      get-delete (id_of v) id changes,
    )

get-add_new :
    (vs : List VulnerabilityWithAffected) (changes : ChangeMap) (id : VulnerabilityId)
    → Unique (ids vs)
    → get id (add_new changes vs) ≡ update_by (get id changes) (find_by id vs)
unfolding add_new find_by
get-add_new [] changes id u = refl
get-add_new (v ∷ vs) changes id u =
    get-add_new vs (step_new changes v) id u.1 ∙ elim (Bool-cases (id_of v === id)) [
      | inl e ↦
          let same = (===_iff (id_of v) id).0 e in
          rw (
            get-step_new changes v id,
            e,
            find_by-none id vs (rw same at u.0),
            ap (λ i. get i changes) same,
          )
      | inr e ↦ rw (get-step_new changes v id, e)
    ]

pub add_old-fresh :
    (changes : ChangeMap) (v : VulnerabilityWithAffected) (vs : List VulnerabilityWithAffected)
    → get (id_of v) changes ≡ none
    → add_old changes (v ∷ vs)
      ≡ add_old (put (id_of v) (record { old = some v; new = none }) changes) vs
unfolding add_old
add_old-fresh changes v vs h = ground (arith, h)

get-add_old :
    (vs : List VulnerabilityWithAffected) (changes : ChangeMap)
    → Unique (ids vs)
    → ((id : VulnerabilityId) → elem id (ids vs) ≡ true → get id changes ≡ none)
    → (m : ChangeMap) × (add_old changes vs ≡ some m)
      × ((id : VulnerabilityId) → get id m ≡ removal (find_by id vs) (get id changes))
unfolding add_old find_by
get-add_old [] changes u h = (changes, refl, λ id. refl)
get-add_old (v ∷ vs) changes u h =
    let entry : VulnerabilityChange = record { old = some v; new = none } in
    let next = put (id_of v) entry changes in
    let (m, e, f) =
      get-add_old vs next u.1
        (λ id k. ground (arith, h id, u.0, get-put (id_of v) id entry changes)) in
    (
      m,
      add_old-fresh changes v vs (h (id_of v) (ground (arith, ===-refl (id_of v)))) ∙ e,
      λ id. f id ∙ ground (arith, get-put (id_of v) id entry changes, find_by-none id vs, u.0),
    )

-- Of old and new vulnerabilities that are each unique by id, findVulnerabilityChanges returns
-- without an error, and for every id it finds a removal if the id is only old, an addition if it is
-- only new, an update if isVulnerabilityChanged says so of the two, and nothing else.
pub find_changes_lem :
    (old new : List VulnerabilityWithAffected)
    → Unique (ids old)
    → Unique (ids new)
    → (m : ChangeMap) × (find_changes old new ≡ some m)
      × ((id : VulnerabilityId) → get id m ≡ expected (find_by id old) (find_by id new))
unfolding find_changes expected
find_changes_lem old new u w =
    let (m, e, f) = get-add_old old [] u (λ id h. get-nil id) in
    (add_new m new, rw e, λ id. get-add_new new m id w ∙ ground (arith, f id, get-nil id))
