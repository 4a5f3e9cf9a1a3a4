-- ===== src/Pgsql/Locks/Rows.antt =====
-- What the statements of database/pgsql/lock.go do to the row of a name.
use mathlib.Core.Option
use clair.Pgsql.Locks.{Lock, Locks, update_lock, remove_lock, remove_lock_expired}
use clair.Prelude.{
  ℕ, Bytes, bytes_eq, true, false, ◌&&◌, Option, none, some, [], ◌∷◌, get, has_key, Distinct,
  get-none, ltb, ◌===◌, ===_iff, if◌then◌else◌, ◌≡◌, refl, sym, ap, ◌∙◌, arith, Bool-cases,
  if_either, inl, inr,
}

abbrev pub renewed : Bytes → Bytes → ℕ → Bytes → Lock → Lock
renewed name owner until k l =
    if k === name && l.owner === owner then record l { until = until } else l

same_name : (n k name : Bytes) → (n === k) ≡ true → (n === name) ≡ (k === name)
same_name n k name e = ap (λ j. j === name) ((===_iff n k).0 e)

pub get-update_lock :
    (name owner k : Bytes) (until : ℕ) (locks : Locks)
    → get k (update_lock name owner until locks)
      ≡ Option.map (renewed name owner until k) (get k locks)
unfolding get update_lock
get-update_lock name owner k until [] = refl
get-update_lock name owner k until ((n, l) ∷ locks) =
    ground (arith, get-update_lock name owner k until locks, same_name n k name)

has_key-update_lock :
    (name owner k : Bytes) (until : ℕ) (locks : Locks)
    → has_key k (update_lock name owner until locks) ≡ has_key k locks
unfolding update_lock
has_key-update_lock name owner k until [] = refl
has_key-update_lock name owner k until ((n, l) ∷ locks) =
    ground (arith, has_key-update_lock name owner k until locks)

has_key-remove_lock :
    (name owner k : Bytes) (locks : Locks)
    → has_key k locks ≡ false
    → has_key k (remove_lock name owner locks) ≡ false
unfolding remove_lock
has_key-remove_lock name owner k [] h = refl
has_key-remove_lock name owner k ((n, l) ∷ locks) h =
    ground (arith, has_key-remove_lock name owner k locks)

has_key-remove_lock_expired :
    (current : ℕ) (k : Bytes) (locks : Locks)
    → has_key k locks ≡ false
    → has_key k (remove_lock_expired current locks) ≡ false
unfolding remove_lock_expired
has_key-remove_lock_expired current k [] h = refl
has_key-remove_lock_expired current k ((n, l) ∷ locks) h =
    ground (arith, has_key-remove_lock_expired current k locks)

abbrev pub if_current : ℕ → Option Lock → Option Lock
if_current current none = none
if_current current (some l) = if ltb l.until current then none else some l

pub get-remove_lock_expired :
    (current : ℕ) (k : Bytes) (locks : Locks)
    → Distinct locks
    → get k (remove_lock_expired current locks) ≡ if_current current (get k locks)
unfolding get remove_lock_expired
get-remove_lock_expired current k [] h = refl
get-remove_lock_expired current k ((n, l) ∷ locks) h = elim (Bool-cases (n === k)) [
  | inl x ↦
      let gone : get k (remove_lock_expired current locks) ≡ none = get-none k _ (
        has_key-remove_lock_expired current k locks
          (ap (λ j. has_key j locks) (sym ((===_iff n k).0 x)) ∙ h.0)) in
      ground arith
  | inr x ↦ ground (arith, get-remove_lock_expired current k locks h.1)
]

abbrev pub unless_owned : Bytes → Bytes → Bytes → Option Lock → Option Lock
unless_owned name owner k none = none
unless_owned name owner k (some l) = if k === name && l.owner === owner then none else some l

pub get-remove_lock :
    (name owner k : Bytes) (locks : Locks)
    → Distinct locks
    → get k (remove_lock name owner locks) ≡ unless_owned name owner k (get k locks)
unfolding get remove_lock
get-remove_lock name owner k [] h = refl
get-remove_lock name owner k ((n, l) ∷ locks) h = elim (Bool-cases (n === k)) [
  | inl x ↦
      let gone : get k (remove_lock name owner locks) ≡ none = get-none k _ (
        has_key-remove_lock name owner k locks
          (ap (λ j. has_key j locks) (sym ((===_iff n k).0 x)) ∙ h.0)) in
      let same = same_name n k name x in ground arith
  | inr x ↦ ground (arith, get-remove_lock name owner k locks h.1)
]

pub update_lock-Distinct :
    (name owner : Bytes) (until : ℕ) (locks : Locks)
    → Distinct locks
    → Distinct (update_lock name owner until locks)
unfolding update_lock
update_lock-Distinct name owner until [] h = tt
update_lock-Distinct name owner until ((n, l) ∷ locks) h =
    let rest = update_lock-Distinct name owner until locks h.1 in
    let fresh = has_key-update_lock name owner n until locks ∙ h.0 in
    if_either Distinct (n === name && l.owner === owner) (fresh, rest) (fresh, rest)

pub remove_lock-Distinct :
    (name owner : Bytes) (locks : Locks) → Distinct locks → Distinct (remove_lock name owner locks)
unfolding remove_lock
remove_lock-Distinct name owner [] h = tt
remove_lock-Distinct name owner ((n, l) ∷ locks) h =
    if_either Distinct (n === name && l.owner === owner) (remove_lock-Distinct name owner locks h.1)
      (has_key-remove_lock name owner n locks h.0, remove_lock-Distinct name owner locks h.1)

pub remove_lock_expired-Distinct :
    (current : ℕ) (locks : Locks) → Distinct locks → Distinct (remove_lock_expired current locks)
unfolding remove_lock_expired
remove_lock_expired-Distinct current [] h = tt
remove_lock_expired-Distinct current ((n, l) ∷ locks) h =
    if_either Distinct (ltb l.until current) (remove_lock_expired-Distinct current locks h.1) (
      has_key-remove_lock_expired current n locks h.0,
      remove_lock_expired-Distinct current locks h.1,
    )
