-- ===== src/Pgsql/Locks.antt =====
-- database/pgsql/lock.go: locks that expire. A moment is the number of nanoseconds since Go's zero time,
-- which lies further back than a time.Duration reaches; a row of the table Lock stands under its name,
-- which is unique.
pub mod Rows
pub mod Left
use clair.Prelude.{
  ℕ, zero, suc, ◌+◌, ◌-◌, ℤ, pos, pos_part, neg_part, eqb_ℤ, Bytes, bytes_eq, Bool, true, false,
  ◌&&◌, ◌||◌, Option, none, some, List, [], ◌∷◌, get, put, is_empty, ltb, ◌==◌, ◌===◌,
  if◌then◌else◌, Outcome, ok, err, panic, hang, ◌>>=◌,
}

pub record Lock : Type 0 where
  pub owner : Bytes
  pub until : ℕ

abbrev pub Locks : Type 0
Locks = List (Bytes × Lock)

pub data LockError : Type 0 where
  invalid_lock_parameters : LockError
  not_found : LockError
  failed : Bytes → LockError

-- Whether a statement, or the begin or commit of its transaction, fails for a reason of the database's
-- own.
pub record Faults : Type 0 where
  pub on_begin : Option Bytes
  pub on_update : Option Bytes
  pub on_prune : Option Bytes
  pub on_insert : Option Bytes
  pub on_remove : Option Bytes
  pub on_search : Option Bytes
  pub on_commit : Option Bytes

abbrev pub unless {ℓ} : {A : Type ℓ} → Option Bytes → A → Outcome LockError A
unless none a = ok a
unless (some text) a = err (failed text)

-- UPDATE Lock SET until = $3 WHERE name = $1 AND owner = $2, and the number of rows it affects.
unfoldable pub update_lock : Bytes → Bytes → ℕ → Locks → Locks
update_lock name owner until [] = []
update_lock name owner until ((n, l) ∷ locks) =
    let rest = update_lock name owner until locks in
    if n === name && l.owner === owner
    then (n, record l { until = until }) ∷ rest
    else (n, l) ∷ rest

unfoldable pub rows_owned : Bytes → Bytes → Locks → ℕ
rows_owned name owner [] = 0
rows_owned name owner ((n, l) ∷ locks) =
    let rest = rows_owned name owner locks in
    if n === name && l.owner === owner then suc rest else rest

-- DELETE FROM Lock WHERE name = $1 AND owner = $2
unfoldable pub remove_lock : Bytes → Bytes → Locks → Locks
remove_lock name owner [] = []
remove_lock name owner ((n, l) ∷ locks) =
    let rest = remove_lock name owner locks in
    if n === name && l.owner === owner then rest else (n, l) ∷ rest

-- DELETE FROM LOCK WHERE until < CURRENT_TIMESTAMP
unfoldable pub remove_lock_expired : ℕ → Locks → Locks
remove_lock_expired current [] = []
remove_lock_expired current ((n, l) ∷ locks) =
    let rest = remove_lock_expired current locks in
    if ltb l.until current then rest else (n, l) ∷ rest

-- INSERT INTO lock(name, owner, until) VALUES ($1, $2, $3); a second row of a name is refused.
abbrev pub insert_unless_there : Bytes → Lock → Locks → Option Lock → Option Locks
insert_unless_there name l locks (some _) = none
insert_unless_there name l locks none = some (put name l locks)

abbrev pub soi_lock : Bytes → Lock → Locks → Option Locks
soi_lock name l locks = insert_unless_there name l locks (get name locks)

-- What Lock returns when it inserts: whether it has the lock, and until when.
abbrev pub inserted : ℕ → Locks → Option Locks → (Bool × ℕ) × Locks
inserted until before none = ((false, until), before)
inserted until before (some after) = ((true, until), after)

-- time.Now().Add(duration); a duration may be negative.
abbrev pub add_duration : ℕ → ℤ → ℕ
add_duration now duration = now + pos_part duration - neg_part duration

module _ (faults : Faults) where
  unfoldable pub prune_locks : ℕ → Locks → Outcome LockError Locks
  unfolding remove_lock_expired
  prune_locks current locks = unless faults.on_prune (remove_lock_expired current locks)

  -- Lock, at the client's clock `now` and the database's clock `current`.
  unfoldable pub lock :
      ℕ → ℕ → Bytes → Bytes → ℤ → Bool → Locks → Outcome LockError ((Bool × ℕ) × Locks)
  unfolding update_lock rows_owned prune_locks
  lock now current name owner duration renew locks =
      let until = add_duration now duration in
      if is_empty name || is_empty owner || eqb_ℤ duration (pos 0)
      then err invalid_lock_parameters
      else if renew
      then unless faults.on_update
          ((ltb 0 (rows_owned name owner locks), until), update_lock name owner until locks)
      else prune_locks current locks >>= λ pruned.
          unless faults.on_insert
            (inserted until pruned (soi_lock name (record { owner = owner; until = until }) pruned))

  unfoldable pub unlock : Bytes → Bytes → Locks → Outcome LockError Locks
  unfolding remove_lock
  unlock name owner locks =
      if is_empty name || is_empty owner
      then err invalid_lock_parameters
      else unless faults.on_remove (remove_lock name owner locks)

  abbrev pub found : Option Lock → Outcome LockError Lock
  found none = err not_found
  found (some l) = ok l

  unfoldable pub find_lock : Bytes → Locks → Outcome LockError Lock
  find_lock name locks =
      if is_empty name
      then err invalid_lock_parameters
      else unless faults.on_search (get name locks) >>= found
