-- ===== src/Notifier/Locks.antt =====
-- lock and unlock of notifier.go: one operation on the table of locks in a transaction of its own. An
-- error is caught, and a lock that was not taken is rolled back.
pub mod Leases
pub mod Exclusion
use clair.Pgsql.Locks.{Lock, Locks, LockError, Faults, unless, lock, unlock, find_lock}
use clair.Prelude.{
  ℕ, ℤ, Bytes, Bool, true, false, Option, none, some, Outcome, ok, err, panic, hang, ◌>>=◌,
}

abbrev pub not_locked : Bool × ℕ
not_locked = (false, 0)

-- The store behind Commit, which may fail.
abbrev pub committed : Option Bytes → (Bool × ℕ) → Locks → Locks → (Bool × ℕ) × Locks
committed none answer before after = (answer, after)
committed (some _) answer before after = (not_locked, before)

abbrev pub commit_if_locked :
    Option Bytes → Outcome LockError ((Bool × ℕ) × Locks) → Locks → (Bool × ℕ) × Locks
commit_if_locked fault (ok ((true, until), after)) before =
    committed fault (true, until) before after
commit_if_locked fault (ok ((false, until), after)) before = ((false, until), before)
commit_if_locked fault (err _) before = (not_locked, before)
commit_if_locked fault panic before = (not_locked, before)
commit_if_locked fault hang before = (not_locked, before)

abbrev pub commit_unlocked : Option Bytes → Outcome LockError Locks → Locks → Locks
commit_unlocked none (ok after) before = after
commit_unlocked (some _) (ok after) before = before
commit_unlocked fault (err _) before = before
commit_unlocked fault panic before = before
commit_unlocked fault hang before = before

module _ (faults : Faults) where
  unfoldable pub lock_and_commit : ℕ → ℕ → Bytes → Bytes → ℤ → Bool → Locks → (Bool × ℕ) × Locks
  unfolding lock
  lock_and_commit now current name owner duration renew locks =
      commit_if_locked faults.on_commit
        (unless faults.on_begin locks >>= lock faults now current name owner duration renew) locks

  unfoldable pub unlock_and_commit : Bytes → Bytes → Locks → Locks
  unfolding unlock
  unlock_and_commit name owner locks =
      commit_unlocked faults.on_commit (unless faults.on_begin locks >>= unlock faults name owner)
        locks

  -- findLock of updater.go goes on with a nil transaction where Begin fails.
  unfoldable pub find_lock_and_rollback : Bytes → Locks → Outcome LockError Lock
  unfolding find_lock
  find_lock_and_rollback name locks = elim faults.on_begin [
    | none ↦ find_lock faults name locks
    | some _ ↦ panic
  ]
