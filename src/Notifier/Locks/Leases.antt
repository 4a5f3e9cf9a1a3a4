-- ===== src/Notifier/Locks/Leases.antt =====
-- The steps that instances of Clair and the clock of the database make on a table of locks, and
-- what becomes of a lock in them.
use mathlib.Core.Option
use clair.Pgsql.Locks.{
  add_duration, Lock, Locks, LockError, Faults, unless, update_lock, remove_lock,
  remove_lock_expired, lock, unlock,
}
use clair.Pgsql.Locks.Left.{Left, lock-Left, unless-ok}
use clair.Pgsql.Locks.Rows.{
  renewed, if_current, unless_owned, get-update_lock, get-remove_lock_expired, get-remove_lock,
  update_lock-Distinct, remove_lock-Distinct, remove_lock_expired-Distinct,
}
use clair.Notifier.Locks.{
  committed, commit_if_locked, commit_unlocked, lock_and_commit, unlock_and_commit,
}
use clair.Prelude.{
  ℕ, ◌+◌, ℤ, ◌≤◌, Bytes, bytes_eq, Bool, true, false, ◌&&◌, ◌||◌, Option, none, some, get, put,
  get-put, put-Distinct, Distinct, is_empty, ltb, ◌===◌, ===_iff, ===-eq-false, if◌then◌else◌,
  if_either, Outcome, ok, err, panic, hang, ◌>>=◌, >>=-ok, ◌≡◌, refl, sym, ap, ◌∙◌, subst, arith,
  Bool-cases, inl, inr,
}

-- The database's clock, and the table of locks.
pub record System : Type 0 where
  pub time : ℕ
  pub locks : Locks

-- What an instance of Clair, by its owner, or the clock does. Its own clock, the faults of the database
-- and the arguments are arbitrary.
pub data Step (b : Bytes) : System → System → Type 0 where
  ticks : (s : System) (n : ℕ) → Step b s (record s { time = s.time + n })
  takes :
      (s : System) (faults : Faults) (now : ℕ) (name : Bytes) (duration : ℤ) (renew : Bool)
      → Step b s
          (record s { locks = (lock_and_commit faults now s.time name b duration renew s.locks).1 })
  releases :
      (s : System) (faults : Faults) (name : Bytes)
      → Step b s (record s { locks = unlock_and_commit faults name b s.locks })

-- Any number of steps of instances with the property.
pub data Run (P : Bytes → Type 0) (s : System) : System → Type 0 where
  here : Run P s s
  next : {t u : System} (b : Bytes) → Run P s t → P b → Step b t u → Run P s u

-- What stays of the locks through both operations, if it stays through the statements.
abbrev pub Kept : Bytes → Lock → Locks → Type 0
Kept k l locks = Distinct locks × (get k locks ≡ some l)

module _ (k : Bytes) (l : Lock) (owner : Bytes) (other : ¬ (l.owner ≡ owner)) where
  not_owned : (name : Bytes) → (k === name && l.owner === owner) ≡ false
  not_owned name = let differs = ===-eq-false l.owner owner other in ground arith

  update_lock-Kept :
      (name : Bytes) (until : ℕ) (locks : Locks)
      → Kept k l locks
      → Kept k l (update_lock name owner until locks)
  update_lock-Kept name until locks (h, g) = (
    update_lock-Distinct name owner until locks h,
    get-update_lock name owner k until locks
        ∙ ap (Option.map (renewed name owner until k)) g
        ∙ rw (not_owned name) refl,
  )

  remove_lock-Kept :
      (name : Bytes) (locks : Locks) → Kept k l locks → Kept k l (remove_lock name owner locks)
  remove_lock-Kept name locks (h, g) = (
    remove_lock-Distinct name owner locks h,
    get-remove_lock name owner k locks h
        ∙ ap (unless_owned name owner k) g
        ∙ rw (not_owned name) refl,
  )

  remove_lock_expired-Kept :
      (current : ℕ) (locks : Locks)
      → current ≤ l.until
      → Kept k l locks
      → Kept k l (remove_lock_expired current locks)
  remove_lock_expired-Kept current locks t (h, g) =
      let valid : ltb l.until current ≡ false = ground arith in
      (
        remove_lock_expired-Distinct current locks h,
        get-remove_lock_expired current k locks h ∙ ap (if_current current) g ∙ rw valid refl,
      )

  Left-Kept :
      (until current : ℕ) (name : Bytes) (before after : Locks)
      → current ≤ l.until
      → Kept k l before
      → Left until current name owner before after
      → Kept k l after
  Left-Kept until current name before after t h (inl e) =
      subst (Kept k l) (sym e) (update_lock-Kept name until before h)
  Left-Kept until current name before after t h (inr (inl e)) =
      subst (Kept k l) (sym e) (remove_lock_expired-Kept current before t h)
  Left-Kept until current name before after t h (inr (inr (free, e))) =
      let pruned = remove_lock_expired current before in
      let m : Lock = record { owner = owner; until = until } in
      let (d, g) = remove_lock_expired-Kept current before t h in
      let taken : Kept k l (put name m pruned) =
        (put-Distinct name m pruned d, get-put name k m pruned ∙ elsewhere name m pruned free g) in
      subst (Kept k l) (sym e) taken
    where
      elsewhere :
          (name : Bytes) (m : Lock) (pruned : Locks)
          → get name pruned ≡ none
          → get k pruned ≡ some l
          → (if name === k then some m else get k pruned) ≡ some l
      elsewhere name m pruned free g = elim (Bool-cases (name === k)) [
        | inl x ↦ let same = ap (λ n. get n pruned) ((===_iff name k).0 x) in absurd (cc)
        | inr x ↦ rw x g
      ]

  committed-Kept :
      (fault : Option Bytes) (answer : Bool × ℕ) (before after : Locks)
      → Kept k l before
      → Kept k l after
      → Kept k l (committed fault answer before after).1
  committed-Kept none answer before after h h' = h'
  committed-Kept (some _) answer before after h h' = h

  lock_and_commit-Kept :
      (faults : Faults) (now current : ℕ) (name : Bytes) (duration : ℤ) (renew : Bool)
      (locks : Locks)
      → current ≤ l.until
      → Kept k l locks
      → Kept k l (lock_and_commit faults now current name owner duration renew locks).1
  unfolding lock_and_commit
  lock_and_commit-Kept faults now current name duration renew locks t h =
      go (unless faults.on_begin locks >>= lock faults now current name owner duration renew) refl
    where
      go :
          (m : Outcome LockError ((Bool × ℕ) × Locks))
          → (unless faults.on_begin locks >>= lock faults now current name owner duration renew) ≡ m
          → Kept k l (commit_if_locked faults.on_commit m locks).1
      go (ok ((true, until), after)) e =
          let (m, x, y) =
            >>=-ok (unless faults.on_begin locks)
              (lock faults now current name owner duration renew) ((true, until), after) e in
          let same = unless-ok faults.on_begin locks m x in
          committed-Kept faults.on_commit (true, until) locks after h
            (Left-Kept (add_duration now duration) current name locks after t h (
              lock-Left faults now current name owner duration renew locks after (true, until)
                (ap (lock faults now current name owner duration renew) same ∙ y)))
      go (ok ((false, until), after)) e = h
      go (err _) e = h
      go panic e = h
      go hang e = h

  unlocked-Kept :
      (fault : Option Bytes) (m : Outcome LockError Locks) (before : Locks)
      → Kept k l before
      → ((after : Locks) → m ≡ ok after → Kept k l after)
      → Kept k l (commit_unlocked fault m before)
  unlocked-Kept none (ok after) before h f = f after refl
  unlocked-Kept (some _) (ok after) before h f = h
  unlocked-Kept none (err _) before h f = h
  unlocked-Kept (some _) (err _) before h f = h
  unlocked-Kept none panic before h f = h
  unlocked-Kept (some _) panic before h f = h
  unlocked-Kept none hang before h f = h
  unlocked-Kept (some _) hang before h f = h

  unlock-Kept :
      (faults : Faults) (name : Bytes) (before after : Locks)
      → Kept k l before
      → unlock faults name owner before ≡ ok after
      → Kept k l after
  unfolding unlock
  unlock-Kept faults name before after h =
      let P : Outcome LockError Locks → Type 0 = λ m. m ≡ ok after → Kept k l after in
      if_either P (is_empty name || is_empty owner) (λ e. absurd (cc))
        (λ e.
          subst (Kept k l) (unless-ok faults.on_remove (remove_lock name owner before) after e)
            (remove_lock-Kept name before h))

  unlock_and_commit-Kept :
      (faults : Faults) (name : Bytes) (locks : Locks)
      → Kept k l locks
      → Kept k l (unlock_and_commit faults name owner locks)
  unfolding unlock_and_commit
  unlock_and_commit-Kept faults name locks h =
      unlocked-Kept faults.on_commit (unless faults.on_begin locks >>= unlock faults name owner)
        locks h
        (λ after e.
          let (m, x, y) =
            >>=-ok (unless faults.on_begin locks) (unlock faults name owner) after e in
          let same = unless-ok faults.on_begin locks m x in
          unlock-Kept faults name locks after h (ap (unlock faults name owner) same ∙ y))

  pub Step-Kept :
      {s t : System} → Step owner s t → s.time ≤ l.until → Kept k l s.locks → Kept k l t.locks
  Step-Kept (ticks s n) time h = h
  Step-Kept (takes s faults now name duration renew) time h =
      lock_and_commit-Kept faults now s.time name duration renew s.locks time h
  Step-Kept (releases s faults name) time h = unlock_and_commit-Kept faults name s.locks h
