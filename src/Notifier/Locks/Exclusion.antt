-- ===== src/Notifier/Locks/Exclusion.antt =====
-- What an instance of Clair that asks for a lock of notifier.go and updater.go is told, while the
-- lock lasts and when it has expired.
use clair.Pgsql.Locks.{
  add_duration, Lock, Locks, LockError, Faults, unless, update_lock, rows_owned, soi_lock,
  remove_lock_expired, insert_unless_there, inserted, prune_locks, lock,
}
use clair.Pgsql.Locks.Rows.{if_current, get-remove_lock_expired}
use clair.Notifier.Locks.{commit_if_locked, lock_and_commit}
use clair.Pgsql.Locks.Left.{unless-ok}
use clair.Notifier.Locks.Leases.{
  System, Step, ticks, takes, releases, Run, here, next, Kept, Step-Kept,
}
use clair.Prelude.{
  ℕ, ℤ, pos, eqb_ℤ, ◌≤◌, Bytes, bytes_eq, Bool, true, false, ◌||◌, none, some, [], ◌∷◌, get,
  get-put, has_key, ===_iff, ===-eq-false, Outcome, ok, err, panic, hang, ◌>>=◌, >>=-ok, if_either,
  Bool-cases, Distinct, is_empty, ltb, ◌===◌, ===-refl, ◌≡◌, refl, sym, ap, ◌∙◌, arith, inl, inr,
}

Step-time : {b : Bytes} {s t : System} → Step b s t → s.time ≤ t.time
Step-time (ticks s n) = omega arith
Step-time (takes s faults now name duration renew) = omega arith
Step-time (releases s faults name) = omega arith

-- While the database's clock has not passed the end of a lock, the lock stays as it is through
-- everything that the other owners do, at whatever time of their own clocks and whatever fails.
pub Run-Kept :
    (name : Bytes) (l : Lock) {s t : System}
    → Run (λ b. ¬ (l.owner ≡ b)) s t
    → t.time ≤ l.until
    → Distinct s.locks
    → get name s.locks ≡ some l
    → Distinct t.locks × (get name t.locks ≡ some l)
Run-Kept name l here time d g = (d, g)
Run-Kept name l (next {t} b run other step) time d g =
    let before : t.time ≤ l.until = omega (arith, time, Step-time step) in
    Step-Kept name l b other step before (Run-Kept name l run before d g)

rows_owned-none :
    (name owner : Bytes) (table : Locks)
    → has_key name table ≡ false
    → rows_owned name owner table ≡ 0
unfolding rows_owned
rows_owned-none name owner [] h = refl
rows_owned-none name owner ((n, m) ∷ table) h = ground (arith, rows_owned-none name owner table)

rows_owned-other :
    (name owner : Bytes) (l : Lock) (table : Locks)
    → Kept name l table
    → ¬ (l.owner ≡ owner)
    → rows_owned name owner table ≡ 0
unfolding rows_owned get
rows_owned-other name owner l [] (d, g) other = refl
rows_owned-other name owner l ((n, m) ∷ table) (d, g) other = elim (Bool-cases (n === name)) [
  | inl x ↦
      let found : some m ≡ some l = rw x at g in
      let same : m ≡ l = cc in
      let differs : (m.owner === owner) ≡ false =
        ap (λ (j : Lock). j.owner === owner) same ∙ ===-eq-false l.owner owner other in
      let rest : rows_owned name owner table ≡ 0 =
        rows_owned-none name owner table
          (ap (λ j. has_key j table) (sym ((===_iff n name).0 x)) ∙ d.0) in
      rw (x, differs) rest
  | inr x ↦ rw x (rows_owned-other name owner l table (d.1, rw x at g) other)
]

module _ (faults : Faults) (name owner : Bytes) (l : Lock) (other : ¬ (l.owner ≡ owner)) where
  lock-refused :
      (now current : ℕ) (duration : ℤ) (renew : Bool) (before after : Locks) (answer : Bool × ℕ)
      → current ≤ l.until
      → Kept name l before
      → lock faults now current name owner duration renew before ≡ ok (answer, after)
      → answer.0 ≡ false
  unfolding lock prune_locks
  lock-refused now current duration renew before after answer t h e =
      let until = add_duration now duration in
      let P : Outcome LockError ((Bool × ℕ) × Locks) → Type 0 =
        λ m. m ≡ ok (answer, after) → answer.0 ≡ false in
      let pruned = remove_lock_expired current before in
      let m : Lock = record { owner = owner; until = until } in
      let current_lock : ltb l.until current ≡ false = ground arith in
      let still : get name pruned ≡ some l =
        get-remove_lock_expired current name before h.0
        ∙ ap (if_current current) h.1
        ∙ rw current_lock refl in
      if_either P (is_empty name || is_empty owner || eqb_ℤ duration (pos 0)) (λ x. absurd (cc))
        (if_either P renew
          (λ x.
            let y =
              unless-ok faults.on_update
                ((ltb 0 (rows_owned name owner before), until), update_lock name owner until before)
                (answer, after) x in
            sym (ap (λ (z : (Bool × ℕ) × Locks). z.0.0) y)
            ∙ ap (ltb 0) (rows_owned-other name owner l before h other))
          (λ x.
            let (p, y, z) = >>=-ok (unless faults.on_prune pruned) _ (answer, after) x in
            let same = unless-ok faults.on_prune pruned p y in
            let w =
              unless-ok faults.on_insert (inserted until p (soi_lock name m p)) (answer, after) z in
            let v : inserted until p (insert_unless_there name m p (some l)) ≡ (answer, after) =
              ap (λ o. inserted until p (insert_unless_there name m p o))
                (sym (ap (get name) (sym same) ∙ still))
              ∙ w in
            sym (ap (λ (u : (Bool × ℕ) × Locks). u.0.0) v)))
        e

  lock_and_commit-refused :
      (now current : ℕ) (duration : ℤ) (renew : Bool) (before : Locks)
      → current ≤ l.until
      → Kept name l before
      → (lock_and_commit faults now current name owner duration renew before).0.0 ≡ false
  unfolding lock_and_commit
  lock_and_commit-refused now current duration renew before t h =
      go (unless faults.on_begin before >>= lock faults now current name owner duration renew) refl
    where
      go :
          (m : Outcome LockError ((Bool × ℕ) × Locks))
          → (unless faults.on_begin before >>= lock faults now current name owner duration renew)
            ≡ m
          → (commit_if_locked faults.on_commit m before).0.0 ≡ false
      go (ok ((true, until), after)) e =
          let (m, x, y) =
            >>=-ok (unless faults.on_begin before)
              (lock faults now current name owner duration renew) ((true, until), after) e in
          let same = unless-ok faults.on_begin before m x in
          let no =
            lock-refused now current duration renew before after (true, until) t h
              (ap (lock faults now current name owner duration renew) same ∙ y) in
          absurd (cc)
      go (ok ((false, until), after)) e = refl
      go (err _) e = refl
      go panic e = refl
      go hang e = refl

-- While the database's clock has not passed the end of a lock in a table that has one row for each
-- name, another owner that tries to take it is refused, whatever other owners have done since, at
-- whatever time of their own clocks and whatever statements have failed.
pub Run-exclusion :
    (name : Bytes) (l : Lock) {s t : System}
    → Run (λ b. ¬ (l.owner ≡ b)) s t
    → t.time ≤ l.until
    → Distinct s.locks
    → get name s.locks ≡ some l
    → (faults : Faults) (now : ℕ) (owner : Bytes) (duration : ℤ) (renew : Bool)
    → ¬ (l.owner ≡ owner)
    → (lock_and_commit faults now t.time name owner duration renew t.locks).0.0 ≡ false
Run-exclusion name l run time d g faults now owner duration renew other =
    lock_and_commit-refused faults name owner l other now _ duration renew _ time
      (Run-Kept name l run time d g)

abbrev pub no_faults : Faults
no_faults = record {
  on_begin = none;
  on_update = none;
  on_prune = none;
  on_insert = none;
  on_remove = none;
  on_search = none;
  on_commit = none;
}

-- When the database serves every statement and a lock is free, or has ended by the database's clock,
-- the next owner that asks with valid arguments gets it, and it stands in the table as theirs.
pub lock_and_commit-expired :
    (now current : ℕ) (name owner : Bytes) (duration : ℤ) (table : Locks)
    → (is_empty name || is_empty owner || eqb_ℤ duration (pos 0)) ≡ false
    → Distinct table
    → if_current current (get name table) ≡ none
    → (lock_and_commit no_faults now current name owner duration false table).0
        ≡ (true, add_duration now duration)
      × (get name (lock_and_commit no_faults now current name owner duration false table).1
          ≡ some (record { owner = owner; until = add_duration now duration }))
unfolding lock_and_commit lock prune_locks
lock_and_commit-expired now current name owner duration table v d free =
    let pruned = remove_lock_expired current table in
    let m : Lock = record { owner = owner; until = add_duration now duration } in
    let none_left : get name pruned ≡ none = get-remove_lock_expired current name table d ∙ free in
    rw (v, none_left) (refl, get-put name name m pruned ∙ rw (===-refl name) refl)
