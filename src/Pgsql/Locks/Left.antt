-- ===== src/Pgsql/Locks/Left.antt =====
-- The tables that Lock of database/pgsql/lock.go may leave.
use clair.Pgsql.Locks.{
  add_duration, Lock, Locks, LockError, Faults, unless, update_lock, rows_owned,
  remove_lock_expired, insert_unless_there, soi_lock, inserted, prune_locks, lock,
}
use clair.Prelude.{
  ℕ, ℤ, pos, eqb_ℤ, Bytes, bytes_eq, Bool, ◌||◌, Option, none, some, get, put, is_empty, ltb,
  if_either, Outcome, ok, >>=-ok, ◌≡◌, refl, sym, ap, subst, ◌⊎◌, inl, inr,
}

-- The tables that Lock may leave.
abbrev pub Left : ℕ → ℕ → Bytes → Bytes → Locks → Locks → Type 0
Left until current name owner before after =
    let pruned = remove_lock_expired current before in
    (after ≡ update_lock name owner until before)
    ⊎ ((after ≡ pruned)
        ⊎ ((get name pruned ≡ none)
            × (after ≡ put name (record { owner = owner; until = until }) pruned)))

pub unless-ok : {A : Type 0} (fault : Option Bytes) (a b : A) → unless fault a ≡ ok b → a ≡ b
unless-ok none a b e = cc
unless-ok (some _) a b e = absurd (cc)

module _ (faults : Faults) where
  inserted-Left :
      (until current : ℕ) (name owner : Bytes) (before after : Locks) (answer : Bool × ℕ)
      (o : Option Lock)
      → get name (remove_lock_expired current before) ≡ o
      → inserted until (remove_lock_expired current before) (
          insert_unless_there name
            (record { owner = owner; until = until })
            (remove_lock_expired current before)
            o)
        ≡ (answer, after)
      → Left until current name owner before after
  inserted-Left until current name owner before after answer none g e =
      inr (inr (g, sym (ap (λ (x : (Bool × ℕ) × Locks). x.1) e)))
  inserted-Left until current name owner before after answer (some m) g e =
      inr (inl (sym (ap (λ (x : (Bool × ℕ) × Locks). x.1) e)))

  pub lock-Left :
      (now current : ℕ) (name owner : Bytes) (duration : ℤ) (renew : Bool) (before after : Locks)
      (answer : Bool × ℕ)
      → lock faults now current name owner duration renew before ≡ ok (answer, after)
      → Left (add_duration now duration) current name owner before after
  unfolding lock prune_locks
  lock-Left now current name owner duration renew before after answer e =
      let until = add_duration now duration in
      let P : Outcome LockError ((Bool × ℕ) × Locks) → Type 0 =
        λ m. m ≡ ok (answer, after) → Left until current name owner before after in
      let pruned = remove_lock_expired current before in
      let locked =
        inserted until pruned (soi_lock name (record { owner = owner; until = until }) pruned) in
      if_either P (is_empty name || is_empty owner || eqb_ℤ duration (pos 0)) (λ x. absurd (cc))
        (if_either P renew
          (λ x. inl (
            sym (
              ap (λ (y : (Bool × ℕ) × Locks). y.1)
                (unless-ok faults.on_update
                  (
                    (ltb 0 (rows_owned name owner before), until),
                    update_lock name owner until before,
                  )
                  (answer, after) x))))
          (λ x.
            let (m, y, z) = >>=-ok (unless faults.on_prune pruned) _ (answer, after) x in
            let same = unless-ok faults.on_prune pruned m y in
            let w =
              subst
                (λ p.
                  unless faults.on_insert
                    (inserted until p (soi_lock name (record { owner = owner; until = until }) p))
                  ≡ ok (answer, after))
                (sym same) z in
            inserted-Left until current name owner before after answer (get name pruned) refl
              (unless-ok faults.on_insert locked (answer, after) w)))
        e
