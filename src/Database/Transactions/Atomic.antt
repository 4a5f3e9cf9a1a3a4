-- ===== src/Database/Transactions/Atomic.antt =====
-- What a function of database/dbutil.go does to the store.
use clair.Database.Session.{Datastore}
use clair.Database.Transactions.{Result, committed, finish}
use clair.Prelude.{Outcome, ok, err, panic, hang, ◌>>=◌, ◌⊎◌, inl, inr, ◌≡◌, ◌≢◌, refl}

module _ (d : Datastore) where
  open d use {Store, Tx, Error}

  -- What a call did: it committed the session that the operation left, or it failed and left the
  -- store as it was.
  abbrev pub IsAtomic : {A : Type 0} → (Tx → Outcome Error (A × Tx)) → Store → Result d A → Type 0
  IsAtomic {A} f store r =
      ((a : A) × (tx : Tx) × ((d.begin store >>= f) ≡ ok (a, tx))
        × (d.commit tx ≡ ok r.1)
        × (r.0 ≡ ok a))
      ⊎ ((r.1 ≡ store) × ((a : A) → r.0 ≢ ok a))

  committed-IsAtomic :
      {A : Type 0} (f : Tx → Outcome Error (A × Tx)) (store : Store) (a : A) (tx : Tx)
      → (d.begin store >>= f) ≡ ok (a, tx)
      → (c : Outcome Error Store) → d.commit tx ≡ c
      → IsAtomic f store (committed d a c store)
  committed-IsAtomic f store a tx h (ok after) e = inl (a, tx, h, e, refl)
  committed-IsAtomic f store a tx h (err x) e = inr (refl, λ b p. cc)
  committed-IsAtomic f store a tx h panic e = inr (refl, λ b p. cc)
  committed-IsAtomic f store a tx h hang e = inr (refl, λ b p. cc)

  -- A function of this form either runs its operation in a session that it begins and commits, and returns what the
  -- operation does, or it returns no value and leaves the store as it was.
  pub finish-IsAtomic :
      {A : Type 0} (f : Tx → Outcome Error (A × Tx)) (store : Store)
      → IsAtomic f store (finish d (d.begin store >>= f) store)
  finish-IsAtomic {A} f store = go (d.begin store >>= f) refl
    where
      go :
          (m : Outcome Error (A × Tx))
          → (d.begin store >>= f) ≡ m
          → IsAtomic f store (finish d m store)
      go (ok (a, tx)) e = committed-IsAtomic f store a tx e (d.commit tx) refl
      go (err x) e = inr (refl, λ b p. cc)
      go panic e = inr (refl, λ b p. cc)
      go hang e = inr (refl, λ b p. cc)
