-- ===== src/Tests/Locks.antt =====
-- The theorems on locks: one instance holds a lock, and another asks for it.
use clair.Pgsql.Locks.{Lock, add_duration}
use clair.Pgsql.Locks.Rows.{if_current}
use clair.Notifier.Locks.{lock_and_commit}
use clair.Notifier.Locks.Leases.{System, ticks, Run, here, next}
use clair.Notifier.Locks.Exclusion.{no_faults, Run-exclusion, lock_and_commit-expired}
use clair.Prelude.{
  bytes_eq, Bytes-discrete, ℕ_discrete, true, false, pos, negsuc, none, some, [], ◌∷◌, codes, get,
  ◌≡◌, refl, ap, length, arith,
}

abbrev held : Lock
held = record { owner = codes "a"; until = 10 }

abbrev start : System
start = record { time = 3; locks = (codes "updater", held) ∷ [] }

abbrev later : System
later = record { time = 5; locks = (codes "updater", held) ∷ [] }

differs : ¬ (codes "a" ≡ codes "bb")
differs e = absurd (omega (arith, ap length e))

ended : if_current 12 (get (codes "updater") later.locks) ≡ none
unfolding get Bytes-discrete ℕ_discrete
ended = refl

-- A lock for a negative time has ended when it is set.
ended_before : add_duration 12 (negsuc 1) ≡ 10
ended_before = refl

others-Run : Run (λ b. ¬ (held.owner ≡ b)) start later
others-Run = next (codes "bb") here differs (ticks start 2)

held_there : get (codes "updater") start.locks ≡ some held
unfolding get Bytes-discrete ℕ_discrete
held_there = refl

Run-exclusion_example :
    (lock_and_commit no_faults 6 5 (codes "updater") (codes "bb") (pos 20) false later.locks).0.0
    ≡ false
Run-exclusion_example =
    Run-exclusion (codes "updater") held others-Run (omega arith) (refl, tt) held_there no_faults 6
      (codes "bb") (pos 20) false differs

lock_and_commit-expired_example :
    (lock_and_commit no_faults 12 12 (codes "updater") (codes "bb") (pos 20) false later.locks).0
      ≡ (true, 32)
    × (get
          (codes "updater")
          (lock_and_commit no_faults 12 12
            (codes "updater")
            (codes "bb")
            (pos 20)
            false
            later.locks).1
        ≡ some (record { owner = codes "bb"; until = 32 }))
lock_and_commit-expired_example =
    lock_and_commit-expired 12 12 (codes "updater") (codes "bb") (pos 20) later.locks refl
      (refl, tt) ended
