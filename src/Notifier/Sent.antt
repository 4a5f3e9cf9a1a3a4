-- ===== src/Notifier/Sent.antt =====
-- When handleTask reports success.
use clair.Notifier.{Sender, sent, gave_up, values, try_send, handle_senders, handle_task}
use clair.Prelude.{
  ℕ, zero, suc, Bool, true, false, ◌||◌, List, [], ◌∷◌, Bytes, all, if◌then◌else◌, MapOrder, All,
  visit-All, ◌≡◌, refl, arith, Bool-cases, inl, inr,
}

-- One of the calls from number k on succeeds, of as many as are left.
unfoldable pub sends_within : ℕ → ℕ → Sender → Bool
sends_within zero k s = false
sends_within (suc left) k s = s.sends k || sends_within left (suc k) s

-- No sleep of the sender is interrupted.
abbrev pub Patient : Bytes × Sender → Type 0
Patient x = (k : ℕ) → x.1.sleeps k ≡ true

module _ (exp_backoff : ℕ → ℕ → ℕ) (max_backoff : ℕ) where
  try_send_lem :
      (left k back_off : ℕ) (s : Sender)
      → ((k : ℕ) → s.sleeps k ≡ true)
      → try_send exp_backoff max_backoff left k back_off s
        ≡ (if sends_within left k s then sent else gave_up)
  unfolding try_send sends_within
  try_send_lem zero k back_off s h = refl
  try_send_lem (suc left) k back_off s h =
      ground (arith, h k, try_send_lem left (suc k) (exp_backoff back_off max_backoff) s h)

  handle_senders_lem :
      (max_attempts : ℕ) (senders : List (Bytes × Sender))
      → All Patient senders
      → handle_senders exp_backoff max_backoff max_attempts (values senders)
        ≡ (all (sends_within max_attempts 0) (values senders), false)
  unfolding handle_senders values
  handle_senders_lem n [] h = refl
  handle_senders_lem n ((name, s) ∷ senders) (p, h) = elim (Bool-cases (sends_within n 0 s)) [
    | inl e ↦ rw (try_send_lem n 0 0 s p, e, handle_senders_lem n senders h) refl
    | inr e ↦ rw (try_send_lem n 0 0 s p, e) refl
  ]

  -- If no sleep is interrupted, handleTask is not interrupted, and it reports success exactly if each
  -- sender succeeds in one of its first attempts, as many as are allowed.
  pub handle_task_lem :
      (o : MapOrder) (senders : List (Bytes × Sender)) (max_attempts : ℕ)
      → All Patient senders
      → handle_task exp_backoff max_backoff o senders max_attempts
        ≡ (all (sends_within max_attempts 0) (values (o.visit (Bytes × Sender) senders)), false)
  unfolding handle_task
  handle_task_lem o senders max_attempts h =
      handle_senders_lem max_attempts (o.visit (Bytes × Sender) senders)
        (visit-All Patient o senders h)
