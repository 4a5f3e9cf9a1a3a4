-- ===== src/Notifier.antt =====
-- handleTask of notifier.go. Durations are numbers; a sender is known by what its calls return.
pub mod Sent
pub mod Locks
use clair.Prelude.{
  ℕ, zero, suc, Bool, true, false, not, ◌&&◌, List, [], ◌∷◌, Bytes, ltb, if◌then◌else◌, MapOrder,
}

-- Whether call number k of Send succeeds, and whether the sleep in front of it ends by itself.
pub record Sender : Type 0 where
  pub sends : ℕ → Bool
  pub sleeps : ℕ → Bool

unfoldable pub values : List (Bytes × Sender) → List Sender
values [] = []
values ((name, s) ∷ rest) = s ∷ values rest

pub data Delivery : Type 0 where
  sent gave_up interrupted : Delivery

module _ (exp_backoff : ℕ → ℕ → ℕ) (max_backoff : ℕ) where
  -- The inner loop, by what is left of the attempts.
  unfoldable pub try_send : ℕ → ℕ → ℕ → Sender → Delivery
  try_send zero attempts back_off s = gave_up
  try_send (suc left) attempts back_off s =
      let again = try_send left (suc attempts) (exp_backoff back_off max_backoff) s in
      if ltb 0 back_off && not (s.sleeps attempts)
      then interrupted
      else if s.sends attempts
      then sent
      else again

  -- What the loop over the senders does behind one of them: success, and interrupted.
  abbrev pub after_sender : Delivery → Bool × Bool → Bool × Bool
  after_sender sent rest = rest
  after_sender gave_up rest = (false, false)
  after_sender interrupted rest = (false, true)

  unfoldable pub handle_senders : ℕ → List Sender → Bool × Bool
  handle_senders max_attempts [] = (true, false)
  handle_senders max_attempts (s ∷ ss) =
      after_sender (try_send max_attempts 0 0 s) (handle_senders max_attempts ss)

  unfoldable pub handle_task : MapOrder → List (Bytes × Sender) → ℕ → Bool × Bool
  handle_task o senders max_attempts =
      handle_senders max_attempts (values (o.visit (Bytes × Sender) senders))
