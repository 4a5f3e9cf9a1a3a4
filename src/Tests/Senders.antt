-- ===== src/Tests/Senders.antt =====
-- The theorem on handleTask, at a sender whose second attempt succeeds.
use clair.Notifier.{Sender, values, handle_task}
use clair.Notifier.Sent.{Patient, sends_within, handle_task_lem}
use clair.Prelude.{
  ℕ, ◌+◌, Bool, true, false, List, [], ◌∷◌, Bytes, codes, all, All, in_order, ltb, ◌≡◌, refl,
}

abbrev second_attempt : ℕ → Bool
second_attempt k = ltb 0 k

abbrev senders : List (Bytes × Sender)
senders = (codes "webhook", record { sends = second_attempt; sleeps = λ k. true }) ∷ []

senders-Patient : All Patient senders
senders-Patient = (λ k. refl, tt)

handle_task_lem_example :
    handle_task (λ b m. b + 1) 15 in_order senders 3
    ≡ (all (sends_within 3 0) (values senders), false)
handle_task_lem_example = handle_task_lem (λ b m. b + 1) 15 in_order senders 3 senders-Patient
