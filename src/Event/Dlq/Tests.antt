-- ===== src/Event/Dlq/Tests.antt =====
-- A failed event that is retried with success, and one whose listener fails again.
use springo.Base.{
  executable, ℕ, ◌+◌, ◌≡◌, refl, true, false, [], ◌∷◌, Option, none, some, Text, codes, nat_key,
}
use springo.Event.Retry.{FailedEvent, DlqProperties, failed, retrying, calculate_next_retry}
use springo.Event.Dlq.{
  Rows, DlqAnswers, recover_leases, is_eligible, find_eligible, claim, retry_claimed,
  update_retry_state, retry_all, process_dlq,
}
use springo.Event.Dlq.Bound.{Sends, logging, process_dlq-Sends}

program : Unit {0}
unfolding executable recover_leases is_eligible find_eligible claim retry_claimed update_retry_state
    retry_all process_dlq calculate_next_retry
program = tt

abbrev fe : FailedEvent
fe = record {
  id = 4;
  event_name = codes "Created";
  payload = codes "{}";
  listener_name = codes "Created#0";
  error = codes "boom";
  retries = 1;
  status = failed;
  trace_id = [];
  next_retry_at = some 50;
  updated_at = 20;
}

abbrev rows : Rows
rows = (4, fe) ∷ []

abbrev props : DlqProperties
props = record { enabled = true; max_retries = 3; retry_intervals = some 10 ∷ [] }

abbrev a : DlqAnswers
a = record { recovers = true; finds = true; claims = λ _. true; writes = λ _. true }

-- The listener counts, and fails again.
abbrev redispatch : FailedEvent → ℕ → Option Text × ℕ
redispatch e w = (some (codes "again"), w + 1)

recovers : process_dlq (λ e w. (none, w + 1)) a 60 (some props) true rows 0 ≡ (false, [], 1)
unfolding program
recovers = refl

process_dlq-Sends_example :
    Sends 3 10 []
      (process_dlq (logging (λ e. some (codes "again"))) a 60 (some props) true rows []).2
process_dlq-Sends_example = process_dlq-Sends (λ e. some (codes "again")) a 60 props true rows []

sends_one :
    (process_dlq (logging (λ e. some (codes "again"))) a 60 (some props) true rows []).2
    ≡ record fe { retries = 2; status = retrying; next_retry_at = some 70 } ∷ []
unfolding program
sends_one = refl
