-- ===== src/Event/Dlq/Attempts.antt =====
-- retry_manager.go: one retry touches one row, and counts its attempt.
use springo.Base.{◌⊎◌, ℕ, ◌+◌, ◌≡◌, ◌≢◌, Option, none, some, Text, lookup, nat_key}
use springo.Event.Retry.{FailedEvent}
use springo.Event.Dlq.{Rows}

-- Every row but that of `id` is as it was.
abbrev pub Others : ℕ → Rows → Rows → Type 0
Others id rows rows' = (j : ℕ) → j ≢ id → lookup j rows' ≡ lookup j rows

-- The row of `id` stands, with so many attempts.
abbrev pub HasTried : ℕ → ℕ → Rows → Type 0
HasTried id n rows = (row : FailedEvent) × (lookup id rows ≡ some row) × (row.retries ≡ n)

module _ {W : Type 0} (redispatch : FailedEvent → W → Option Text × W) where
  -- The event was redispatched once, to its own listener. Its row is gone, where that succeeded, or
  -- counts one attempt more.
  abbrev pub Tried : FailedEvent → ℕ → W → Rows × W → Type 0
  Tried fe id w out =
      (sent : FailedEvent) × (sent.payload ≡ fe.payload)
      × (sent.event_name ≡ fe.event_name)
      × (sent.listener_name ≡ fe.listener_name)
      × (out.1 ≡ (redispatch sent w).1)
      × ((((redispatch sent w).0 ≡ none) × (lookup id out.0 ≡ none))
          ⊎ HasTried id (fe.retries + 1) out.0)

  -- Nothing happened, or one attempt.
  abbrev pub Counts : FailedEvent → ℕ → Rows → W → Rows × W → Type 0
  Counts fe id rows w out = (out ≡ (rows, w)) ⊎ (Others id rows out.0 × Tried fe id w out)
