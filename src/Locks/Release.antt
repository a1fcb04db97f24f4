-- ===== src/Locks/Release.antt =====
-- manager.go: the durations of a lock, and when a released lock is free again.
use springo.Base.{ℕ, ◌+◌, ◌≤◌, ◌≡◌, ◌⊎◌, arith, text_key}
use springo.Locks.{calculate_release_time}

-- A released lock stays held for at least the configured time from its acquisition, and is never
-- free before the release itself; it is free at one of these two moments exactly.
pub calculate_release_time_bounds :
    (clock now at_least : ℕ)
    → (now + at_least ≤ calculate_release_time clock now at_least)
      × (clock ≤ calculate_release_time clock now at_least)
      × ((calculate_release_time clock now at_least ≡ now + at_least)
          ⊎ (calculate_release_time clock now at_least ≡ clock))
unfolding calculate_release_time
calculate_release_time_bounds clock now at_least = ground arith
