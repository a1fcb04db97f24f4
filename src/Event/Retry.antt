-- ===== src/Event/Retry.antt =====
-- event_bus.go, model.go and properties.go: the configuration, the dead letter row, and the time of
-- the next attempt. A time is a number of nanoseconds; a duration is what `time.ParseDuration` makes
-- of a configured text, `none` where it refuses the text.
use springo.Base.{
  ℕ, ◌+◌, ◌*◌, ◌-◌, Bool, List, Option, none, some, Text, ltb, length, get_elem?, if◌then◌else◌,
}

pub data RowStatus : Type 0 where
  pending failed retrying completed processing processed : RowStatus

pub record FailedEvent : Type 0 where
  pub id : ℕ
  pub event_name : Text
  pub payload : Text
  pub listener_name : Text
  pub error : Text
  pub retries : ℕ
  pub status : RowStatus
  pub trace_id : Text
  pub next_retry_at : Option ℕ
  pub updated_at : ℕ

pub record DlqProperties : Type 0 where
  pub enabled : Bool
  pub max_retries : ℕ
  pub retry_intervals : List (Option ℕ)

abbrev pub second : ℕ
second = 1_000_000_000

abbrev pub default_interval : ℕ
default_interval = 30 * second

-- The interval at an index, or the default where the text is refused.
abbrev pub interval_at : List (Option ℕ) → ℕ → ℕ
interval_at ds i = elim (get_elem? ds i) [
  | none ↦ default_interval
  | some parsed ↦ elim parsed [ none ↦ default_interval | some d ↦ d ]
]

-- The intervals are not negative.
unfoldable pub calculate_next_retry : ℕ → ℕ → Option DlqProperties → ℕ
calculate_next_retry now attempts none = now + default_interval
calculate_next_retry now attempts (some props) =
    let n = length props.retry_intervals in
    if ltb 0 n
    then now + interval_at props.retry_intervals (if ltb attempts n then attempts else n - 1)
    else now + default_interval
