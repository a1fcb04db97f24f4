-- ===== src/Locks.antt =====
-- framework/scheduler/manager.go and framework/event/event_bus.go: the row of the table
-- springo_shedlock by which the instances of a cluster take turns at one job (or at polling the
-- outbox). The instances run their statements interleaved; the database makes each statement
-- atomic, and any of them may fail. Time is a number of nanoseconds on one clock.
pub mod Release
pub mod Exclusion
mod Tests
use springo.Base.{
  pick, ℕ, zero, suc, ◌+◌, ◌*◌, Bool, true, false, List, [], ◌∷◌, ◌++◌, Option, none, some, Text,
  ◌==◌, text_key, ltb, leb, if◌then◌else◌, ℤ, pos, negsuc,
}
use springo.Event.Retry.{second}

-- ShedLockEntity, of one name.
pub record LockRow : Type 0 where
  pub lock_until : ℕ
  pub locked_at : ℕ
  pub locked_by : Text

-- parseDurationWithFallback; `none` is a text that time.ParseDuration refuses.
unfoldable pub parse_duration_with_fallback : Option ℤ → ℕ → ℕ
parse_duration_with_fallback none default = default
parse_duration_with_fallback (some (negsuc n)) default = default
parse_duration_with_fallback (some (pos d)) default = d

pub record LockProperties : Type 0 where
  pub lock_at_most_for : Option ℤ
  pub lock_at_least_for : Option ℤ

-- parseLockDurations: how long the lock is held at most and at least.
unfoldable pub parse_lock_durations : LockProperties → ℕ × ℕ
unfolding parse_duration_with_fallback
parse_lock_durations conf = (
  parse_duration_with_fallback conf.lock_at_most_for (600 * second),
  parse_duration_with_fallback conf.lock_at_least_for 0,
)

-- Where an instance is in acquire, its job, and release.
pub data Phase : Type 0 where
  reading creating updating running : Phase

pub record Attempt : Type 0 where
  pub instance_id : Text
  pub now : ℕ
  pub until : ℕ
  pub at_least : ℕ
  pub phase : Phase

-- The row that an attempt writes.
unfoldable pub lock_record : Attempt → LockRow
lock_record h = record { lock_until = h.until; locked_at = h.now; locked_by = h.instance_id }

pub record Cluster : Type 0 where
  pub clock : ℕ
  pub row : Option LockRow
  pub attempts : List Attempt

-- acquireTxHelper.execute: the row was found, or not.
unfoldable pub after_read : Attempt → Option LockRow → Option Phase
after_read h none = some creating
after_read h (some existing) = if leb existing.lock_until h.now then some updating else none

-- handleNotFound: an insert that a row of that name refuses.
unfoldable pub create_row : Attempt → Option LockRow → Option LockRow × Bool
unfolding lock_record
create_row h none = (some (lock_record h), true)
create_row h (some existing) = (some existing, false)

-- updateExpiredLock: an update where lock_until <= now, and whether it affected the row.
unfoldable pub update_expired_lock : Attempt → Option LockRow → Option LockRow × Bool
unfolding lock_record
update_expired_lock h none = (none, false)
update_expired_lock h (some existing) =
    if leb existing.lock_until h.now then (some (lock_record h), true) else (some existing, false)

unfoldable pub calculate_release_time : ℕ → ℕ → ℕ → ℕ
calculate_release_time clock now at_least =
    if ltb clock (now + at_least) then now + at_least else clock

-- releaseShedLock: an update where locked_by is this instance.
unfoldable pub release_shed_lock : ℕ → Attempt → Option LockRow → Option LockRow
unfolding calculate_release_time
release_shed_lock clock h none = none
release_shed_lock clock h (some existing) =
    if existing.locked_by == h.instance_id
    then some (record existing { lock_until = calculate_release_time clock h.now h.at_least })
    else some existing

-- acquirePollerLock: the outbox poller's lock is held for 45 seconds at most.
unfoldable pub poller_durations : ℕ × ℕ
poller_durations = (45 * second, 0)

unfoldable pub begin : Text → ℕ × ℕ → Cluster → Cluster
begin instance_id (at_most, at_least) c = record c {
  attempts =
      record {
        instance_id = instance_id;
        now = c.clock;
        until = c.clock + at_most;
        at_least = at_least;
        phase = reading;
      }
      ∷ c.attempts;
}

-- An attempt goes on in a phase, or ends without the lock.
abbrev pub resume : Attempt → Option Phase → List Attempt → List Attempt
resume h none others = others
resume h (some phase) others = record h { phase = phase } ∷ others

abbrev pub settle : Attempt → Option LockRow × Bool → List Attempt → Cluster → Cluster
settle h (row, acquired) others c = record c {
  row = row;
  attempts = resume h (if acquired then some running else none) others;
}

-- The next statement of attempt `h`, where there is a database; `done` is false where the statement
-- fails.
unfoldable pub execute : Bool → Attempt → Phase → List Attempt → Cluster → Cluster
unfolding after_read create_row update_expired_lock release_shed_lock
execute false h phase others c = record c { attempts = others }
execute true h reading others c = record c { attempts = resume h (after_read h c.row) others }
execute true h creating others c = settle h (create_row h c.row) others c
execute true h updating others c = settle h (update_expired_lock h c.row) others c
execute true h running others c = record c {
  row = release_shed_lock c.clock h c.row;
  attempts = others;
}

pub data Event : Type 0 where
  ticks : ℕ → Event
  begins : Text → ℕ × ℕ → Event
  executes : Bool → ℕ → Event

unfoldable pub step : Event → Cluster → Cluster
unfolding begin execute
step (ticks d) c = record c { clock = c.clock + d }
step (begins i durations) c = begin i durations c
step (executes done n) c = elim (pick n c.attempts) [
  | none ↦ c
  | some (h, others) ↦ execute done h h.phase others c
]

unfoldable pub run : List Event → Cluster → Cluster
run [] c = c
run (e ∷ es) c = run es (step e c)
