-- ===== src/Migration/Lock.antt =====
-- migration_lock.go: the row of the lock. Between two statements of an instance the others may do
-- theirs. Times and durations are nanoseconds.
use springo.Base.{
  ℕ, ◌+◌, ◌*◌, Bool, true, false, List, [], ◌∷◌, Option, none, some, Text, ◌==◌, text_key, nat_key,
  ltb, if◌then◌else◌, ◌&&◌,
}

pub record MigrationLock : Type 0 where
  pub locked : Bool
  pub locked_at : ℕ
  pub locked_by : Text

-- Create, where there is no row.
unfoldable pub create_lock : ℕ → Option MigrationLock → Option MigrationLock
create_lock now none = some (record { locked = false; locked_at = now; locked_by = [] })
create_lock now (some lock) = some lock

-- The update where the lock is free, and whether it affected the row.
unfoldable pub update_unlocked : ℕ → Text → Option MigrationLock → Bool × Option MigrationLock
update_unlocked now locked_by none = (false, none)
update_unlocked now locked_by (some lock) =
    if lock.locked
    then (false, some lock)
    else (true, some (record { locked = true; locked_at = now; locked_by = locked_by }))

-- The update where the lock is as it was seen.
unfoldable pub break_stale_lock : ℕ → ℕ → Text → Option MigrationLock → Bool × Option MigrationLock
break_stale_lock now seen locked_by none = (false, none)
break_stale_lock now seen locked_by (some lock) =
    if lock.locked && (lock.locked_at == seen)
    then (true, some (record { locked = true; locked_at = now; locked_by = locked_by }))
    else (false, some lock)

unfoldable pub update_lock_heartbeat : ℕ → Text → Option MigrationLock → Option MigrationLock
update_lock_heartbeat now locked_by none = none
update_lock_heartbeat now locked_by (some lock) =
    if lock.locked_by == locked_by then some (record lock { locked_at = now }) else some lock

unfoldable pub release_lock : Text → Option MigrationLock → Option MigrationLock
release_lock locked_by none = none
release_lock locked_by (some lock) =
    if lock.locked_by == locked_by
    then some (record lock { locked = false; locked_by = [] })
    else some lock

unfoldable pub refresh_lock : ℕ → Text → Option MigrationLock → Option MigrationLock
refresh_lock now locked_by none = none
refresh_lock now locked_by (some lock) =
    if (lock.locked_by == locked_by) && lock.locked
    then some (record lock { locked_at = now })
    else some lock

-- A statement of some instance.
pub data LockStep : Type 0 where
  creates : ℕ → LockStep
  updates heartbeats : ℕ → Text → LockStep
  breaks : ℕ → ℕ → Text → LockStep
  releases : Text → LockStep

unfoldable pub lock_step : LockStep → Option MigrationLock → Option MigrationLock
unfolding create_lock update_unlocked break_stale_lock update_lock_heartbeat release_lock
lock_step (creates now) row = create_lock now row
lock_step (updates now locked_by) row = (update_unlocked now locked_by row).1
lock_step (heartbeats now locked_by) row = update_lock_heartbeat now locked_by row
lock_step (breaks now seen locked_by) row = (break_stale_lock now seen locked_by row).1
lock_step (releases locked_by) row = release_lock locked_by row

unfoldable pub lock_steps : List LockStep → Option MigrationLock → Option MigrationLock
unfolding lock_step
lock_steps [] row = row
lock_steps (s ∷ steps) row = lock_steps steps (lock_step s row)

-- How the statements of one acquisition are answered, and what others do before them.
pub record LockCall : Type 0 where
  pub auto_migrate : Option Text
  pub first : Option Text
  pub create : Option Text
  pub update : Option Text
  pub first_again : Option Text
  pub break_ : Option Text
  pub before_first : List LockStep
  pub before_create : List LockStep
  pub before_update : List LockStep
  pub before_again : List LockStep
  pub before_break : List LockStep
  pub created_at : ℕ
  pub now : ℕ

pub data Acquisition : Type 0 where
  acquired busy : Acquisition
  failed : Text → Acquisition

-- The row is created where it is missing. An error of the query or of Create is passed over.
unfoldable pub ensure_lock_row : LockCall → Option MigrationLock → Option MigrationLock
unfolding lock_steps
ensure_lock_row call row =
    let row' = lock_steps call.before_first row in
    elim call.first [
      | some e ↦ row'
      | none ↦ elim row' [
        | some lock ↦ some lock
        | none ↦
            (let row'' = lock_steps call.before_create none in
              elim call.create [ some e ↦ row'' | none ↦ create_lock call.created_at row'' ])
      ]
    ]

-- What follows the update that found the lock taken.
unfoldable pub break_if_expired :
    LockCall → ℕ → Text → Option MigrationLock → Acquisition × Option MigrationLock
unfolding lock_steps break_stale_lock
break_if_expired call timeout locked_by row =
    let row' = lock_steps call.before_again row in
    elim call.first_again [
      | some e ↦ (failed e, row')
      | none ↦ elim row' [
        | none ↦ (failed [], none)
        | some lock ↦
            if lock.locked && ltb (lock.locked_at + timeout) call.now
            then (let row'' = lock_steps call.before_break (some lock) in
                elim call.break_ [
                  | some e ↦ (failed e, row'')
                  | none ↦
                      (let (affected, row3) =
                          break_stale_lock call.now lock.locked_at locked_by row'' in
                        (if affected then acquired else busy, row3))
                ])
            else (busy, some lock)
      ]
    ]

unfoldable pub acquire_lock :
    LockCall → ℕ → Text → Option MigrationLock → Acquisition × Option MigrationLock
unfolding ensure_lock_row lock_steps update_unlocked break_if_expired
acquire_lock call timeout locked_by row = elim call.auto_migrate [
  | some e ↦ (failed e, row)
  | none ↦
      (let row' = lock_steps call.before_update (ensure_lock_row call row) in
        elim call.update [
          | some e ↦ (failed e, row')
          | none ↦
              (let (affected, row'') = update_unlocked call.now locked_by row' in
                if affected
                then (acquired, row'')
                else break_if_expired call timeout locked_by row'')
        ])
]

-- Two minutes.
abbrev pub max_wait : ℕ
max_wait = 120 * 1000000000

abbrev pub poll_interval : ℕ
poll_interval = 2 * 1000000000

-- One turn of the loop of waitForLock: the time at which the deadline is tested, and the acquisition.
pub record Poll : Type 0 where
  pub checked : ℕ
  pub call : LockCall

pub data Wait : Type 0 where
  got gave_up waiting : Wait
  wait_failed : Text → Wait

-- The loop of waitForLock on the turns to come; `waiting` where it goes on after them.
unfoldable pub wait_for_lock :
    ℕ → ℕ → Text → List Poll → Option MigrationLock → Wait × Option MigrationLock
unfolding acquire_lock
wait_for_lock start timeout locked_by [] row = (waiting, row)
wait_for_lock start timeout locked_by (p ∷ polls) row =
    if ltb p.checked (start + max_wait)
    then (let (result, row') = acquire_lock p.call timeout locked_by row in
        elim result [
          | failed e ↦ (wait_failed e, row')
          | acquired ↦ (got, row')
          | busy ↦ wait_for_lock start timeout locked_by polls row'
        ])
    else (gave_up, row)
