-- ===== src/Migration/Waiting.antt =====
-- migration_lock.go: an instance that waits gets a lock that is free or stale, and does not wait for
-- ever.
use springo.Base.{
  ℕ, ◌+◌, ◌*◌, ◌≤◌, ◌<◌, ◌≡◌, ◌≢◌, refl, inl, inr, Bool, true, List, [], ◌∷◌, ◌++◌, map, suc, zero,
  Option, none, some, Text, nat_key, ==_refl, ltb, if◌then◌else◌, All, Bool-cases, arith, length,
  lt→ltb, ltb→lt,
}
use springo.Migration.Lock.{
  MigrationLock, update_unlocked, break_stale_lock, lock_steps, Acquisition, acquired, busy, failed,
  ensure_lock_row, break_if_expired, acquire_lock, Poll, Wait, got, gave_up, waiting, wait_failed,
  wait_for_lock, max_wait, poll_interval,
}

-- A turn whose statements are done, while no other instance acts: the time of its test of the
-- deadline, and of its acquisition.
abbrev pub quiet_poll : ℕ × ℕ → Poll
quiet_poll (checked, now) = record {
  checked = checked;
  call = record {
    auto_migrate = none;
    first = none;
    create = none;
    update = none;
    first_again = none;
    break_ = none;
    before_first = [];
    before_create = [];
    before_update = [];
    before_again = [];
    before_break = [];
    created_at = now;
    now = now;
  };
}

-- The lock is free, or its last heartbeat is older than the timeout.
abbrev pub is_available : ℕ → ℕ → MigrationLock → Bool
is_available timeout now lock = if lock.locked then ltb (lock.locked_at + timeout) now else true

-- What a quiet turn leaves.
abbrev quiet_result : ℕ → ℕ → Text → MigrationLock → Acquisition × Option MigrationLock
quiet_result timeout now caller lock =
    if is_available timeout now lock
    then (acquired, some (record { locked = true; locked_at = now; locked_by = caller }))
    else (busy, some lock)

-- The caller has the lock.
abbrev pub HasLock : Text → Wait × Option MigrationLock → Type 0
HasLock caller (got, some lock) = (lock.locked ≡ true) × (lock.locked_by ≡ caller)
HasLock caller (got, none) = ⊥
HasLock caller (gave_up, row) = ⊥
HasLock caller (waiting, row) = ⊥
HasLock caller (wait_failed e, row) = ⊥

-- Each test of the deadline comes an interval after the one before.
abbrev pub Paced : ℕ → List Poll → Type 0
Paced t [] = Unit
Paced t (p ∷ polls) = (t ≤ p.checked) × Paced (p.checked + poll_interval) polls

module _ (start timeout : ℕ) (caller : Text) where
  acquire_lock-quiet :
      (checked now : ℕ) (lock : MigrationLock)
      → acquire_lock (quiet_poll (checked, now)).call timeout caller (some lock)
        ≡ quiet_result timeout now caller lock
  unfolding acquire_lock ensure_lock_row break_if_expired lock_steps update_unlocked
      break_stale_lock
  acquire_lock-quiet checked now lock = elim (Bool-cases lock.locked) [
    | inl locked ↦ elim (Bool-cases (ltb (lock.locked_at + timeout) now)) [
      | inl stale ↦ simp (locked, stale, ==_refl lock.locked_at) refl
      | inr fresh ↦ simp (locked, fresh) refl
    ]
    | inr free ↦ simp free refl
  ]

  -- The rest of the loop, after an acquisition.
  abbrev after : List Poll → Acquisition × Option MigrationLock → Wait × Option MigrationLock
  after polls r = elim r.0 as (λ _. Wait × Option MigrationLock) [
    | failed e ↦ (wait_failed e, r.1)
    | acquired ↦ (got, r.1)
    | busy ↦ wait_for_lock start timeout caller polls r.1
  ]

  wait_for_lock-turn :
      (p : Poll) (polls : List Poll) (row : Option MigrationLock)
      → p.checked < start + max_wait
      → wait_for_lock start timeout caller (p ∷ polls) row
        ≡ after polls (acquire_lock p.call timeout caller row)
  unfolding wait_for_lock
  wait_for_lock-turn p polls row l = rw (lt→ltb p.checked (start + max_wait) l) refl

  -- An instance that waits, with nobody else acting, has the lock once it is free or its heartbeat is
  -- older than the timeout at a turn before the deadline.
  pub wait_for_lock-HasLock :
      (early later : List (ℕ × ℕ)) (checked now : ℕ) (lock : MigrationLock)
      → All (λ p. p.0 < start + max_wait) early
      → checked < start + max_wait
      → is_available timeout now lock ≡ true
      → HasLock caller (
          wait_for_lock start timeout caller
            (map quiet_poll (early ++ (checked, now) ∷ later))
            (some lock))
  wait_for_lock-HasLock [] later checked now lock e l available =
      rw (wait_for_lock-turn (quiet_poll (checked, now)) (map quiet_poll later) (some lock) l)
        (rw (acquire_lock-quiet checked now lock) (rw available (refl, refl)))
  wait_for_lock-HasLock ((c, n) ∷ early) later checked now lock e l available =
      rw
        (wait_for_lock-turn (quiet_poll (c, n)) (map quiet_poll (early ++ (checked, now) ∷ later))
          (some lock) e.0)
        (rw (acquire_lock-quiet c n lock) (elim (Bool-cases (is_available timeout n lock)) [
          | inl now_free ↦ rw now_free (refl, refl)
          | inr still ↦
              rw still (wait_for_lock-HasLock early later checked now lock e.1 l available)
        ]))

  after-ne_waiting :
      (polls : List Poll) (r : Acquisition × Option MigrationLock)
      → ((row : Option MigrationLock) → (wait_for_lock start timeout caller polls row).0 ≢ waiting)
      → (after polls r).0 ≢ waiting
  after-ne_waiting polls (failed e, row) ends = λ same. ground arith
  after-ne_waiting polls (acquired, row) ends = λ same. ground arith
  after-ne_waiting polls (busy, row) ends = ends row

  wait_for_lock_bounded :
      (k t : ℕ) (polls : List Poll) (row : Option MigrationLock)
      → Paced t polls
      → start + max_wait ≤ t + k * poll_interval
      → k < length polls
      → (wait_for_lock start timeout caller polls row).0 ≢ waiting
  unfolding wait_for_lock
  wait_for_lock_bounded k t [] row paced late enough = absurd (ground arith)
  wait_for_lock_bounded k t (p ∷ polls) row paced late enough =
      elim (Bool-cases (ltb p.checked (start + max_wait))) [
        | inr over ↦ rw over (λ e. ground arith)
        | inl before ↦
            rw (wait_for_lock-turn p polls row (ltb→lt p.checked (start + max_wait) before)) (
              after-ne_waiting polls (acquire_lock p.call timeout caller row) (
                again k late enough (ltb→lt p.checked (start + max_wait) before) (λ k' l' e' row'.
                  wait_for_lock_bounded k' (p.checked + poll_interval) polls row' paced.1 l' e')))
      ]
    where
      again :
          (k : ℕ)
          → start + max_wait ≤ t + k * poll_interval
          → k < suc (length polls)
          → p.checked < start + max_wait
          → ((k' : ℕ)
              → start + max_wait ≤ p.checked + poll_interval + k' * poll_interval
              → k' < length polls
              → (row' : Option MigrationLock)
              → (wait_for_lock start timeout caller polls row').0 ≢ waiting)
          → (row' : Option MigrationLock)
          → (wait_for_lock start timeout caller polls row').0 ≢ waiting
      again zero l e before ih row' = absurd (let early = paced.0 in omega arith)
      again (suc k') l e before ih row' =
          ih k' (let early = paced.0 in omega arith) (omega arith) row'

  -- The wait ends, whatever the database answers and the others do: after 61 turns, each two seconds
  -- after the one before, it has the lock, an error, or given up.
  pub wait_for_lock-ne_waiting :
      (polls : List Poll) (row : Option MigrationLock)
      → Paced start polls
      → 60 < length polls
      → (wait_for_lock start timeout caller polls row).0 ≢ waiting
  wait_for_lock-ne_waiting polls row paced enough =
      wait_for_lock_bounded 60 start polls row paced (omega arith) enough
