-- ===== src/Migration/Holding.antt =====
-- migration_lock.go: a holder whose heartbeat is fresh keeps the lock.
use springo.Base.{
  ℕ, ◌+◌, ◌≤◌, ◌<◌, ◌≡◌, ◌≢◌, refl, sym, ◌∙◌, inl, inr, Bool, true, false, List, [], ◌∷◌, Option,
  none, some, Text, ◌==◌, text_key, nat_key, text_eqb_iff, ltb, if◌then◌else◌, ◌&&◌, All,
  Bool-cases, ==_ne, subst, arith,
}
use springo.Migration.Lock.{
  MigrationLock, create_lock, update_unlocked, break_stale_lock, update_lock_heartbeat,
  release_lock, LockStep, creates, updates, heartbeats, breaks, releases, lock_step, lock_steps,
  LockCall, Acquisition, acquired, busy, failed, ensure_lock_row, break_if_expired, acquire_lock,
}

-- The lock is held by `holder`, with a heartbeat at `t` or later.
abbrev pub IsHeld : Text → ℕ → Option MigrationLock → Type 0
IsHeld holder t none = ⊥
IsHeld holder t (some lock) =
    (lock.locked ≡ true) × (lock.locked_by ≡ holder) × (t ≤ lock.locked_at)

-- A statement of another instance, or a heartbeat of the holder, done while the one at `t` is fresh.
-- An instance breaks a lock that it saw to be older than the timeout.
abbrev pub Meanwhile : Text → ℕ → ℕ → LockStep → Type 0
Meanwhile holder t timeout (creates now) = Unit
Meanwhile holder t timeout (updates now other) = Unit
Meanwhile holder t timeout (heartbeats now other) = t ≤ now
Meanwhile holder t timeout (breaks now seen other) = (seen + timeout < now) × (now ≤ t + timeout)
Meanwhile holder t timeout (releases other) = other ≢ holder

-- What others do during a call, and its own time, is within the timeout of the heartbeat at `t`.
abbrev pub CallMeanwhile : Text → ℕ → ℕ → LockCall → Type 0
CallMeanwhile holder t timeout call =
    All (Meanwhile holder t timeout) call.before_first
    × All (Meanwhile holder t timeout) call.before_create
    × All (Meanwhile holder t timeout) call.before_update
    × All (Meanwhile holder t timeout) call.before_again
    × All (Meanwhile holder t timeout) call.before_break
    × (call.now ≤ t + timeout)

-- The caller did not get the lock, and the holder has it.
abbrev pub Refused : Text → ℕ → Acquisition × Option MigrationLock → Type 0
Refused holder t (acquired, row) = ⊥
Refused holder t (busy, row) = IsHeld holder t row
Refused holder t (failed e, row) = IsHeld holder t row

module _ (holder : Text) (t timeout : ℕ) where
  break_stale_lock-IsHeld :
      (now seen : ℕ) (other : Text) (row : Option MigrationLock)
      → seen + timeout < now
      → now ≤ t + timeout
      → IsHeld holder t row
      → break_stale_lock now seen other row ≡ (false, row)
  unfolding break_stale_lock
  break_stale_lock-IsHeld now seen other none stale fresh h = absurd h
  break_stale_lock-IsHeld now seen other (some lock) stale fresh (locked, by, at) =
      simp (locked, ==_ne lock.locked_at seen (λ e. ground arith)) refl

  update_unlocked-IsHeld :
      (now : ℕ) (other : Text) (row : Option MigrationLock)
      → IsHeld holder t row
      → update_unlocked now other row ≡ (false, row)
  unfolding update_unlocked
  update_unlocked-IsHeld now other none h = absurd h
  update_unlocked-IsHeld now other (some lock) (locked, by, at) = simp locked refl

  lock_step-IsHeld :
      (s : LockStep) (row : Option MigrationLock)
      → Meanwhile holder t timeout s
      → IsHeld holder t row
      → IsHeld holder t (lock_step s row)
  unfolding lock_step create_lock update_lock_heartbeat release_lock
  lock_step-IsHeld s none m h = absurd h
  lock_step-IsHeld (creates now) (some lock) m h = h
  lock_step-IsHeld (updates now other) (some lock) m h =
      subst (λ r. IsHeld holder t r.1) (sym (update_unlocked-IsHeld now other (some lock) h)) h
  lock_step-IsHeld (breaks now seen other) (some lock) m h =
      subst (λ r. IsHeld holder t r.1)
        (sym (break_stale_lock-IsHeld now seen other (some lock) m.0 m.1 h)) h
  lock_step-IsHeld (heartbeats now other) (some lock) m h =
      elim (Bool-cases (lock.locked_by == other)) [
        | inl same ↦ simp same (h.0, h.1, m)
        | inr differs ↦ simp differs h
      ]
  lock_step-IsHeld (releases other) (some lock) m h = elim (Bool-cases (lock.locked_by == other)) [
    | inl same ↦ absurd (m (sym ((text_eqb_iff lock.locked_by other).0 same) ∙ h.1))
    | inr differs ↦ simp differs h
  ]

  lock_steps-IsHeld :
      (steps : List LockStep) (row : Option MigrationLock)
      → All (Meanwhile holder t timeout) steps
      → IsHeld holder t row
      → IsHeld holder t (lock_steps steps row)
  unfolding lock_steps
  lock_steps-IsHeld [] row m h = h
  lock_steps-IsHeld (s ∷ steps) row m h =
      lock_steps-IsHeld steps (lock_step s row) m.1 (lock_step-IsHeld s row m.0 h)

  ensure_lock_row-IsHeld :
      (call : LockCall) (row : Option MigrationLock)
      → CallMeanwhile holder t timeout call
      → IsHeld holder t row
      → IsHeld holder t (ensure_lock_row call row)
  unfolding ensure_lock_row
  ensure_lock_row-IsHeld call row m h =
      at call.first (lock_steps call.before_first row)
        (lock_steps-IsHeld call.before_first row m.0 h)
    where
      at :
          (o : Option Text) (row' : Option MigrationLock)
          → IsHeld holder t row'
          → IsHeld holder t (elim o as (λ _. Option MigrationLock) [
            | some e ↦ row'
            | none ↦ elim row' as (λ _. Option MigrationLock) [
              | some lock ↦ some lock
              | none ↦
                  (let row'' = lock_steps call.before_create none in
                    elim call.create [ some e ↦ row'' | none ↦ create_lock call.created_at row'' ])
            ]
          ])
      at (some e) row' h' = h'
      at none none h' = absurd h'
      at none (some lock) h' = h'

  break_if_expired-Refused :
      (call : LockCall) (caller : Text) (row : Option MigrationLock)
      → CallMeanwhile holder t timeout call
      → IsHeld holder t row
      → Refused holder t (break_if_expired call timeout caller row)
  unfolding break_if_expired
  break_if_expired-Refused call caller row m h =
      at call.first_again (lock_steps call.before_again row)
        (lock_steps-IsHeld call.before_again row m.3 h)
    where
      try_break : MigrationLock → Acquisition × Option MigrationLock
      try_break lock =
          let row'' = lock_steps call.before_break (some lock) in
          elim call.break_ as (λ _. Acquisition × Option MigrationLock) [
            | some e ↦ (failed e, row'')
            | none ↦
                (let (affected, row3) = break_stale_lock call.now lock.locked_at caller row'' in
                  (if affected then acquired else busy, row3))
          ]

      never :
          (lock : MigrationLock)
          → IsHeld holder t (some lock)
          → ltb (lock.locked_at + timeout) call.now ≡ false
      never lock h' = let late = h'.2 in let soon = m.5 in ground arith

      at :
          (o : Option Text) (row' : Option MigrationLock)
          → IsHeld holder t row'
          → Refused holder t (elim o as (λ _. Acquisition × Option MigrationLock) [
            | some e ↦ (failed e, row')
            | none ↦ elim row' as (λ _. Acquisition × Option MigrationLock) [
              | none ↦ (failed [], none)
              | some lock ↦
                  if lock.locked && ltb (lock.locked_at + timeout) call.now
                  then try_break lock
                  else (busy, some lock)
            ]
          ])
      at (some e) row' h' = h'
      at none none h' = absurd h'
      at none (some lock) h' = simp (h'.0, never lock h') (refl, h'.1, h'.2)

  -- A call for the lock, at any point of which others may act, does not get it while the heartbeat of
  -- the holder is not older than the timeout; and the holder keeps it.
  pub acquire_lock-Refused :
      (call : LockCall) (caller : Text) (row : Option MigrationLock)
      → CallMeanwhile holder t timeout call
      → IsHeld holder t row
      → Refused holder t (acquire_lock call timeout caller row)
  unfolding acquire_lock
  acquire_lock-Refused call caller row m h = migrated call.auto_migrate
    where
      row' : Option MigrationLock
      row' = lock_steps call.before_update (ensure_lock_row call row)

      held : IsHeld holder t row'
      held =
          lock_steps-IsHeld call.before_update (ensure_lock_row call row) m.2
            (ensure_lock_row-IsHeld call row m h)

      tried : Bool × Option MigrationLock → Acquisition × Option MigrationLock
      tried r = if r.0 then (acquired, r.1) else break_if_expired call timeout caller r.1

      updated :
          (o : Option Text)
          → Refused holder t (elim o as (λ _. Acquisition × Option MigrationLock) [
            | some e ↦ (failed e, row')
            | none ↦ tried (update_unlocked call.now caller row')
          ])
      updated (some e) = held
      updated none =
          subst (λ r. Refused holder t (tried r))
            (sym (update_unlocked-IsHeld call.now caller row' held))
            (break_if_expired-Refused call caller row' m held)

      migrated :
          (o : Option Text)
          → Refused holder t (elim o as (λ _. Acquisition × Option MigrationLock) [
            | some e ↦ (failed e, row)
            | none ↦ (elim call.update as (λ _. Acquisition × Option MigrationLock) [
              | some e ↦ (failed e, row')
              | none ↦ tried (update_unlocked call.now caller row')
            ])
          ])
      migrated (some e) = h
      migrated none = updated call.update
