-- ===== src/Event/Dlq.antt =====
-- framework/event/retry_manager.go: one run of the task that retries failed events. The table
-- springo_failed_events is a map from the primary key; the database answers each statement, and the
-- redispatch of an event is a parameter that acts on W.
pub mod Attempts
pub mod Bound
mod Tests
use springo.Base.{
  ℕ, ◌+◌, ◌-◌, ◌*◌, Bool, true, false, List, [], ◌∷◌, Option, none, some, Text, lookup, insert,
  delete, nat_key, nat_eqb, ltb, leb, take, if◌then◌else◌, ◌&&◌, ◌||◌, not,
}
use springo.Event.Retry.{
  RowStatus, pending, failed, retrying, completed, processing, processed, FailedEvent,
  DlqProperties, calculate_next_retry, second,
}

abbrev pub Rows : Type 0
Rows = List (ℕ × FailedEvent)

-- What the database answers: the two statements of a run, the claim and the last write by row.
pub record DlqAnswers : Type 0 where
  pub recovers : Bool
  pub finds : Bool
  pub claims : ℕ → Bool
  pub writes : ℕ → Bool

abbrev pub is_open : RowStatus → Bool
is_open pending = true
is_open failed = true
is_open _ = false

abbrev pub is_retrying : RowStatus → Bool
is_retrying retrying = true
is_retrying _ = false

-- Leases left by a crashed worker; an update sets updated_at too.
unfoldable pub recover_leases : ℕ → Rows → Rows
recover_leases now [] = []
recover_leases now ((id, fe) ∷ rows) =
    let rest = recover_leases now rows in
    if is_retrying fe.status && ltb (fe.updated_at + 300 * second) now
    then (id, record fe { status = failed; updated_at = now }) ∷ rest
    else (id, fe) ∷ rest

unfoldable pub is_eligible : ℕ → ℕ → FailedEvent → Bool
is_eligible now max_retries fe =
    is_open fe.status
    && ltb fe.retries max_retries
    && (nat_eqb fe.retries 0 || (elim fe.next_retry_at [ none ↦ true | some at ↦ leb at now ]))

unfoldable pub find_eligible : ℕ → ℕ → Rows → Rows
unfolding is_eligible
find_eligible now max_retries [] = []
find_eligible now max_retries ((id, fe) ∷ rows) =
    let rest = find_eligible now max_retries rows in
    if is_eligible now max_retries fe then (id, fe) ∷ rest else rest

-- The claim of a row, where it is still open.
unfoldable pub claim : ℕ → ℕ → ℕ → Rows → Option Rows
claim now next_retry id rows = elim (lookup id rows) [
  | none ↦ none
  | some row ↦
      if is_open row.status
      then some (
          insert id
            (record row {
              status = retrying;
              retries = row.retries + 1;
              next_retry_at = some next_retry;
              updated_at = now;
            })
            rows)
      else none
]

module _ {W : Type 0} (redispatch : FailedEvent → W → Option Text × W) where
  -- What follows a claim: the row of a failure is saved whole, as the worker knows it, and the row
  -- of a success is deleted.
  unfoldable pub retry_claimed : ℕ → Bool → ℕ → FailedEvent → Rows → W → Rows × W
  retry_claimed now writes id fe rows w =
      let (err, w') = redispatch fe w in
      (
        (if not writes then rows else elim err [
          | some e ↦ insert id (record fe { status = failed; error = e; updated_at = now }) rows
          | none ↦ delete id rows
        ]),
        w',
      )

  unfoldable pub update_retry_state :
      DlqAnswers → ℕ → DlqProperties → ℕ → FailedEvent → Rows → W → Rows × W
  unfolding claim retry_claimed
  update_retry_state a now props id fe rows w =
      let next_retry = calculate_next_retry now (fe.retries + 1) (some props) in
      if not (a.claims id) then (rows, w) else elim (claim now next_retry id rows) [
        | none ↦ (rows, w)
        | some claimed ↦
            retry_claimed now (a.writes id) id
              (record fe {
                retries = fe.retries + 1;
                status = retrying;
                next_retry_at = some next_retry;
              })
              claimed w
      ]

  unfoldable pub retry_all : DlqAnswers → ℕ → DlqProperties → Rows → Rows → W → Rows × W
  unfolding update_retry_state
  retry_all a now props [] rows w = (rows, w)
  retry_all a now props ((id, fe) ∷ found) rows w =
      let (rows', w') = update_retry_state a now props id fe rows w in
      retry_all a now props found rows' w'

  -- ProcessDLQ, and whether it returns an error.
  unfoldable pub process_dlq :
      DlqAnswers → ℕ → Option DlqProperties → Bool → Rows → W → Bool × Rows × W
  unfolding recover_leases find_eligible retry_all
  process_dlq a now none has_db rows w = (false, rows, w)
  process_dlq a now (some props) has_db rows w =
      if not props.enabled || not has_db
      then (false, rows, w)
      else if not a.recovers
      then (true, rows, w)
      else (let recovered = recover_leases now rows in
          if not a.finds
          then (true, recovered, w)
          else (let found = take 10 (find_eligible now props.max_retries recovered) in
              let (rows', w') = retry_all a now props found recovered w in (false, rows', w')))
