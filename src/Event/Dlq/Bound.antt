-- ===== src/Event/Dlq/Bound.antt =====
-- retry_manager.go: the events that one run of ProcessDLQ redispatches.
use mathlib.Core.List.{append_assoc}
use springo.Base.{
  ℕ, ◌+◌, ◌≤◌, ◌<◌, ◌≡◌, refl, sym, ap, ◌∙◌, inl, inr, Bool, true, false, zero, suc, List, [], ◌∷◌,
  ◌++◌, Option, none, some, Text, nat_key, arith, if◌then◌else◌, Bool-cases, not, ◌||◌, All,
  All-append, length, length-append, take,
}
use springo.Event.Retry.{FailedEvent, DlqProperties, calculate_next_retry, retrying}
use springo.Event.Dlq.{
  Rows, DlqAnswers, recover_leases, is_eligible, find_eligible, claim, retry_claimed,
  update_retry_state, retry_all, process_dlq,
}

-- The run redispatches `sent`, at most `most` events, none of them for an attempt beyond
-- `max_retries`. The log of what is redispatched is newest first.
abbrev pub Sends : ℕ → ℕ → List FailedEvent → List FailedEvent → Type 0
Sends max_retries most log log' =
    (sent : List FailedEvent) × (log' ≡ sent ++ log)
    × All (λ e. e.retries ≤ max_retries) sent
    × (length sent ≤ most)

-- A redispatch that logs the event that it is given, and ends as `outcome` has it.
abbrev pub logging :
    (FailedEvent → Option Text) → FailedEvent → List FailedEvent → Option Text × List FailedEvent
logging outcome e log = (outcome e, e ∷ log)

Sends-none : (max_retries most : ℕ) (log : List FailedEvent) → Sends max_retries most log log
Sends-none max_retries most log = ([], refl, tt, ground arith)

Sends-trans :
    (max_retries m n : ℕ) (a b c : List FailedEvent)
    → Sends max_retries m a b
    → Sends max_retries n b c
    → Sends max_retries (m + n) a c
Sends-trans max_retries m n a b c (s, e, h, l) (s', e', h', l') =
    let counted = length-append s' s in
    (
      s' ++ s,
      e' ∙ ap (λ t. s' ++ t) e ∙ sym (append_assoc s' s a),
      All-append (λ e. e.retries ≤ max_retries) s' s h' h,
      omega arith,
    )

abbrev IsBelow : ℕ → ℕ × FailedEvent → Type 0
IsBelow max_retries entry = entry.1.retries < max_retries

find_eligible-All :
    (now max_retries : ℕ) (rows : Rows)
    → All (IsBelow max_retries) (find_eligible now max_retries rows)
unfolding find_eligible is_eligible
find_eligible-All now max_retries [] = tt
find_eligible-All now max_retries ((id, fe) ∷ rows) =
    elim (Bool-cases (is_eligible now max_retries fe)) [
      | inl chosen ↦ rw chosen (ground arith, find_eligible-All now max_retries rows)
      | inr passed ↦ rw passed (find_eligible-All now max_retries rows)
    ]

take-All :
    (max_retries n : ℕ) (rows : Rows)
    → All (IsBelow max_retries) rows
    → All (IsBelow max_retries) (take n rows)
take-All max_retries zero rows h = tt
take-All max_retries (suc n) [] h = tt
take-All max_retries (suc n) (row ∷ rows) h = (h.0, take-All max_retries n rows h.1)

length-take_le : (n : ℕ) (rows : Rows) → length (take n rows) ≤ n
length-take_le zero rows = ground arith
length-take_le (suc n) [] = ground arith
length-take_le (suc n) (row ∷ rows) = let l = length-take_le n rows in omega arith

module _ (outcome : FailedEvent → Option Text) (a : DlqAnswers) (now : ℕ)
    (props : DlqProperties) where
  update_retry_state-Sends :
      (id : ℕ) (fe : FailedEvent) (rows : Rows) (log : List FailedEvent)
      → fe.retries < props.max_retries
      → Sends props.max_retries 1 log
          (update_retry_state (logging outcome) a now props id fe rows log).1
  unfolding update_retry_state retry_claimed
  update_retry_state-Sends id fe rows log below = at (a.claims id) (claim now next_retry id rows)
    where
      next_retry : ℕ
      next_retry = calculate_next_retry now (fe.retries + 1) (some props)

      sent : FailedEvent
      sent = record fe {
        retries = fe.retries + 1;
        status = retrying;
        next_retry_at = some next_retry;
      }

      at :
          (claims : Bool) (claimed : Option Rows)
          → Sends props.max_retries 1 log
              (if not claims then (rows, log) else (elim claimed as (λ _. Rows × List FailedEvent) [
                | none ↦ (rows, log)
                | some claimed ↦
                    retry_claimed (logging outcome) now (a.writes id) id sent claimed log
              ])).1
      at false claimed = Sends-none props.max_retries 1 log
      at true none = Sends-none props.max_retries 1 log
      at true (some claimed) = (sent ∷ [], refl, (ground arith, tt), ground arith)

  retry_all-Sends :
      (found rows : Rows) (log : List FailedEvent)
      → All (IsBelow props.max_retries) found
      → Sends props.max_retries
          (length found)
          log
          (retry_all (logging outcome) a now props found rows log).1
  unfolding retry_all
  retry_all-Sends [] rows log h = Sends-none props.max_retries 0 log
  retry_all-Sends ((id, fe) ∷ found) rows log h =
      let out = update_retry_state (logging outcome) a now props id fe rows log in
      let (sent, e, fits, few) =
        Sends-trans props.max_retries 1 (length found) log out.1 _
          (update_retry_state-Sends id fe rows log h.0) (retry_all-Sends found out.0 out.1 h.1) in
      (sent, e, fits, omega arith)

  -- A run of the task, whatever the listeners and the database answer, redispatches at most ten
  -- events, and none for an attempt beyond the configured number.
  pub process_dlq-Sends :
      (has_db : Bool) (rows : Rows) (log : List FailedEvent)
      → Sends props.max_retries 10 log
          (process_dlq (logging outcome) a now (some props) has_db rows log).2
  unfolding process_dlq
  process_dlq-Sends has_db rows log = at (not props.enabled || not has_db) a.recovers a.finds
    where
      recovered : Rows
      recovered = recover_leases now rows

      found : Rows
      found = take 10 (find_eligible now props.max_retries recovered)

      tried : Rows × List FailedEvent
      tried = retry_all (logging outcome) a now props found recovered log

      ended : Bool → Bool → Bool → Bool × Rows × List FailedEvent
      ended off recovers finds =
          if off
          then (false, rows, log)
          else if not recovers
          then (true, rows, log)
          else if not finds
          then (true, recovered, log)
          else (false, tried.0, tried.1)

      at : (off recovers finds : Bool) → Sends props.max_retries 10 log (ended off recovers finds).2
      at true recovers finds = Sends-none props.max_retries 10 log
      at false false finds = Sends-none props.max_retries 10 log
      at false true false = Sends-none props.max_retries 10 log
      at false true true =
          let (sent, e, fits, few) =
            retry_all-Sends found recovered log (
              take-All props.max_retries 10 _
                (find_eligible-All now props.max_retries recovered)) in
          let ten = length-take_le 10 (find_eligible now props.max_retries recovered) in
          (sent, e, fits, omega arith)
