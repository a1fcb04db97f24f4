-- ===== src/Transaction.antt =====
-- framework/database/transaction.go: Transactional and its propagation. gorm and the database are a
-- parameter, which answers each call by the calls so far. The errors that AddError leaves on a
-- handle, the event buffers and the batches given to the post-commit hook are the state.
pub mod Code
pub mod Growth
pub mod Scopes
pub mod Nested
pub mod Ending
pub mod Marks
pub mod Joined
mod Tests
use springo.Base.{
  ℕ, suc, Bool, true, false, List, [], ◌∷◌, ◌++◌, Option, none, some, Text, codes, ◌==◌, text_key,
  nat_eqb, length, take, if◌then◌else◌, ◌||◌, not,
}

pub data Propagation : Type 0 where
  required requires_new nested supports not_supported mandatory never : Propagation
  unknown : ℕ → Propagation

pub record TxConfig : Type 0 where
  pub propagation : Propagation
  pub read_only : Bool

-- The calls of gorm, each with the transaction handle that it is made on.
pub data Call : Type 0 where
  begin_tx : ℕ → Bool → Call
  set_read_only commit rollback : ℕ → Call
  save_point rollback_to : ℕ → ℕ → Call

-- A call is done, or fails, or fails and leaves its error on the handle.
pub data Answer : Type 0 where
  done refused marked : Answer

pub data Result : Type 0 where
  succeeds : Result
  fails panics : Text → Result

pub record Handle : Type 0 where
  pub errors : List Text
  pub buffer : List Text

-- The values that the package keeps in a context.
pub record Context : Type 0 where
  pub tx : Option ℕ
  pub events : Option ℕ
  pub is_read_only : Bool

pub record World : Type 0 where
  pub next : ℕ
  pub handles : ℕ → Handle
  pub log : List Call
  pub published : List (ℕ × List Text)

pub record Environment : Type 0 where
  pub answer : List Call → Call → Answer
  pub has_db : Bool
  -- The dialector's name in lower case.
  pub dialect : Text
  pub has_hook : Bool
  -- The panic that the hook ends with, if it does, by the events that it is given.
  pub hook_panics : List Text → Option Text

abbrev pub Body : Type 0
Body = Context → World → Result × World

abbrev pub set_handle : ℕ → Handle → World → World
set_handle id h w = record w { handles = λ j. if nat_eqb j id then h else w.handles j }

-- gorm's AddError.
unfoldable pub add_error : ℕ → Text → World → World
add_error id e w =
    set_handle id (record (w.handles id) { errors = (w.handles id).errors ++ e ∷ [] }) w

abbrev pub subject : Call → ℕ
subject (begin_tx id _) = id
subject (set_read_only id) = id
subject (commit id) = id
subject (rollback id) = id
subject (save_point id _) = id
subject (rollback_to id _) = id

abbrev pub is_done : Answer → Bool
is_done done = true
is_done _ = false

-- AddEventToTransaction, and whether there was a buffer.
unfoldable pub add_event_to_transaction : Text → Context → World → Bool × World
add_event_to_transaction e ctx w = elim ctx.events [
  | none ↦ (false, w)
  | some id ↦
      (true, set_handle id (record (w.handles id) { buffer = (w.handles id).buffer ++ e ∷ [] }) w)
]

-- The context where the active transaction is suspended.
unfoldable pub suspend : Context → Context
suspend ctx = elim ctx.tx [
  | none ↦ ctx
  | some _ ↦ record { tx = none; events = none; is_read_only = false }
]

unfoldable pub get_read_only_tx_sql : Text → Bool
get_read_only_tx_sql dialect =
    dialect == codes "postgres" || dialect == codes "postgresql" || dialect == codes "mysql"

unfoldable pub execute_in_active_tx : ℕ → Body → Body
execute_in_active_tx id fn ctx w =
    let (result, w') = fn ctx w in
    elim result [
      | succeeds ↦ (succeeds, w')
      | fails e ↦ (fails e, add_error id e w')
      | panics e ↦ (panics e, add_error id (codes "transaction panic: " ++ e) w')
    ]

-- `*buffer = (*buffer)[:n]`.
unfoldable pub trim : Option ℕ → ℕ → World → World
trim none n w = w
trim (some id) n w =
    set_handle id (record (w.handles id) { buffer = take n (w.handles id).buffer }) w

unfoldable pub buffered : Option ℕ → World → ℕ
buffered none w = 0
buffered (some id) w = length (w.handles id).buffer

abbrev pub commit_failed : Text
commit_failed = codes "failed to commit transaction"

abbrev pub begin_failed : Text
begin_failed = codes "failed to start transaction"

abbrev pub savepoint_failed : Text
savepoint_failed = codes "failed to establish savepoint"

abbrev pub rollback_failed : Text
rollback_failed = codes "transaction execution error, and failed to rollback to savepoint"

abbrev pub no_database : Text
no_database = codes "transaction failed: primary database connection not found in container"

abbrev pub aborted : Text
aborted = codes "transaction aborted due to GORM error"

abbrev pub read_only_failed : Text
read_only_failed = codes "failed to set read-only transaction"

abbrev pub no_active : Text
no_active = codes "transaction propagation MANDATORY failed"

abbrev pub active_found : Text
active_found = codes "transaction propagation NEVER failed"

abbrev pub unknown_mode : Text
unknown_mode = codes "unknown transaction propagation mode"

module _ (env : Environment) where
  unfoldable pub issue : Call → World → Answer × World
  issue c w =
      let a = env.answer w.log c in
      let logged : World = record w { log = c ∷ w.log } in
      (a, elim a [ marked ↦ add_error (subject c) (codes "gorm") logged | _ ↦ logged ])

  -- A savepoint's name is told apart by the number of the calls so far.
  unfoldable pub execute_in_nested_tx : ℕ → Body → Body
  execute_in_nested_tx id fn ctx w =
      let name = length w.log in
      let (saved, w1) = issue (save_point id name) w in
      let initial_len = buffered ctx.events w1 in
      let (result, w2) = fn ctx w1 in
      let (undone, w3) = issue (rollback_to id name) w2 in
      if not (is_done saved) then (fails savepoint_failed, w1) else elim result [
        | succeeds ↦ (succeeds, w2)
        | fails e ↦
            if is_done undone
            then (fails e, trim ctx.events initial_len w3)
            else (fails rollback_failed, w3)
        | panics e ↦ (panics e, trim ctx.events initial_len w3)
      ]

  -- The context of a new transaction.
  abbrev pub inside : ℕ → Bool → Context
  inside id ro = record { tx = some id; events = some id; is_read_only = ro }

  unfoldable pub apply_read_only_mode : ℕ → World → Bool × World
  apply_read_only_mode id w =
      if get_read_only_tx_sql env.dialect
      then (is_done (issue (set_read_only id) w).0, (issue (set_read_only id) w).1)
      else (true, w)

  -- The hook gets the buffer of the committed transaction; with its panic, if it does.
  unfoldable pub post_commit : ℕ → World → Option Text × World
  post_commit id w =
      if env.has_hook
      then (
        env.hook_panics (w.handles id).buffer,
        record w { published = (id, (w.handles id).buffer) ∷ w.published },
      )
      else (none, w)

  -- After the commit; a panic of the hook is recovered, rolled back and raised again.
  unfoldable pub run_hook : ℕ → World → Result × World
  unfolding post_commit
  run_hook id w =
      let (panic, w') = post_commit id w in
      elim panic [ none ↦ (succeeds, w') | some e ↦ (panics e, (issue (rollback id) w').1) ]

  unfoldable pub finish_tx : ℕ → Result × World → Result × World
  unfolding run_hook
  finish_tx id (fails e, w) = (fails e, (issue (rollback id) w).1)
  finish_tx id (panics e, w) = (panics e, (issue (rollback id) w).1)
  finish_tx id (succeeds, w) = elim (w.handles id).errors [
    | _ ∷ _ ↦ (fails aborted, (issue (rollback id) w).1)
    | [] ↦
        let (committed, w') = issue (commit id) w in
        if is_done committed
        then run_hook id w'
        else (fails commit_failed, (issue (rollback id) w').1)
  ]

  unfoldable pub execute_in_new_tx : Body → Bool → Context → World → Result × World
  execute_in_new_tx fn ro ctx w =
      let id = w.next in
      let fresh : World =
        set_handle id (record { errors = []; buffer = [] }) (record w { next = suc id }) in
      let (begun, w1) = issue (begin_tx id ro) fresh in
      let (set, w2) = if ro then apply_read_only_mode id w1 else (true, w1) in
      if not env.has_db
      then (fails no_database, w)
      else if not (is_done begun)
      then (fails begin_failed, w1)
      else if not set
      then (fails read_only_failed, (issue (rollback id) w2).1)
      else finish_tx id (fn (inside id ro) w2)

  unfoldable pub transactional : TxConfig → Body → Body
  transactional conf fn ctx w = elim conf.propagation [
    | required ↦ elim ctx.tx [
      | some id ↦ execute_in_active_tx id fn ctx w
      | none ↦ execute_in_new_tx fn conf.read_only ctx w
    ]
    | requires_new ↦ execute_in_new_tx fn conf.read_only (suspend ctx) w
    | nested ↦ elim ctx.tx [
      | some id ↦ execute_in_nested_tx id fn ctx w
      | none ↦ execute_in_new_tx fn conf.read_only ctx w
    ]
    | supports ↦ fn ctx w
    | not_supported ↦ fn (suspend ctx) w
    | mandatory ↦ elim ctx.tx [
      | some id ↦ execute_in_active_tx id fn ctx w
      | none ↦ (fails no_active, w)
    ]
    | never ↦ elim ctx.tx [ some _ ↦ (fails active_found, w) | none ↦ fn ctx w ]
    | unknown _ ↦ (fails unknown_mode, w)
  ]
