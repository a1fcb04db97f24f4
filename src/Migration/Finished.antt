-- ===== src/Migration/Finished.antt =====
-- migrator.go: a migration that succeeds has executed all that is registered.
use springo.Base.{
  ℕ, ◌+◌, ◌≡◌, ◌≢◌, refl, sym, ◌∙◌, inl, inr, Bool, true, false, List, [], ◌∷◌, ◌++◌, Option, none,
  some, Text, ◌==◌, text_key, nat_key, ==_refl, lookup, lookup-insert, any, if◌then◌else◌,
  Bool-cases, Option-cases, All, All-perm, length, arith, subst,
}
use springo.Base.Sorting.Laws.{All-imp}
use springo.Migration.Table.{
  Migration, MigrationRecord, Database, MigrationError, database_error, Answers, Manager,
  executed_map, validate_checksums, get_pending_migrations, validate_order, get_next_batch,
}
use springo.Migration.Running.{
  Result, execute_pending_migrations, sort_pending, run_pending, apply_baseline_if_required,
  migrate,
}
use springo.Migration.Complete.{row_of, rows_of, execute_pending_migrations-rows}
use springo.Migration.Baseline.{Refreshed, apply_baseline_if_required-Refreshed}

-- The control table has a row for the name.
abbrev pub is_executed : Text → List MigrationRecord → Bool
is_executed name rows = any (λ row. row.migration == name) rows

is_executed-append :
    (name : Text) (rows older : List MigrationRecord)
    → is_executed name (rows ++ older)
      ≡ (if is_executed name rows then true else is_executed name older)
is_executed-append name [] older = refl
is_executed-append name (row ∷ rows) older = ground (arith, is_executed-append name rows older)

abbrev pub is_some : {A : Type 0} → Option A → Bool
is_some none = false
is_some (some x) = true

pub executed_map-is_some :
    (name : Text) (rows : List MigrationRecord)
    → is_some (lookup name (executed_map rows)) ≡ is_executed name rows
unfolding executed_map
executed_map-is_some name [] = unfold lookup in refl
executed_map-is_some name (row ∷ rows) = elim (Bool-cases (row.migration == name)) [
  | inl same ↦ rw (lookup-insert row.migration name row (executed_map rows)) (rw same refl)
  | inr differs ↦
      rw (lookup-insert row.migration name row (executed_map rows))
        (rw differs (executed_map-is_some name rows))
]

if_same : (b : Bool) → (if b then true else true) ≡ true
if_same true = refl
if_same false = refl

pub some_is_not : {e : MigrationError} → some e ≢ none
some_is_not e = ground arith

module _ {S : Type 0} where
  abbrev pub AllExecuted : List (Migration S) → Database S → Type 0
  AllExecuted ms db = All (λ m. is_executed m.name db.rows ≡ true) ms

  rows_of-executed :
      (a : Answers) (mgr : Manager S) (batch id : ℕ) (ps : List (Migration S))
      → All (λ p. is_executed p.name (rows_of a mgr batch id ps) ≡ true) ps
  rows_of-executed a mgr batch id [] = tt
  rows_of-executed a mgr batch id (p ∷ ps) = (
    rw (is_executed-append p.name (rows_of a mgr batch (id + 1) ps) (row_of mgr batch id p ∷ []))
        (rw (==_refl p.name) (if_same (is_executed p.name (rows_of a mgr batch (id + 1) ps)))),
    All-imp
        (λ q e.
          rw
            (is_executed-append q.name (rows_of a mgr batch (id + 1) ps)
              (row_of mgr batch id p ∷ []))
            (rw e refl))
        ps (rows_of-executed a mgr batch (id + 1) ps),
  )

  none_left :
      (db : Database S) (ms : List (Migration S)) → length ms == 0 ≡ true → AllExecuted ms db
  none_left db [] e = tt
  none_left db (m ∷ ms) e = absurd (ground arith)

  -- What has a row, or is pending and gets one, is executed.
  pending_executed :
      (executed : List (Text × MigrationRecord)) (regs : List (Migration S)) (db : Database S)
      → ((name : Text) → is_some (lookup name executed) ≡ true → is_executed name db.rows ≡ true)
      → AllExecuted (get_pending_migrations executed regs) db
      → AllExecuted regs db
  unfolding get_pending_migrations
  pending_executed executed [] db before now = tt
  pending_executed executed (reg ∷ regs) db before now =
      elim (Option-cases (lookup reg.name executed)) [
        | inl fresh ↦
            let (first, rest) = rw (fresh, get_pending_migrations) at now in
            (first, pending_executed executed regs db before rest)
        | inr (row, there) ↦ (
          before reg.name (rw there refl),
          pending_executed executed regs db before (rw (there, get_pending_migrations) at now),
        )
      ]

  -- The pending migrations have rows after a run, and no row is lost.
  pending_done :
      (a : Answers) (mgr : Manager S) (batch : ℕ) (db : Database S) (pending : List (Migration S))
      → (execute_pending_migrations a mgr batch (sort_pending mgr pending) db).0 ≡ none
      → AllExecuted pending (execute_pending_migrations a mgr batch (sort_pending mgr pending) db).1
  unfolding sort_pending
  pending_done a mgr batch db pending e =
      let sorted = sort_pending mgr pending in
      let rows = rows_of a mgr batch db.next_id sorted in
      rw (execute_pending_migrations-rows a mgr batch sorted db e) (
        All-perm (λ m. is_executed m.name (rows ++ db.rows) ≡ true) (mgr.sort_slice-perm _ pending)
          (All-imp (λ q e. rw (is_executed-append q.name rows db.rows) (rw e refl)) sorted
            (rows_of-executed a mgr batch db.next_id sorted)))

  older_stays :
      (a : Answers) (mgr : Manager S) (batch : ℕ) (db : Database S) (ps : List (Migration S))
      (name : Text)
      → (execute_pending_migrations a mgr batch ps db).0 ≡ none
      → is_executed name db.rows ≡ true
      → is_executed name (execute_pending_migrations a mgr batch ps db).1.rows ≡ true
  older_stays a mgr batch db ps name e there =
      let rows = rows_of a mgr batch db.next_id ps in
      rw (execute_pending_migrations-rows a mgr batch ps db e)
        (is_executed-append name rows db.rows ∙ rw there (if_same (is_executed name rows)))

  run_pending-AllExecuted :
      (a : Answers) (mgr : Manager S) (db : Database S)
      → (run_pending a mgr (executed_map db.rows) db).0 ≡ none
      → AllExecuted mgr.registered (run_pending a mgr (executed_map db.rows) db).1
  unfolding run_pending
  run_pending-AllExecuted a mgr db = at (validate_checksums mgr executed mgr.registered)
    where
      executed : List (Text × MigrationRecord)
      executed = executed_map db.rows

      pending : List (Migration S)
      pending = get_pending_migrations executed mgr.registered

      known :
          (name : Text) → is_some (lookup name executed) ≡ true → is_executed name db.rows ≡ true
      known name e = sym (executed_map-is_some name db.rows) ∙ e

      nothing : length pending == 0 ≡ true → AllExecuted pending db
      nothing e = none_left db pending e

      ran : Result S
      ran = execute_pending_migrations a mgr (get_next_batch a db) (sort_pending mgr pending) db

      ordered :
          (o : Option MigrationError)
          → (elim o as (λ _. Result S) [ some e ↦ (some e, db) | none ↦ ran ]).0 ≡ none
          → AllExecuted mgr.registered
              (elim o as (λ _. Result S) [ some e ↦ (some e, db) | none ↦ ran ]).1
      ordered (some x) e = absurd (some_is_not e)
      ordered none e =
          pending_executed executed mgr.registered ran.1
            (λ name there.
              older_stays a mgr (get_next_batch a db) db (sort_pending mgr pending) name e
                (known name there))
            (pending_done a mgr (get_next_batch a db) db pending e)

      idle :
          (b : Bool)
          → length pending == 0 ≡ b
          → (if b
              then (none, db)
              else (elim (validate_order mgr (sort_pending mgr pending) executed)
                  as (λ _. Result S) [ some e ↦ (some e, db) | none ↦ ran ])).0
            ≡ none
          → AllExecuted mgr.registered
              (if b
                then (none, db)
                else (elim (validate_order mgr (sort_pending mgr pending) executed)
                    as (λ _. Result S) [ some e ↦ (some e, db) | none ↦ ran ])).1
      idle true z e = pending_executed executed mgr.registered db known (nothing z)
      idle false z e = ordered (validate_order mgr (sort_pending mgr pending) executed) e

      whole : Result S
      whole =
          if length pending == 0
          then (none, db)
          else (elim (validate_order mgr (sort_pending mgr pending) executed) as (λ _. Result S) [
            | some e ↦ (some e, db)
            | none ↦ ran
          ])

      at :
          (o : Option MigrationError)
          → (elim o as (λ _. Result S) [ some e ↦ (some e, db) | none ↦ whole ]).0 ≡ none
          → AllExecuted mgr.registered
              (elim o as (λ _. Result S) [ some e ↦ (some e, db) | none ↦ whole ]).1
      at (some x) e = absurd (some_is_not e)
      at none e = idle (length pending == 0) refl e

  -- A migration that ends without an error, baseline or not, leaves every registered migration
  -- executed.
  pub migrate-AllExecuted :
      (a : Answers) (mgr : Manager S) (db : Database S)
      → (migrate a mgr db).0 ≡ none
      → AllExecuted mgr.registered (migrate a mgr db).1
  unfolding migrate Refreshed
  migrate-AllExecuted a mgr db = at (a.find 0)
    where
      ran :
          (r : Result S × List (Text × MigrationRecord))
          → Refreshed r
          → (elim r.0.0 as (λ _. Result S) [
            | some e ↦ (some e, r.0.1)
            | none ↦ run_pending a mgr r.1 r.0.1
          ]).0
            ≡ none
          → AllExecuted mgr.registered
              (elim r.0.0 as (λ _. Result S) [
                | some e ↦ (some e, r.0.1)
                | none ↦ run_pending a mgr r.1 r.0.1
              ]).1
      ran ((some x, db'), executed) fresh e = absurd (some_is_not e)
      ran ((none, db'), executed) fresh e =
          subst (λ m. AllExecuted mgr.registered (run_pending a mgr m db').1) (sym fresh)
            (run_pending-AllExecuted a mgr db'
              (subst (λ m. (run_pending a mgr m db').0 ≡ none) fresh e))

      next : Result S
      next =
          (let ((e, db'), executed) = apply_baseline_if_required a mgr (executed_map db.rows) db in
            elim e [ some e ↦ (some e, db') | none ↦ run_pending a mgr executed db' ])

      at :
          (o : Option Text)
          → (elim o as (λ _. Result S) [ some e ↦ (some (database_error e), db) | none ↦ next ]).0
            ≡ none
          → AllExecuted mgr.registered
              (elim o as (λ _. Result S) [ some e ↦ (some (database_error e), db) | none ↦ next ]).1
      at (some x) e = absurd (some_is_not e)
      at none e =
          ran (apply_baseline_if_required a mgr (executed_map db.rows) db)
            (apply_baseline_if_required-Refreshed a mgr db) e
