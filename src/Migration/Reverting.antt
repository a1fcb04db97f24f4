-- ===== src/Migration/Reverting.antt =====
-- migration_revert.go: Rollback, Reset and Refresh, between the acquisition of the lock and its
-- release.
use springo.Base.{
  ℕ, List, [], ◌∷◌, none, some, Text, ◌==◌, text_key, nat_key, lookup, insert, if◌then◌else◌,
  length,
}
use springo.Migration.Table.{
  changed, refused, Migration, MigrationRecord, Database, database_error, no_such_migration,
  no_down, Answers, Manager, executed_map, validate_checksums, get_pending_migrations,
  get_next_batch, get_migrations_to_revert,
}
use springo.Migration.Running.{Result, sort_pending, execute_pending_migrations}

-- Delete by the primary key.
unfoldable pub delete_row : ℕ → List MigrationRecord → List MigrationRecord
delete_row id [] = []
delete_row id (row ∷ rows) = if row.id == id then delete_row id rows else row ∷ delete_row id rows

module _ {S : Type 0} where
  -- The map of executeReversions: the last registration of a name stands.
  unfoldable pub registered_map :
      List (Text × Migration S) → List (Migration S) → List (Text × Migration S)
  registered_map regs [] = regs
  registered_map regs (m ∷ ms) = registered_map (insert m.name m regs) ms

  unfoldable pub revert_single_migration :
      Answers → List (Text × Migration S) → MigrationRecord → Database S → Result S
  unfolding delete_row
  revert_single_migration a regs row db = elim (lookup row.migration regs) [
    | none ↦ (some (no_such_migration row.migration), db)
    | some reg ↦ elim reg.down [
      | none ↦ (some (no_down reg.name), db)
      | some down ↦ elim (down db.schema) [
        | refused e ↦ (some (database_error e), db)
        | changed schema ↦ elim (a.delete row.migration) [
          | some e ↦ (some (database_error e), db)
          | none ↦ (none, record db { schema = schema; rows = delete_row row.id db.rows })
        ]
      ]
    ]
  ]

  -- The loop of executeReversions.
  unfoldable pub revert_all :
      Answers → List (Text × Migration S) → List MigrationRecord → Database S → Result S
  unfolding revert_single_migration
  revert_all a regs [] db = (none, db)
  revert_all a regs (row ∷ rows) db =
      let (e, db') = revert_single_migration a regs row db in
      elim e [ some e ↦ (some e, db') | none ↦ revert_all a regs rows db' ]

  unfoldable pub execute_reversions :
      Answers → Manager S → List MigrationRecord → Database S → Result S
  unfolding registered_map revert_all
  execute_reversions a mgr rows db = revert_all a (registered_map [] mgr.registered) rows db

  -- rollbackUnderLock; `query` counts its query.
  unfoldable pub rollback_under_lock : ℕ → Answers → Manager S → ℕ → Database S → Result S
  unfolding execute_reversions get_migrations_to_revert
  rollback_under_lock query a mgr steps db = elim (a.find query) [
    | some e ↦ (some (database_error e), db)
    | none ↦
        if length db.rows == 0
        then (none, db)
        else execute_reversions a mgr (get_migrations_to_revert db.rows steps) db
  ]

  unfoldable pub rollback : Answers → Manager S → ℕ → Database S → Result S
  unfolding rollback_under_lock
  rollback a mgr steps db = rollback_under_lock 0 a mgr steps db

  unfoldable pub reset : Answers → Manager S → Database S → Result S
  unfolding rollback_under_lock
  reset a mgr db = elim (a.find 0) [
    | some e ↦ (some (database_error e), db)
    | none ↦
        if length db.rows == 0 then (none, db) else rollback_under_lock 1 a mgr (length db.rows) db
  ]

  -- Refresh, after the reset.
  unfoldable pub run_again : Answers → Manager S → Database S → Result S
  unfolding executed_map validate_checksums get_pending_migrations get_next_batch
      execute_pending_migrations sort_pending
  run_again a mgr db = elim (a.find 2) [
    | some e ↦ (some (database_error e), db)
    | none ↦ elim (validate_checksums mgr (executed_map db.rows) mgr.registered) [
      | some e ↦ (some e, db)
      | none ↦
          (let pending = get_pending_migrations (executed_map db.rows) mgr.registered in
            if length pending == 0
            then (none, db)
            else execute_pending_migrations a mgr (get_next_batch a db) (sort_pending mgr pending)
                db)
    ]
  ]

  unfoldable pub refresh : Answers → Manager S → Database S → Result S
  unfolding rollback_under_lock run_again
  refresh a mgr db = elim (a.find 0) [
    | some e ↦ (some (database_error e), db)
    | none ↦
        if length db.rows == 0
        then run_again a mgr db
        else (let (e, db') = rollback_under_lock 1 a mgr (length db.rows) db in
            elim e [ some e ↦ (some e, db') | none ↦ run_again a mgr db' ])
  ]
