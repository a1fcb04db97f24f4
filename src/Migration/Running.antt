-- ===== src/Migration/Running.antt =====
-- migrator.go: Migrate, between the acquisition
-- of the lock and its release. A transaction that fails leaves the database as it was.
use springo.Base.{
  ℕ, ◌+◌, List, [], ◌∷◌, Option, none, some, Text, ◌==◌, text_key, nat_key, any, if◌then◌else◌,
  ◌||◌, not, length,
}
use springo.Migration.Versions.{compare_migration_names, is_version_lte}
use springo.Migration.Table.{
  changed, refused, Migration, MigrationRecord, Database, MigrationError, database_error, Answers,
  MigrationProperties, Manager, compute_checksum, executed_map, validate_checksums,
  get_pending_migrations, validate_order, get_next_batch,
}

-- What an operation leaves: the database, and the error where there is one.
abbrev pub Result : Type 0 → Type 0
Result S = Option MigrationError × Database S

unfoldable pub get_baseline_version : MigrationProperties → Text
get_baseline_version props =
    if props.baseline_version == [] then 48 ∷ [] else props.baseline_version

module _ {S : Type 0} where
  -- Create on the control table: the name of a migration is unique in it.
  unfoldable pub create_record : Answers → Text → ℕ → Text → Database S → Result S
  create_record a name batch checksum db =
      let row : MigrationRecord = record {
        id = db.next_id;
        migration = name;
        batch = batch;
        checksum = checksum;
      } in
      if any (λ r. r.migration == name) db.rows
      then (some (database_error name), db)
      else elim (a.create name) [
        | some e ↦ (some (database_error e), db)
        | none ↦ (none, record db { rows = row ∷ db.rows; next_id = db.next_id + 1 })
      ]

  -- The loop of the transaction of applyBaselineIfRequired.
  unfoldable pub create_records : Answers → Manager S → List (Migration S) → Database S → Result S
  unfolding create_record compute_checksum
  create_records a mgr [] db = (none, db)
  create_records a mgr (b ∷ bs) db =
      let (e, db') = create_record a b.name 1 (compute_checksum mgr.sha256_hex b) db in
      elim e [ some e ↦ (some e, db') | none ↦ create_records a mgr bs db' ]

  -- The loop over the registered migrations of applyBaselineIfRequired.
  unfoldable pub up_to_version : Text → List (Migration S) → List (Migration S)
  up_to_version version [] = []
  up_to_version version (reg ∷ regs) =
      let rest = up_to_version version regs in
      if is_version_lte reg.name version then reg ∷ rest else rest

  -- applyBaselineIfRequired, with the map that it leaves.
  unfoldable pub apply_baseline_if_required :
      Answers
      → Manager S
      → List (Text × MigrationRecord)
      → Database S
      → Result S × List (Text × MigrationRecord)
  unfolding create_records up_to_version get_baseline_version executed_map
  apply_baseline_if_required a mgr executed db = elim mgr.props [
    | none ↦ ((none, db), executed)
    | some props ↦
        if not props.baseline_on_migrate || not (length executed == 0)
        then ((none, db), executed)
        else (let baseline = up_to_version (get_baseline_version props) mgr.registered in
            if length baseline == 0
            then ((none, db), executed)
            else (let (e, db') = create_records a mgr baseline db in
                elim e [
                  | some e ↦ ((some e, db), executed)
                  | none ↦ elim (a.find 1) [
                    | some e ↦ ((some (database_error e), db'), executed)
                    | none ↦ ((none, db'), executed_map db'.rows)
                  ]
                ]))
  ]

  -- The transaction of one migration; the database undoes what failed.
  unfoldable pub execute_migration : Answers → Manager S → ℕ → Migration S → Database S → Result S
  unfolding create_record compute_checksum
  execute_migration a mgr batch p db = elim (p.up db.schema) [
    | refused e ↦ (some (database_error e), db)
    | changed schema ↦
        (let (e, db') =
            create_record a p.name batch (compute_checksum mgr.sha256_hex p)
              (record db { schema = schema }) in
          elim e [ some e ↦ (some e, db) | none ↦ (none, db') ])
  ]

  unfoldable pub execute_pending_migrations :
      Answers → Manager S → ℕ → List (Migration S) → Database S → Result S
  unfolding execute_migration
  execute_pending_migrations a mgr batch [] db = (none, db)
  execute_pending_migrations a mgr batch (p ∷ ps) db =
      let (e, db') = execute_migration a mgr batch p db in
      elim e [ some e ↦ (some e, db') | none ↦ execute_pending_migrations a mgr batch ps db' ]

  -- The pending migrations, as sort.Slice leaves them.
  unfoldable pub sort_pending : Manager S → List (Migration S) → List (Migration S)
  sort_pending mgr pending = mgr.sort_slice (λ x y. compare_migration_names x.name y.name) pending

  -- Migrate, with the baseline applied.
  unfoldable pub run_pending :
      Answers → Manager S → List (Text × MigrationRecord) → Database S → Result S
  unfolding validate_checksums get_pending_migrations validate_order get_next_batch
      execute_pending_migrations sort_pending
  run_pending a mgr executed db = elim (validate_checksums mgr executed mgr.registered) [
    | some e ↦ (some e, db)
    | none ↦
        (let pending = get_pending_migrations executed mgr.registered in
          if length pending == 0
          then (none, db)
          else elim (validate_order mgr (sort_pending mgr pending) executed) [
            | some e ↦ (some e, db)
            | none ↦
                execute_pending_migrations a mgr (get_next_batch a db) (sort_pending mgr pending) db
          ])
  ]

  unfoldable pub migrate : Answers → Manager S → Database S → Result S
  unfolding apply_baseline_if_required run_pending executed_map
  migrate a mgr db = elim (a.find 0) [
    | some e ↦ (some (database_error e), db)
    | none ↦
        (let ((e, db'), executed) = apply_baseline_if_required a mgr (executed_map db.rows) db in
          elim e [ some e ↦ (some e, db') | none ↦ run_pending a mgr executed db' ])
  ]
