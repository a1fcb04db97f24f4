-- ===== src/Migration/Table.antt =====
-- migrator.go and migration_revert.go: the control table, and what is read from it. `S` is what the
-- migrations change, the database without its control table.
use springo.Base.{
  ℕ, ◌+◌, Bool, false, List, [], ◌∷◌, ◌++◌, Option, none, some, Text, ◌==◌, text_key, nat_key, ltb,
  lookup, insert, if◌then◌else◌, ◌&&◌, ◌||◌, not, take, Iteration, length, max,
}
use mathlib.Core.List.{Permᴰ}
use springo.Migration.Versions.{compare_migration_names}

-- What a function on the database leaves in its transaction.
pub data Change (S : Type 0) : Type 0 where
  changed : S → Change S
  refused : Text → Change S

pub record Migration (S : Type 0) : Type 0 where
  pub name : Text
  pub up : S → Change S
  pub down : Option (S → Change S)
  pub checksum : Text

pub record MigrationRecord : Type 0 where
  pub id : ℕ
  pub migration : Text
  pub batch : ℕ
  pub checksum : Text

-- The rows newest first, which is the order of the ids descending.
pub record Database (S : Type 0) : Type 0 where
  pub schema : S
  pub rows : List MigrationRecord
  pub next_id : ℕ

pub data MigrationError : Type 0 where
  database_error out_of_order no_such_migration no_down : Text → MigrationError
  integrity_violation : Text → Text → Text → MigrationError

-- How the database answers the statements on the control table: each may fail. The queries of the
-- executed migrations are counted from 0 in one operation.
pub record Answers : Type 0 where
  pub find : ℕ → Option Text
  pub create : Text → Option Text
  pub delete : Text → Option Text
  pub last_batch : Bool

pub record MigrationProperties : Type 0 where
  pub baseline_on_migrate : Bool
  pub baseline_version : Text
  pub out_of_order : Bool

-- What the manager is given: the properties where there are any, the order in which `range` visits a
-- map, sort.Slice, and the hexadecimal SHA-256 sum.
pub record Manager (S : Type 0) : Type 0 where
  pub registered : List (Migration S)
  pub props : Option MigrationProperties
  pub names_order : Iteration (Text × MigrationRecord)
  pub sort_slice : (Migration S → Migration S → Bool) → List (Migration S) → List (Migration S)
  pub sort_slice-perm :
      (less : Migration S → Migration S → Bool) (ms : List (Migration S))
      → Permᴰ (sort_slice less ms) ms
  pub sha256_hex : Text → Text

-- The map of getExecutedMigrationsMap.
unfoldable pub executed_map : List MigrationRecord → List (Text × MigrationRecord)
executed_map [] = []
executed_map (row ∷ rows) = insert row.migration row (executed_map rows)

-- The loop of findLatestExecutedMigration; no name is the empty text.
unfoldable pub latest_of : Text → List (Text × MigrationRecord) → Text
latest_of latest [] = latest
latest_of latest ((name, row) ∷ entries) =
    latest_of (if (latest == []) || compare_migration_names latest name then name else latest)
      entries

-- The greatest batch; a query that fails is as an empty table.
unfoldable pub last_batch_of : List MigrationRecord → ℕ
last_batch_of [] = 0
last_batch_of (row ∷ rows) = max row.batch (last_batch_of rows)

-- The rows of the last batch, while they stand together.
unfoldable pub last_rows : ℕ → List MigrationRecord → List MigrationRecord
last_rows batch [] = []
last_rows batch (row ∷ rows) =
    let rest = last_rows batch rows in if row.batch == batch then row ∷ rest else []

-- `steps` is an int that is zero where it is not positive.
unfoldable pub get_migrations_to_revert : List MigrationRecord → ℕ → List MigrationRecord
unfolding last_rows
get_migrations_to_revert executed steps =
    if ltb 0 steps
    then take steps executed
    else elim executed [ [] ↦ [] | row ∷ rows ↦ last_rows row.batch (row ∷ rows) ]

module _ {S : Type 0} where
  unfoldable pub compute_checksum : (Text → Text) → Migration S → Text
  compute_checksum sha256_hex m = if m.checksum == [] then sha256_hex m.name else m.checksum

  -- RegisterMigration.
  unfoldable pub register_migration : Migration S → Manager S → Manager S
  register_migration m mgr = record mgr { registered = mgr.registered ++ m ∷ [] }

  unfoldable pub violates :
      Manager S → List (Text × MigrationRecord) → Migration S → Option MigrationError
  unfolding compute_checksum
  violates mgr executed reg = elim (lookup reg.name executed) [
    | none ↦ none
    | some row ↦
        let expected = compute_checksum mgr.sha256_hex reg in
        if not (reg.checksum == []) && not (row.checksum == []) && not (expected == row.checksum)
        then some (integrity_violation reg.name expected row.checksum)
        else none
  ]

  -- The loop of validateChecksums.
  unfoldable pub validate_checksums :
      Manager S → List (Text × MigrationRecord) → List (Migration S) → Option MigrationError
  unfolding violates
  validate_checksums mgr executed [] = none
  validate_checksums mgr executed (reg ∷ regs) =
      let rest = validate_checksums mgr executed regs in
      elim (violates mgr executed reg) [ some e ↦ some e | none ↦ rest ]

  -- The loop of getPendingMigrations.
  unfoldable pub get_pending_migrations :
      List (Text × MigrationRecord) → List (Migration S) → List (Migration S)
  get_pending_migrations executed [] = []
  get_pending_migrations executed (reg ∷ regs) =
      let rest = get_pending_migrations executed regs in
      elim (lookup reg.name executed) [ some _ ↦ rest | none ↦ reg ∷ rest ]

  unfoldable pub find_latest_executed_migration : Manager S → List (Text × MigrationRecord) → Text
  unfolding latest_of
  find_latest_executed_migration mgr executed = latest_of [] (mgr.names_order.visit executed)

  -- The loop of validateOrder.
  unfoldable pub first_before : Text → List (Migration S) → Option MigrationError
  first_before latest [] = none
  first_before latest (p ∷ ps) =
      let rest = first_before latest ps in
      if compare_migration_names p.name latest then some (out_of_order p.name) else rest

  unfoldable pub validate_order :
      Manager S → List (Migration S) → List (Text × MigrationRecord) → Option MigrationError
  unfolding find_latest_executed_migration first_before
  validate_order mgr pending executed =
      let allowed : Bool = elim mgr.props [ some props ↦ props.out_of_order | none ↦ false ] in
      if allowed || (length executed == 0) || (length pending == 0)
      then none
      else (let latest = find_latest_executed_migration mgr executed in
          if latest == [] then none else first_before latest pending)

  unfoldable pub get_next_batch : Answers → Database S → ℕ
  unfolding last_batch_of
  get_next_batch a db = if a.last_batch then last_batch_of db.rows + 1 else 1
