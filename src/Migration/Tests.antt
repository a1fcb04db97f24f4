-- ===== src/Migration/Tests.antt =====
-- Two migrations of a number, one executed before; the theorems applied to them, and names compared.
use springo.Base.{
  ℕ, ◌+◌, ◌-◌, ◌≡◌, refl, true, List, [], ◌∷◌, ◌++◌, none, some, Text, text_key, codes, in_order,
  executable, ◌&&◌, arith, sort_stable, sort_stable-perm,
}
use springo.Migration.Versions.{compare_migration_names, is_version_lte}
use springo.Migration.Table.{changed, refused, Migration, Database, Answers, Manager}
use springo.Migration.Running.{execute_pending_migrations, migrate}
use springo.Migration.Reverting.{registered_map, rollback, reset}
use springo.Migration.Resetting.{reset-rows}
use springo.Migration.Complete.{execute_pending_migrations-prefix}
use springo.Migration.Finished.{AllExecuted, migrate-AllExecuted}
use springo.Migration.Again.{migrate-again}
use springo.Migration.Roundtrip.{rollback-migrate}
use springo.Migration.Order.{compare_migration_names_trans}

program : Unit {0}
unfolding executable compare_migration_names migrate rollback reset registered_map is_version_lte
    execute_pending_migrations
program = tt

numeric : compare_migration_names (codes "v2_users") (codes "v10_roles") ≡ true
unfolding program
numeric = refl

shorter_first : compare_migration_names (codes "1.2") (codes "1.2.1") ≡ true
unfolding program
shorter_first = refl

-- A cycle of names with and without a version.
cycle :
    (compare_migration_names (codes "v1_init") (codes "20240101_users")
      && compare_migration_names (codes "20240101_users") (codes "create_posts")
      && compare_migration_names (codes "create_posts") (codes "v1_init"))
    ≡ true
unfolding program
cycle = refl

compare_migration_names_trans_example :
    compare_migration_names (codes "v2_users") (codes "v11") ≡ true
unfolding program
compare_migration_names_trans_example =
    compare_migration_names_trans (codes "v2_users") (codes "v10_roles") (codes "v11")
      (codes "2", refl) (codes "10", refl) (codes "11", refl) refl refl

abbrev adds : Text → ℕ → Migration ℕ
adds name n = record {
  name = name;
  up = λ s. changed (s + n);
  down = some (λ s. changed (s - n));
  checksum = [];
}

abbrev manager : Manager ℕ
manager = record {
  registered = adds (codes "v2") 5 ∷ adds (codes "v10") 7 ∷ adds (codes "v1") 3 ∷ [];
  props = none;
  names_order = in_order;
  sort_slice = sort_stable;
  sort_slice-perm = sort_stable-perm;
  sha256_hex = λ s. s;
}

abbrev works : Answers
works = record { find = λ n. none; create = λ n. none; delete = λ n. none; last_batch = true }

abbrev database : Database ℕ
database = record {
  schema = 3;
  rows = record { id = 1; migration = codes "v1"; batch = 1; checksum = codes "v1" } ∷ [];
  next_id = 2;
}

migrates : (migrate works manager database).1.schema ≡ 15
unfolding program
migrates = refl

migrate-AllExecuted_example : AllExecuted manager.registered (migrate works manager database).1
unfolding program
migrate-AllExecuted_example = migrate-AllExecuted works manager database refl

migrate-again_example :
    (migrate works manager (migrate works manager database).1).1
    ≡ (migrate works manager database).1
unfolding program
migrate-again_example = migrate-again works works manager database refl

-- The third migration fails, and the second stays.
abbrev breaks : Migration ℕ
breaks = record { name = codes "v3"; up = λ s. refused (codes "no"); down = none; checksum = [] }

abbrev three : List (Migration ℕ)
three = adds (codes "v2") 5 ∷ breaks ∷ adds (codes "v4") 1 ∷ []

execute_pending_migrations-prefix_example :
    (first : List (Migration ℕ)) × (rest : List (Migration ℕ)) × (first ++ rest ≡ three)
    × (execute_pending_migrations works manager 2 first database
        ≡ (none, (execute_pending_migrations works manager 2 three database).1))
execute_pending_migrations-prefix_example =
    execute_pending_migrations-prefix works manager 2 three database

stops : (execute_pending_migrations works manager 2 three database).1.schema ≡ 8
unfolding program
stops = refl

add_sub_cancel : (n s s' : ℕ) → changed (s + n) ≡ changed s' → changed (s' - n) ≡ changed s
add_sub_cancel n s s' e = ground arith

rollback-migrate_example :
    rollback works manager 0 (migrate works manager database).1
    ≡ (none, record database { next_id = (migrate works manager database).1.next_id })
unfolding program
rollback-migrate_example =
    rollback-migrate works works manager database refl refl refl refl refl (λ name. refl)
      (ground arith, tt)
      (
        (adds (codes "v2") 5, (λ s. changed (s - 5)), refl, refl, add_sub_cancel 5),
        (
          (adds (codes "v10") 7, (λ s. changed (s - 7)), refl, refl, add_sub_cancel 7),
          ((adds (codes "v1") 3, (λ s. changed (s - 3)), refl, refl, add_sub_cancel 3), tt),
        ),
      )

reset-rows_example : (reset works manager (migrate works manager database).1).1.rows ≡ []
unfolding program
reset-rows_example = reset-rows works manager (migrate works manager database).1 refl
