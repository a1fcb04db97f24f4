-- ===== src/Migration/Complete.antt =====
-- migrator.go: what a run of pending migrations leaves in the database, where it succeeds and where
-- it stops.
use springo.Base.{
  ℕ, ◌+◌, ◌≡◌, ◌≢◌, refl, sym, ap, ◌∙◌, ◌⊎◌, inl, inr, List, [], ◌∷◌, ◌++◌, none, some, Text, ◌==◌,
  text_key, any, Bool-cases, Option-cases, arith,
}
use mathlib.Core.List.{append_assoc}
use springo.Migration.Table.{
  Change, changed, refused, Migration, MigrationRecord, Database, MigrationError, database_error,
  Answers, Manager, compute_checksum,
}
use springo.Migration.Running.{Result, create_record, execute_migration, execute_pending_migrations}

-- The row of a migration.
abbrev pub row_of : {S : Type 0} → Manager S → ℕ → ℕ → Migration S → MigrationRecord
row_of mgr batch id p = record {
  id = id;
  migration = p.name;
  batch = batch;
  checksum = compute_checksum mgr.sha256_hex p;
}

-- The database after a migration.
abbrev pub recorded : {S : Type 0} → Manager S → ℕ → Migration S → S → Database S → Database S
recorded mgr batch p schema db = record {
  schema = schema;
  rows = row_of mgr batch db.next_id p ∷ db.rows;
  next_id = db.next_id + 1;
}

module _ {S : Type 0} (a : Answers) (mgr : Manager S) (batch : ℕ) where
  some_ne_none : {e : MigrationError} → some e ≢ none
  some_ne_none e = ground arith

  create_record-cases :
      (name checksum : Text) (db : Database S)
      → ((e : MigrationError) × (create_record a name batch checksum db ≡ (some e, db)))
        ⊎ (create_record a name batch checksum db ≡ (
          none,
          record db {
            rows =
                record { id = db.next_id; migration = name; batch = batch; checksum = checksum }
                ∷ db.rows;
            next_id = db.next_id + 1;
          },
        ))
  unfolding create_record
  create_record-cases name checksum db =
      elim (Bool-cases (any (λ r. r.migration == name) db.rows)) [
        | inl there ↦ inl (database_error name, rw there refl)
        | inr absent ↦ elim (Option-cases (a.create name)) [
          | inl created ↦ inr (rw (absent, created) refl)
          | inr (e, fails) ↦ inl (database_error e, rw (absent, fails) refl)
        ]
      ]

  Change-cases : (c : Change S) → ((e : Text) × (c ≡ refused e)) ⊎ ((s : S) × (c ≡ changed s))
  Change-cases (refused e) = inl (e, refl)
  Change-cases (changed s) = inr (s, refl)

  -- The end of the transaction.
  abbrev finish : Database S → Result S → Result S
  finish db r = elim r.0 as (λ _. Result S) [ some e ↦ (some e, db) | none ↦ (none, r.1) ]

  -- A migration is done whole, or fails and leaves the database as it was.
  pub execute_migration-cases :
      (p : Migration S) (db : Database S)
      → ((e : MigrationError) × (execute_migration a mgr batch p db ≡ (some e, db)))
        ⊎ ((s : S) × (p.up db.schema ≡ changed s)
            × (execute_migration a mgr batch p db ≡ (none, recorded mgr batch p s db)))
  unfolding execute_migration
  execute_migration-cases p db = elim (Change-cases (p.up db.schema)) [
    | inl (e, fails) ↦ inl (database_error e, rw (fails, execute_migration) refl)
    | inr (s, changes) ↦
        elim (create_record-cases p.name (compute_checksum mgr.sha256_hex p)
          (record db { schema = s })) [
            | inl (e, fails) ↦ inl (e, rw (changes, execute_migration) (ap (finish db) fails))
            | inr creates ↦
                inr (s, changes, rw (changes, execute_migration) (ap (finish db) creates))
          ]
  ]

  -- The rest of the loop, after a migration.
  abbrev next : List (Migration S) → Result S → Result S
  next ps r = elim r.0 as (λ _. Result S) [
    | some e ↦ (some e, r.1)
    | none ↦ execute_pending_migrations a mgr batch ps r.1
  ]

  pub after_failure :
      (p : Migration S) (ps : List (Migration S)) (db : Database S) (e : MigrationError)
      → execute_migration a mgr batch p db ≡ (some e, db)
      → execute_pending_migrations a mgr batch (p ∷ ps) db ≡ (some e, db)
  unfolding execute_pending_migrations
  after_failure p ps db e fails = ap (next ps) fails

  pub after_success :
      (p : Migration S) (ps : List (Migration S)) (db db1 : Database S)
      → execute_migration a mgr batch p db ≡ (none, db1)
      → execute_pending_migrations a mgr batch (p ∷ ps) db
        ≡ execute_pending_migrations a mgr batch ps db1
  unfolding execute_pending_migrations
  after_success p ps db db1 does = ap (next ps) does

  -- A run that stops has done a first part of the migrations as if there were no others: the one that
  -- failed left nothing in the database, neither its change nor its row.
  pub execute_pending_migrations-prefix :
      (ps : List (Migration S)) (db : Database S)
      → (first : List (Migration S)) × (rest : List (Migration S)) × (first ++ rest ≡ ps)
        × (execute_pending_migrations a mgr batch first db
            ≡ (none, (execute_pending_migrations a mgr batch ps db).1))
  unfolding execute_pending_migrations
  execute_pending_migrations-prefix [] db = ([], [], refl, refl)
  execute_pending_migrations-prefix (p ∷ ps) db = elim (execute_migration-cases p db) [
    | inl (e, fails) ↦ ([], p ∷ ps, refl, sym (rw (after_failure p ps db e fails) refl))
    | inr (s, changes, does) ↦
        let (first, rest, splits, same) =
          execute_pending_migrations-prefix ps (recorded mgr batch p s db) in
        (
          p ∷ first,
          rest,
          ap (λ l. p ∷ l) splits,
          after_success p first db _ does ∙ rw (after_success p ps db _ does) same,
        )
  ]

  -- The rows of the migrations that are done, newest first.
  abbrev pub rows_of : ℕ → List (Migration S) → List MigrationRecord
  rows_of id [] = []
  rows_of id (p ∷ ps) = rows_of (id + 1) ps ++ row_of mgr batch id p ∷ []

  pub execute_pending_migrations-rows :
      (ps : List (Migration S)) (db : Database S)
      → (execute_pending_migrations a mgr batch ps db).0 ≡ none
      → (execute_pending_migrations a mgr batch ps db).1.rows ≡ rows_of db.next_id ps ++ db.rows
  unfolding execute_pending_migrations
  execute_pending_migrations-rows [] db e = refl
  execute_pending_migrations-rows (p ∷ ps) db e = elim (execute_migration-cases p db) [
    | inl (x, fails) ↦ absurd (some_ne_none (rw (after_failure p ps db x fails) at e))
    | inr (s, changes, does) ↦ rw (after_success p ps db _ does) (
        execute_pending_migrations-rows ps (recorded mgr batch p s db)
          (rw (after_success p ps db _ does) at e)
        ∙ sym (append_assoc (rows_of (db.next_id + 1) ps) _ db.rows))
  ]
