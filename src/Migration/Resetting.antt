-- ===== src/Migration/Resetting.antt =====
-- migration_revert.go: a reset leaves the control table empty.
use springo.Base.{
  ℕ, ◌≡◌, refl, sym, ap, inl, inr, Bool, true, false, List, [], ◌∷◌, Option, none, some, Text, ◌==◌,
  text_key, nat_key, ==_refl, lookup, any, if◌then◌else◌, Bool-cases, All, arith, length, take, ltb,
  subst, suc,
}
use springo.Base.Sorting.Laws.{All-imp}
use springo.Migration.Table.{
  Change, changed, refused, Migration, MigrationRecord, Database, database_error, no_such_migration,
  no_down, Answers, Manager, get_migrations_to_revert,
}
use springo.Migration.Running.{Result}
use springo.Migration.Reverting.{
  delete_row, revert_single_migration, revert_all, registered_map, execute_reversions,
  rollback_under_lock, reset,
}
use springo.Migration.Finished.{some_is_not}

-- Each row is one of those that are to be reverted.
abbrev Covered : List MigrationRecord → List MigrationRecord → Type 0
Covered targets rows = All (λ row. any (λ t. t.id == row.id) targets ≡ true) rows

Covered-delete_row :
    (target : MigrationRecord) (targets rows : List MigrationRecord)
    → Covered (target ∷ targets) rows
    → Covered targets (delete_row target.id rows)
unfolding delete_row
Covered-delete_row target targets [] h = tt
Covered-delete_row target targets (row ∷ rows) h = elim (Bool-cases (row.id == target.id)) [
  | inl same ↦ rw same (Covered-delete_row target targets rows h.1)
  | inr differs ↦ rw differs ((ground (arith, h.0)), Covered-delete_row target targets rows h.1)
]

Covered-self :
    (targets rows : List MigrationRecord)
    → Covered targets rows
    → (t : MigrationRecord) → Covered (t ∷ targets) rows
Covered-self targets rows h t = All-imp (λ row e. ground (arith, e)) rows h

Covered-refl : (rows : List MigrationRecord) → Covered rows rows
Covered-refl [] = tt
Covered-refl (row ∷ rows) =
    (rw (==_refl row.id) refl, Covered-self rows rows (Covered-refl rows) row)

Covered-nil : (rows : List MigrationRecord) → Covered [] rows → rows ≡ []
Covered-nil [] h = refl
Covered-nil (row ∷ rows) h = absurd (ground (arith, h.0))

take-length : (rows : List MigrationRecord) → take (length rows) rows ≡ rows
take-length [] = refl
take-length (row ∷ rows) = ap (λ l. row ∷ l) (take-length rows)

module _ {S : Type 0} (a : Answers) (regs : List (Text × Migration S)) where
  revert_single_migration-rows :
      (row : MigrationRecord) (db : Database S)
      → (revert_single_migration a regs row db).0 ≡ none
      → (revert_single_migration a regs row db).1.rows ≡ delete_row row.id db.rows
  unfolding revert_single_migration
  revert_single_migration-rows row db = named (lookup row.migration regs)
    where
      deleted : S → Option Text → Result S
      deleted schema o = elim o as (λ _. Result S) [
        | some e ↦ (some (database_error e), db)
        | none ↦ (none, record db { schema = schema; rows = delete_row row.id db.rows })
      ]

      undone : Change S → Result S
      undone c = elim c as (λ _. Result S) [
        | refused e ↦ (some (database_error e), db)
        | changed schema ↦ deleted schema (a.delete row.migration)
      ]

      downed : Migration S → Option (S → Change S) → Result S
      downed reg o = elim o as (λ _. Result S) [
        | none ↦ (some (no_down reg.name), db)
        | some down ↦ undone (down db.schema)
      ]

      at_delete :
          (schema : S) (o : Option Text)
          → (deleted schema o).0 ≡ none
          → (deleted schema o).1.rows ≡ delete_row row.id db.rows
      at_delete schema none e = refl
      at_delete schema (some x) e = absurd (some_is_not e)

      at_change :
          (c : Change S) → (undone c).0 ≡ none → (undone c).1.rows ≡ delete_row row.id db.rows
      at_change (refused x) e = absurd (some_is_not e)
      at_change (changed schema) e = at_delete schema (a.delete row.migration) e

      at_down :
          (reg : Migration S) (o : Option (S → Change S))
          → (downed reg o).0 ≡ none
          → (downed reg o).1.rows ≡ delete_row row.id db.rows
      at_down reg none e = absurd (some_is_not e)
      at_down reg (some down) e = at_change (down db.schema) e

      named :
          (o : Option (Migration S))
          → (elim o as (λ _. Result S) [
            | none ↦ (some (no_such_migration row.migration), db)
            | some reg ↦ downed reg reg.down
          ]).0
            ≡ none
          → (elim o as (λ _. Result S) [
            | none ↦ (some (no_such_migration row.migration), db)
            | some reg ↦ downed reg reg.down
          ]).1.rows
            ≡ delete_row row.id db.rows
      named none e = absurd (some_is_not e)
      named (some reg) e = at_down reg reg.down e

  revert_all-Covered :
      (targets : List MigrationRecord) (db : Database S)
      → Covered targets db.rows
      → (revert_all a regs targets db).0 ≡ none
      → (revert_all a regs targets db).1.rows ≡ []
  unfolding revert_all
  revert_all-Covered [] db h e = Covered-nil db.rows h
  revert_all-Covered (row ∷ targets) db h e =
      at (revert_single_migration a regs row db) (revert_single_migration-rows row db)
        (λ db' h' e'. revert_all-Covered targets db' h' e') e
    where
      next : Result S → Result S
      next r = elim r.0 as (λ _. Result S) [
        | some e ↦ (some e, r.1)
        | none ↦ revert_all a regs targets r.1
      ]

      at :
          (r : Result S)
          → (r.0 ≡ none → r.1.rows ≡ delete_row row.id db.rows)
          → ((db' : Database S)
              → Covered targets db'.rows
              → (revert_all a regs targets db').0 ≡ none
              → (revert_all a regs targets db').1.rows ≡ [])
          → (next r).0 ≡ none
          → (next r).1.rows ≡ []
      at (some x, db') rows ih e = absurd (some_is_not e)
      at (none, db') rows ih e =
          ih db'
            (subst (Covered targets) (sym (rows refl)) (Covered-delete_row row targets db.rows h)) e

ltb-zero : (n : ℕ) → ltb 0 (suc n) ≡ true
ltb-zero n = ground arith

length-zero : (rows : List MigrationRecord) → (length rows == 0) ≡ true → rows ≡ []
length-zero [] e = refl
length-zero (row ∷ rows) e = absurd (ground (arith, e))

get_migrations_to_revert-all :
    (rows : List MigrationRecord) → get_migrations_to_revert rows (length rows) ≡ rows
unfolding get_migrations_to_revert
get_migrations_to_revert-all [] = refl
get_migrations_to_revert-all (row ∷ rows) =
    rw (ltb-zero (length rows)) (ap (λ l. row ∷ l) (take-length rows))

module _ {S : Type 0} (a : Answers) (mgr : Manager S) where
  abbrev Empties : Result S → Type 0
  Empties r = r.0 ≡ none → r.1.rows ≡ []

  reverts_unless_empty :
      (db : Database S) (r : Result S) (b : Bool)
      → (length db.rows == 0) ≡ b
      → Empties r
      → Empties (if b then (none, db) else r)
  reverts_unless_empty db r true e empties ended = length-zero db.rows e
  reverts_unless_empty db r false e empties ended = empties ended

  unless_refused :
      (db : Database S) (r : Result S) (o : Option Text)
      → Empties r
      → Empties (elim o as (λ _. Result S) [ some e ↦ (some (database_error e), db) | none ↦ r ])
  unless_refused db r (some x) empties ended = absurd (some_is_not ended)
  unless_refused db r none empties ended = empties ended

  rollback_under_lock-rows :
      (db : Database S) → Empties (rollback_under_lock 1 a mgr (length db.rows) db)
  unfolding rollback_under_lock execute_reversions
  rollback_under_lock-rows db = unless_refused db _ (a.find 1) (
      reverts_unless_empty db _ (length db.rows == 0) refl (
        revert_all-Covered a (registered_map [] mgr.registered)
          (get_migrations_to_revert db.rows (length db.rows)) db
          (subst (λ l. Covered l db.rows) (sym (get_migrations_to_revert-all db.rows))
            (Covered-refl db.rows))))

  -- A reset that ends without an error leaves no row in the control table.
  pub reset-rows : (db : Database S) → (reset a mgr db).0 ≡ none → (reset a mgr db).1.rows ≡ []
  unfolding reset
  reset-rows db =
      unless_refused db _ (a.find 0)
        (reverts_unless_empty db _ (length db.rows == 0) refl (rollback_under_lock-rows db))
