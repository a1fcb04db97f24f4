-- ===== src/Migration/Undo.antt =====
-- migrator.go and migration_revert.go: rolling back the last batch undoes the migration that made it.
use springo.Base.{
  ℕ, ◌+◌, ◌<◌, ◌≡◌, refl, ap, ◌∙◌, inl, inr, List, [], ◌∷◌, ◌++◌, none, some, Text, text_key,
  nat_key, ==_refl, ==_ne, lookup, All, arith,
}
use springo.Base.Sorting.Laws.{All-imp}
use springo.Migration.Table.{
  Change, changed, Migration, MigrationRecord, Database, Answers, Manager,
}
use springo.Migration.Running.{Result, execute_pending_migrations}
use springo.Migration.Reverting.{delete_row, revert_single_migration, revert_all}
use springo.Migration.Finished.{some_is_not}
use springo.Migration.Complete.{
  row_of, recorded, rows_of, execute_migration-cases, after_failure, after_success,
}

-- The ids of the rows have been given out.
abbrev pub IdsBelow : ℕ → List MigrationRecord → Type 0
IdsBelow n rows = All (λ row. row.id < n) rows

delete_row-absent :
    (id : ℕ) (rows : List MigrationRecord) → IdsBelow id rows → delete_row id rows ≡ rows
unfolding delete_row
delete_row-absent id [] h = refl
delete_row-absent id (row ∷ rows) h =
    rw (==_ne row.id id (λ e. ground (arith, h.0)))
      (ap (λ l. row ∷ l) (delete_row-absent id rows h.1))

module _ {S : Type 0} where
  -- The registered migration of the name undoes `p`.
  abbrev pub Undoes : List (Text × Migration S) → Migration S → Type 0
  Undoes regs p =
      (reg : Migration S) × (down : S → Change S) × (lookup p.name regs ≡ some reg)
      × (reg.down ≡ some down)
      × ((s s' : S) → p.up s ≡ changed s' → down s' ≡ changed s)

  module _ (a : Answers) (regs : List (Text × Migration S)) where
    -- The reversions that follow another one.
    abbrev follow : List MigrationRecord → Result S → Result S
    follow rows r = elim r.0 as (λ _. Result S) [
      | some e ↦ (some e, r.1)
      | none ↦ revert_all a regs rows r.1
    ]

    revert_all-append :
        (rows more : List MigrationRecord) (db : Database S)
        → revert_all a regs (rows ++ more) db ≡ follow more (revert_all a regs rows db)
    unfolding revert_all
    revert_all-append [] more db = refl
    revert_all-append (row ∷ rows) more db =
        at (revert_single_migration a regs row db) (λ db'. revert_all-append rows more db')
      where
        at :
            (r : Result S)
            → ((db' : Database S)
                → revert_all a regs (rows ++ more) db' ≡ follow more (revert_all a regs rows db'))
            → follow (rows ++ more) r ≡ follow more (follow rows r)
        at (some e, db') ih = refl
        at (none, db') ih = ih db'

    module _ (mgr : Manager S) (batch : ℕ) (deletes : (name : Text) → a.delete name ≡ none) where
      revert_one :
          (p : Migration S) (s : S) (db : Database S) (next : ℕ)
          → Undoes regs p
          → IdsBelow db.next_id db.rows
          → p.up db.schema ≡ changed s
          → revert_single_migration a regs
              (row_of mgr batch db.next_id p)
              (record (recorded mgr batch p s db) { next_id = next })
            ≡ (none, record db { next_id = next })
      unfolding revert_single_migration delete_row
      revert_one p s db next (reg, down, found, has, undoes) below does =
          rw (found, revert_single_migration)
            (rw (has, revert_single_migration)
              (rw (undoes db.schema s does, revert_single_migration)
                (rw (deletes p.name, revert_single_migration)
                  (rw (==_refl db.next_id)
                    (rw (delete_row-absent db.next_id db.rows below) refl)))))

      pub revert_all-rows_of :
          (a0 : Answers) (ps : List (Migration S)) (db : Database S) (next : ℕ)
          → (execute_pending_migrations a0 mgr batch ps db).0 ≡ none
          → IdsBelow db.next_id db.rows
          → All (Undoes regs) ps
          → revert_all a regs
              (rows_of a0 mgr batch db.next_id ps)
              (record (execute_pending_migrations a0 mgr batch ps db).1 { next_id = next })
            ≡ (none, record db { next_id = next })
      unfolding execute_pending_migrations revert_all
      revert_all-rows_of a0 [] db next e below undoes = refl
      revert_all-rows_of a0 (p ∷ ps) db next e below undoes =
          elim (execute_migration-cases a0 mgr batch p db) [
            | inl (x, fails) ↦
                absurd (some_is_not (rw (after_failure a0 mgr batch p ps db x fails) at e))
            | inr (s, changes, does) ↦
                let db1 = recorded mgr batch p s db in
                let step = after_success a0 mgr batch p ps db db1 does in
                let older : IdsBelow (db.next_id + 1) db.rows =
                  All-imp (λ row h. ground arith) db.rows below in
                let rest =
                  revert_all-rows_of a0 ps db1 next (rw step at e) (ground arith, older) undoes.1 in
                rw step (
                  revert_all-append (rows_of a0 mgr batch (db.next_id + 1) ps)
                    (row_of mgr batch db.next_id p ∷ []) _
                  ∙ ap (follow (row_of mgr batch db.next_id p ∷ [])) rest
                  ∙ ap (follow []) (revert_one p s db next undoes.0 below changes))
          ]
