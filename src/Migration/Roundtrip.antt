-- ===== src/Migration/Roundtrip.antt =====
-- migrator.go and migration_revert.go: a rollback after a migration.
use springo.Base.{
  ℕ, ◌+◌, ◌≡◌, ◌≢◌, refl, sym, ap, ◌∙◌, inl, inr, Bool, true, false, List, [], ◌∷◌, ◌++◌, Option,
  none, some, Text, ◌==◌, text_key, nat_key, ==_refl, ==_ne, lookup, if◌then◌else◌, Option-cases,
  All, All-perm, All-append, length, length-append, arith, subst, max,
}
use mathlib.Core.List.Permᴰ
use mathlib.Core.List.{append-nil}
use springo.Migration.Table.{
  Migration, MigrationRecord, Database, MigrationError, database_error, Answers, Manager,
  executed_map, validate_checksums, get_pending_migrations, validate_order, get_next_batch,
  last_rows, last_batch_of, get_migrations_to_revert,
}
use springo.Migration.Running.{
  Result, sort_pending, run_pending, apply_baseline_if_required, migrate,
  execute_pending_migrations,
}
use springo.Migration.Reverting.{
  registered_map, revert_all, execute_reversions, rollback_under_lock, rollback,
}
use springo.Migration.Finished.{some_is_not}
use springo.Migration.Complete.{rows_of, execute_pending_migrations-rows}
use springo.Migration.Undo.{IdsBelow, Undoes, revert_all-rows_of}

last_rows-append :
    (batch : ℕ) (rows older : List MigrationRecord)
    → All (λ row. row.batch ≡ batch) rows
    → last_rows batch (rows ++ older) ≡ rows ++ last_rows batch older
unfolding last_rows
last_rows-append batch [] older h = refl
last_rows-append batch (row ∷ rows) older h =
    let same : row.batch == batch ≡ true = ap (λ b. b == batch) h.0 ∙ ==_refl batch in
    rw same (ap (λ l. row ∷ l) (last_rows-append batch rows older h.1))

-- The next batch is above those of the rows.
last_rows-fresh : (rows : List MigrationRecord) → last_rows (last_batch_of rows + 1) rows ≡ []
unfolding last_rows last_batch_of
last_rows-fresh [] = refl
last_rows-fresh (row ∷ rows) =
    rw (==_ne row.batch (max row.batch (last_batch_of rows) + 1) (λ e. ground arith)) refl

get_migrations_to_revert-batch :
    (batch : ℕ) (rows older : List MigrationRecord)
    → All (λ row. row.batch ≡ batch) rows
    → last_rows batch older ≡ []
    → rows ≢ []
    → get_migrations_to_revert (rows ++ older) 0 ≡ rows
unfolding get_migrations_to_revert
get_migrations_to_revert-batch batch [] older h fresh some_row = absurd (some_row refl)
get_migrations_to_revert-batch batch (row ∷ rows) older h fresh some_row =
    ap (λ b. last_rows b (row ∷ rows ++ older)) h.0
    ∙ last_rows-append batch (row ∷ rows) older h
    ∙ ap (λ l. row ∷ rows ++ l) fresh
    ∙ append-nil (row ∷ rows)

append_ne_nil : (rows older : List MigrationRecord) → rows ≢ [] → rows ++ older ≢ []
append_ne_nil [] older some_row e = some_row refl
append_ne_nil (row ∷ rows) older some_row e = absurd (ground (arith, ap length e))

module _ {S : Type 0} where
  rows_of-batch :
      (a : Answers) (mgr : Manager S) (batch id : ℕ) (ps : List (Migration S))
      → All (λ row. row.batch ≡ batch) (rows_of a mgr batch id ps)
  rows_of-batch a mgr batch id [] = tt
  rows_of-batch a mgr batch id (p ∷ ps) =
      All-append (λ row. row.batch ≡ batch) (rows_of a mgr batch (id + 1) ps) _
        (rows_of-batch a mgr batch (id + 1) ps) (refl, tt)

  length-rows_of :
      (a : Answers) (mgr : Manager S) (batch id : ℕ) (ps : List (Migration S))
      → length (rows_of a mgr batch id ps) ≡ length ps
  length-rows_of a mgr batch id [] = refl
  length-rows_of a mgr batch id (p ∷ ps) =
      length-append (rows_of a mgr batch (id + 1) ps) _
      ∙ omega (arith, length-rows_of a mgr batch (id + 1) ps)

  sort_pending-ne_nil :
      (mgr : Manager S) (pending : List (Migration S))
      → length pending == 0 ≡ false
      → sort_pending mgr pending ≢ []
  unfolding sort_pending
  sort_pending-ne_nil mgr [] z e = ground arith
  sort_pending-ne_nil mgr (p ∷ ps) z e =
      (All-perm (λ _. ⊥) (mgr.sort_slice-perm _ (p ∷ ps)) (subst (All (λ _. ⊥)) (sym e) tt)).0

  pending-All :
      (P : Migration S → Type 0) (executed : List (Text × MigrationRecord))
      (ms : List (Migration S))
      → All P ms
      → All P (get_pending_migrations executed ms)
  unfolding get_pending_migrations
  pending-All P executed [] h = tt
  pending-All P executed (m ∷ ms) h = elim (Option-cases (lookup m.name executed)) [
    | inl fresh ↦ rw (fresh, get_pending_migrations) (h.0, pending-All P executed ms h.1)
    | inr (row, there) ↦ rw (there, get_pending_migrations) (pending-All P executed ms h.1)
  ]

  -- A run that succeeds has executed what is pending.
  run_pending-runs :
      (a : Answers) (mgr : Manager S) (executed : List (Text × MigrationRecord)) (db : Database S)
      → length (get_pending_migrations executed mgr.registered) == 0 ≡ false
      → (run_pending a mgr executed db).0 ≡ none
      → run_pending a mgr executed db
        ≡ execute_pending_migrations a mgr
            (get_next_batch a db)
            (sort_pending mgr (get_pending_migrations executed mgr.registered))
            db
  unfolding run_pending
  run_pending-runs a mgr executed db some_pending =
      valid (validate_checksums mgr executed mgr.registered)
    where
      pending : List (Migration S)
      pending = get_pending_migrations executed mgr.registered

      ran : Result S
      ran = execute_pending_migrations a mgr (get_next_batch a db) (sort_pending mgr pending) db

      ordered :
          (o : Option MigrationError)
          → (elim o as (λ _. Result S) [ some e ↦ (some e, db) | none ↦ ran ]).0 ≡ none
          → (elim o as (λ _. Result S) [ some e ↦ (some e, db) | none ↦ ran ]) ≡ ran
      ordered (some e) fails = absurd (some_is_not fails)
      ordered none done = refl

      whole : Bool → Result S
      whole b =
          if b
          then (none, db)
          else (elim (validate_order mgr (sort_pending mgr pending) executed) as (λ _. Result S) [
            | some e ↦ (some e, db)
            | none ↦ ran
          ])

      started : (b : Bool) → b ≡ false → (whole b).0 ≡ none → whole b ≡ ran
      started true e done = absurd (ground arith)
      started false e done = ordered (validate_order mgr (sort_pending mgr pending) executed) done

      valid :
          (o : Option MigrationError)
          → (elim o as (λ _. Result S) [
            | some e ↦ (some e, db)
            | none ↦ whole (length pending == 0)
          ]).0
            ≡ none
          → (elim o as (λ _. Result S) [
            | some e ↦ (some e, db)
            | none ↦ whole (length pending == 0)
          ])
            ≡ ran
      valid (some e) fails = absurd (some_is_not fails)
      valid none done = started (length pending == 0) some_pending done

  -- The same for Migrate, where no baseline is applied.
  migrate-runs :
      (a : Answers) (mgr : Manager S) (db : Database S)
      → apply_baseline_if_required a mgr (executed_map db.rows) db
        ≡ ((none, db), executed_map db.rows)
      → length (get_pending_migrations (executed_map db.rows) mgr.registered) == 0 ≡ false
      → (migrate a mgr db).0 ≡ none
      → migrate a mgr db
        ≡ execute_pending_migrations a mgr
            (get_next_batch a db)
            (sort_pending mgr (get_pending_migrations (executed_map db.rows) mgr.registered))
            db
  unfolding migrate
  migrate-runs a mgr db base some_pending = at (a.find 0)
    where
      ran : Result S
      ran =
          execute_pending_migrations a mgr (get_next_batch a db)
            (sort_pending mgr (get_pending_migrations (executed_map db.rows) mgr.registered)) db

      next : Result S × List (Text × MigrationRecord) → Result S
      next r = elim r.0.0 as (λ _. Result S) [
        | some e ↦ (some e, r.0.1)
        | none ↦ run_pending a mgr r.1 r.0.1
      ]

      start : Option Text → Result S
      start o = elim o as (λ _. Result S) [
        | some e ↦ (some (database_error e), db)
        | none ↦ next (apply_baseline_if_required a mgr (executed_map db.rows) db)
      ]

      at : (o : Option Text) → (start o).0 ≡ none → start o ≡ ran
      at (some e) fails = absurd (some_is_not fails)
      at none done =
          ap next base
          ∙ run_pending-runs a mgr (executed_map db.rows) db some_pending
              (sym (ap (λ r. (next r).0) base) ∙ done)

  rows_of-ne_nil :
      (a : Answers) (mgr : Manager S) (batch id : ℕ) (ps : List (Migration S))
      → ps ≢ []
      → rows_of a mgr batch id ps ≢ []
  rows_of-ne_nil a mgr batch id [] some_p e = some_p refl
  rows_of-ne_nil a mgr batch id (p ∷ ps) some_p e =
      let same = length-rows_of a mgr batch id (p ∷ ps) in absurd (ground (arith, ap length e))

  rollback-batch :
      (a : Answers) (mgr : Manager S) (db : Database S) (rows : List MigrationRecord) (r : Result S)
      → a.find 0 ≡ none
      → db.rows ≢ []
      → get_migrations_to_revert db.rows 0 ≡ rows
      → revert_all a (registered_map [] mgr.registered) rows db ≡ r
      → rollback a mgr 0 db ≡ r
  unfolding rollback rollback_under_lock execute_reversions
  rollback-batch a mgr db rows r found = at (a.find 0) found db.rows
    where
      at :
          (o : Option Text)
          → o ≡ none
          → (rs : List MigrationRecord) → rs ≢ []
          → get_migrations_to_revert rs 0 ≡ rows
          → revert_all a (registered_map [] mgr.registered) rows db ≡ r
          → (elim o as (λ _. Result S) [
            | some e ↦ (some (database_error e), db)
            | none ↦
                if length rs == 0
                then (none, db)
                else revert_all a
                    (registered_map [] mgr.registered)
                    (get_migrations_to_revert rs 0)
                    db
          ])
            ≡ r
      at (some e) f rs some_row last reverts = absurd (ground arith)
      at none f [] some_row last reverts = absurd (some_row refl)
      at none f (row ∷ rs) some_row last reverts =
          rw (==_ne (length (row ∷ rs)) 0 (λ e. ground arith))
            (ap (λ l. revert_all a (registered_map [] mgr.registered) l db) last ∙ reverts)

  -- A migration that ends without an error, having executed something and applied no baseline, and a
  -- rollback of the last batch after it, whose statements are all done: the schema and the rows are
  -- those before, where each registered migration has a Down that undoes its Up. Only the ids that
  -- were given out stay given out.
  pub rollback-migrate :
      (a a' : Answers) (mgr : Manager S) (db : Database S)
      → apply_baseline_if_required a mgr (executed_map db.rows) db
        ≡ ((none, db), executed_map db.rows)
      → length (get_pending_migrations (executed_map db.rows) mgr.registered) == 0 ≡ false
      → (migrate a mgr db).0 ≡ none
      → a.last_batch ≡ true
      → a'.find 0 ≡ none
      → ((name : Text) → a'.delete name ≡ none)
      → IdsBelow db.next_id db.rows
      → All (Undoes (registered_map [] mgr.registered)) mgr.registered
      → rollback a' mgr 0 (migrate a mgr db).1
        ≡ (none, record db { next_id = (migrate a mgr db).1.next_id })
  unfolding get_next_batch sort_pending
  rollback-migrate a a' mgr db base some_pending done batches finds deletes below undoes =
      let regs = registered_map [] mgr.registered in
      let pending = get_pending_migrations (executed_map db.rows) mgr.registered in
      let sorted = sort_pending mgr pending in
      let batch = get_next_batch a db in
      let runs = migrate-runs a mgr db base some_pending done in
      let rows = rows_of a mgr batch db.next_id sorted in
      let ok : (execute_pending_migrations a mgr batch sorted db).0 ≡ none =
        sym (ap (λ r. r.0) runs) ∙ done in
      let fresh : last_rows batch db.rows ≡ [] = rw batches (last_rows-fresh db.rows) in
      let each : All (Undoes regs) sorted =
        All-perm (Undoes regs) (Permᴰ.symm (mgr.sort_slice-perm _ pending))
          (pending-All (Undoes regs) (executed_map db.rows) mgr.registered undoes) in
      let some_row =
        rows_of-ne_nil a mgr batch db.next_id sorted
          (sort_pending-ne_nil mgr pending some_pending) in
      let split = execute_pending_migrations-rows a mgr batch sorted db ok in
      let last =
        get_migrations_to_revert-batch batch rows db.rows
          (rows_of-batch a mgr batch db.next_id sorted) fresh some_row in
      rw runs (
        rollback-batch a' mgr (execute_pending_migrations a mgr batch sorted db).1 rows _ finds
          (λ e. append_ne_nil rows db.rows some_row (sym split ∙ e))
          (ap (λ l. get_migrations_to_revert l 0) split ∙ last)
          (revert_all-rows_of a' regs mgr batch deletes a sorted db _ ok below each))
