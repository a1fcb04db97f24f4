-- ===== src/Migration/Again.antt =====
-- migrator.go: where all that is registered is executed, a migration does nothing.
use springo.Base.{
  ◌≡◌, refl, ap, ◌∙◌, inl, inr, Bool, true, false, List, [], ◌∷◌, Option, none, some, Text, ◌==◌,
  text_key, nat_key, lookup, insert, if◌then◌else◌, Bool-cases, Option-cases, All, length, arith,
  not, ◌||◌,
}
use springo.Migration.Table.{
  Migration, MigrationRecord, Database, MigrationError, database_error, MigrationProperties,
  Answers, Manager, executed_map, validate_checksums, get_pending_migrations, validate_order,
  get_next_batch,
}
use springo.Migration.Running.{
  Result, create_records, up_to_version, get_baseline_version, execute_pending_migrations,
  sort_pending, run_pending, apply_baseline_if_required, migrate,
}
use springo.Migration.Finished.{is_executed, executed_map-is_some, AllExecuted, migrate-AllExecuted}

length-insert_ne :
    (name : Text) (row : MigrationRecord) (es : List (Text × MigrationRecord))
    → length (insert name row es) == 0 ≡ false
unfolding insert
length-insert_ne name row [] = refl
length-insert_ne name row ((k, r) ∷ es) = ground arith

module _ {S : Type 0} where
  no_baseline :
      (version : Text) (db : Database S) (ms : List (Migration S))
      → length (executed_map db.rows) == 0 ≡ true
      → AllExecuted ms db
      → up_to_version version ms ≡ []
  no_baseline version db ms e h = at db.rows e ms h
    where
      at :
          (rows : List MigrationRecord)
          → length (executed_map rows) == 0 ≡ true
          → (ms : List (Migration S)) → All (λ m. is_executed m.name rows ≡ true) ms
          → up_to_version version ms ≡ []
      at rows e [] h = unfold up_to_version in refl
      at [] e (m ∷ ms) h = absurd (ground arith)
      at (row ∷ rows) e (m ∷ ms) h = absurd (
          unfold executed_map in
          ground (arith, length-insert_ne row.migration row (executed_map rows)))

  none_pending :
      (db : Database S) (ms : List (Migration S))
      → AllExecuted ms db
      → get_pending_migrations (executed_map db.rows) ms ≡ []
  unfolding get_pending_migrations
  none_pending db [] h = refl
  none_pending db (m ∷ ms) h = elim (Option-cases (lookup m.name (executed_map db.rows))) [
    | inl fresh ↦ absurd (ground (arith, rw fresh at (executed_map-is_some m.name db.rows), h.0))
    | inr (row, there) ↦ rw (there, get_pending_migrations) (none_pending db ms h.1)
  ]

  run_pending-idle :
      (a : Answers) (mgr : Manager S) (db : Database S)
      → AllExecuted mgr.registered db
      → (run_pending a mgr (executed_map db.rows) db).1 ≡ db
  unfolding run_pending
  run_pending-idle a mgr db h = at (validate_checksums mgr executed mgr.registered)
    where
      executed : List (Text × MigrationRecord)
      executed = executed_map db.rows

      ran : List (Migration S) → Result S
      ran pending =
          if length pending == 0
          then (none, db)
          else (elim (validate_order mgr (sort_pending mgr pending) executed) as (λ _. Result S) [
            | some e ↦ (some e, db)
            | none ↦
                execute_pending_migrations a mgr (get_next_batch a db) (sort_pending mgr pending) db
          ])

      idle : (pending : List (Migration S)) → pending ≡ [] → (ran pending).1 ≡ db
      idle [] e = refl
      idle (p ∷ ps) e = absurd (ground arith)

      at :
          (o : Option MigrationError)
          → (elim o as (λ _. Result S) [
            | some e ↦ (some e, db)
            | none ↦ ran (get_pending_migrations executed mgr.registered)
          ]).1
            ≡ db
      at (some x) = refl
      at none =
          idle (get_pending_migrations executed mgr.registered) (none_pending db mgr.registered h)

  -- No baseline is applied, and the database and the map stay as they are.
  baseline-idle :
      (a : Answers) (mgr : Manager S) (db : Database S)
      → AllExecuted mgr.registered db
      → apply_baseline_if_required a mgr (executed_map db.rows) db
        ≡ ((none, db), executed_map db.rows)
  unfolding apply_baseline_if_required
  baseline-idle a mgr db h = at mgr.props
    where
      Kept : Type 0
      Kept = Result S × List (Text × MigrationRecord)

      stays : Kept
      stays = ((none, db), executed_map db.rows)

      create : List (Migration S) → Kept
      create baseline =
          if length baseline == 0
          then ((none, db), executed_map db.rows)
          else (let (e, db') = create_records a mgr baseline db in
              elim e as (λ _. Kept) [
                | some e ↦ ((some e, db), executed_map db.rows)
                | none ↦ elim (a.find 1) as (λ _. Kept) [
                  | some e ↦ ((some (database_error e), db'), executed_map db.rows)
                  | none ↦ ((none, db'), executed_map db'.rows)
                ]
              ])

      empty : (bs : List (Migration S)) → bs ≡ [] → create bs ≡ ((none, db), executed_map db.rows)
      empty [] e = refl
      empty (b ∷ bs) e = absurd (ground arith)

      at :
          (o : Option MigrationProperties)
          → (elim o as (λ _. Kept) [
            | none ↦ ((none, db), executed_map db.rows)
            | some props ↦
                if not props.baseline_on_migrate || not (length (executed_map db.rows) == 0)
                then ((none, db), executed_map db.rows)
                else create (up_to_version (get_baseline_version props) mgr.registered)
          ])
            ≡ ((none, db), executed_map db.rows)
      at none = refl
      at (some props) = elim (Bool-cases (length (executed_map db.rows) == 0)) [
        | inl bare ↦
            rw
              (empty (up_to_version (get_baseline_version props) mgr.registered)
                (no_baseline (get_baseline_version props) db mgr.registered bare h))
              (if_kept (not props.baseline_on_migrate || not (length (executed_map db.rows) == 0)))
        | inr rows ↦ rw rows (or_kept props.baseline_on_migrate)
      ]
        where
          if_kept : (b : Bool) → (if b then stays else stays) ≡ stays
          if_kept true = refl
          if_kept false = refl

          or_kept :
              (b : Bool)
              → (if not b || true
                  then stays
                  else create (up_to_version (get_baseline_version props) mgr.registered))
                ≡ stays
          or_kept true = refl
          or_kept false = refl

  migrate-idle :
      (a : Answers) (mgr : Manager S) (db : Database S)
      → AllExecuted mgr.registered db
      → (migrate a mgr db).1 ≡ db
  unfolding migrate
  migrate-idle a mgr db h = at (a.find 0)
    where
      next : Result S × List (Text × MigrationRecord) → Result S
      next r = elim r.0.0 as (λ _. Result S) [
        | some e ↦ (some e, r.0.1)
        | none ↦ run_pending a mgr r.1 r.0.1
      ]

      at :
          (o : Option Text)
          → (elim o as (λ _. Result S) [
            | some e ↦ (some (database_error e), db)
            | none ↦ next (apply_baseline_if_required a mgr (executed_map db.rows) db)
          ]).1
            ≡ db
      at (some e) = refl
      at none = ap (λ r. (next r).1) (baseline-idle a mgr db h) ∙ run_pending-idle a mgr db h

  -- After a migration that ends without an error, another one leaves the database as it is, whatever
  -- its statements answer: nothing is executed twice.
  pub migrate-again :
      (a a' : Answers) (mgr : Manager S) (db : Database S)
      → (migrate a mgr db).0 ≡ none
      → (migrate a' mgr (migrate a mgr db).1).1 ≡ (migrate a mgr db).1
  migrate-again a a' mgr db e =
      migrate-idle a' mgr (migrate a mgr db).1 (migrate-AllExecuted a mgr db e)
