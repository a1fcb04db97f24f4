-- ===== src/Migration/Baseline.antt =====
-- migrator.go: what the baseline leaves.
use springo.Base.{
  ◌≡◌, refl, Bool, true, false, List, Option, none, some, Text, ◌==◌, text_key, nat_key,
  if◌then◌else◌, length, not, ◌||◌,
}
use springo.Migration.Table.{
  MigrationRecord, Database, database_error, MigrationProperties, Answers, Manager, executed_map,
}
use springo.Migration.Running.{
  Result, create_records, up_to_version, get_baseline_version, apply_baseline_if_required,
}

module _ {S : Type 0} where
  -- Where the baseline leaves no error, the map is that of the rows.
  unfoldable pub Refreshed : Result S × List (Text × MigrationRecord) → Type 0
  Refreshed ((some e, db), executed) = Unit
  Refreshed ((none, db), executed) = executed ≡ executed_map db.rows

  pub apply_baseline_if_required-Refreshed :
      (a : Answers) (mgr : Manager S) (db : Database S)
      → Refreshed (apply_baseline_if_required a mgr (executed_map db.rows) db)
  unfolding apply_baseline_if_required Refreshed
  apply_baseline_if_required-Refreshed a mgr db = at mgr.props
    where
      read :
          (db' : Database S) (o : Option Text)
          → Refreshed (elim o as (λ _. Result S × List (Text × MigrationRecord)) [
            | some e ↦ ((some (database_error e), db'), executed_map db.rows)
            | none ↦ ((none, db'), executed_map db'.rows)
          ])
      read db' none = refl
      read db' (some e) = tt

      created :
          (r : Result S)
          → Refreshed (elim r.0 as (λ _. Result S × List (Text × MigrationRecord)) [
            | some e ↦ ((some e, db), executed_map db.rows)
            | none ↦ elim (a.find 1) [
              | some e ↦ ((some (database_error e), r.1), executed_map db.rows)
              | none ↦ ((none, r.1), executed_map r.1.rows)
            ]
          ])
      created (some e, db') = tt
      created (none, db') = read db' (a.find 1)

      some_baseline :
          (props : MigrationProperties) (b : Bool)
          → Refreshed (
              if b
              then ((none, db), executed_map db.rows)
              else (let (e, db') =
                    create_records a mgr
                      (up_to_version (get_baseline_version props) mgr.registered)
                      db in
                  elim e [
                    | some e ↦ ((some e, db), executed_map db.rows)
                    | none ↦ elim (a.find 1) [
                      | some e ↦ ((some (database_error e), db'), executed_map db.rows)
                      | none ↦ ((none, db'), executed_map db'.rows)
                    ]
                  ]))
      some_baseline props true = refl
      some_baseline props false =
          created
            (create_records a mgr (up_to_version (get_baseline_version props) mgr.registered) db)

      wanted :
          (props : MigrationProperties) (b : Bool)
          → Refreshed (
              if b
              then ((none, db), executed_map db.rows)
              else (let baseline = up_to_version (get_baseline_version props) mgr.registered in
                  if length baseline == 0
                  then ((none, db), executed_map db.rows)
                  else (let (e, db') = create_records a mgr baseline db in
                      elim e [
                        | some e ↦ ((some e, db), executed_map db.rows)
                        | none ↦ elim (a.find 1) [
                          | some e ↦ ((some (database_error e), db'), executed_map db.rows)
                          | none ↦ ((none, db'), executed_map db'.rows)
                        ]
                      ])))
      wanted props true = refl
      wanted props false =
          some_baseline props
            (length (up_to_version (get_baseline_version props) mgr.registered) == 0)

      at :
          (o : Option MigrationProperties)
          → Refreshed (elim o as (λ _. Result S × List (Text × MigrationRecord)) [
            | none ↦ ((none, db), executed_map db.rows)
            | some props ↦
                if not props.baseline_on_migrate || not (length (executed_map db.rows) == 0)
                then ((none, db), executed_map db.rows)
                else (let baseline = up_to_version (get_baseline_version props) mgr.registered in
                    if length baseline == 0
                    then ((none, db), executed_map db.rows)
                    else (let (e, db') = create_records a mgr baseline db in
                        elim e [
                          | some e ↦ ((some e, db), executed_map db.rows)
                          | none ↦ elim (a.find 1) [
                            | some e ↦ ((some (database_error e), db'), executed_map db.rows)
                            | none ↦ ((none, db'), executed_map db'.rows)
                          ]
                        ]))
          ])
      at none = refl
      at (some props) =
          wanted props (not props.baseline_on_migrate || not (length (executed_map db.rows) == 0))
