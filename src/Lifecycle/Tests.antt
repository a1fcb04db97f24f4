-- ===== src/Lifecycle/Tests.antt =====
-- The hooks of lifecycle_test.go in small: each hook logs its number, and some fail.
use springo.Base.{
  executable, ℕ, ◌≡◌, refl, List, [], ◌∷◌, ◌++◌, some, codes, Text, text_key, arith, false, lookup,
  ℤ, pos, negsuc, in_order, backwards, sort_stable,
}
use mathlib.Core.List.{reverse}
use springo.Lifecycle.{
  Registration, Registry, Registries, Hook, Outcome, succeeds, fails, panics, register, recovered,
  run, run_from, join, new_registry, run_initializers, run_ready, run_shutdown, snapshot, ascending,
  backup_registrations, invoke,
}
use springo.Lifecycle.Registering.{IsWellFormed, register-IsWellFormed}
use springo.Lifecycle.Order.{run_forward-iteration, run_shutdown-reverse}
use springo.Lifecycle.Running.{run-fail_fast, run-collects, failures, effects, FailsFast}
use springo.Lifecycle.Backup.{backup_registrations-restores}

abbrev log : ℕ → Outcome → Hook (Unit {0}) (List ℕ)
log n outcome ctx w = (outcome, w ++ n ∷ [])

abbrev hook : Text → ℤ → ℕ → Outcome → Registration (Unit {0}) (List ℕ)
hook name order n outcome = record { name = name; order = order; hook = log n outcome }

abbrev three : Registry (Unit {0}) (List ℕ)
three =
    (codes "db", hook (codes "db") (pos 10) 1 succeeds)
    ∷ (codes "cache", hook (codes "cache") (pos 10) 2 (panics (codes "boom")))
    ∷ (codes "log", hook (codes "log") (negsuc 4) 3 succeeds)
    ∷ []

program : Unit {0}
unfolding executable run_initializers run_ready run_shutdown run run_from invoke register
    new_registry
program = tt

three-IsWellFormed : IsWellFormed three
three-IsWellFormed = record { unique = ground arith; filed = ground arith }

-- log (-5), then cache and db (10, by name); the panic stops the initializers.
run_initializers-three : run_initializers in_order tt three [] ≡ (
  some (record { hook_name = codes "cache"; cause = recovered (codes "boom") } ∷ []),
  3 ∷ 2 ∷ [],
)
unfolding program
run_initializers-three = refl

run_shutdown-three : (run_shutdown backwards tt three []).1 ≡ 1 ∷ 2 ∷ 3 ∷ []
unfolding program
run_shutdown-three = refl

register-IsWellFormed_example : IsWellFormed ((codes "a", hook (codes "a") (pos 1) 7 succeeds) ∷ [])
unfolding program
register-IsWellFormed_example =
    register-IsWellFormed (codes "a") (pos 1) (some (log 7 succeeds)) [] _
      (record { unique = tt; filed = tt }) refl

run_forward-iteration_example :
    (run_initializers in_order tt three [] ≡ run_initializers backwards tt three [])
    × (run_ready in_order tt three [] ≡ run_ready backwards tt three [])
run_forward-iteration_example =
    run_forward-iteration in_order backwards tt three [] three-IsWellFormed

run_shutdown-reverse_example :
    run_shutdown backwards tt three []
    ≡ run tt (reverse (sort_stable ascending (snapshot in_order three))) false []
run_shutdown-reverse_example =
    run_shutdown-reverse backwards in_order tt three [] three-IsWellFormed

items : List (Registration (Unit {0}) (List ℕ))
items = hook (codes "a") (pos 1) 1 succeeds ∷ hook (codes "b") (pos 2) 2 (fails (codes "no")) ∷ []

run-fail_fast_example : FailsFast tt items []
run-fail_fast_example = run-fail_fast tt items []

run-collects_example : run tt items false [] ≡ (join (failures tt items []), effects tt items [])
run-collects_example = run-collects tt items []

all_three : Registries (Unit {0}) (List ℕ)
all_three = record { initializers = three; ready_hooks = []; shutdown_hooks = three }

backup_registrations-restores_example :
    let (cleared, restore) = backup_registrations backwards all_three in
    (cleared ≡ record { initializers = []; ready_hooks = []; shutdown_hooks = [] })
    × (lookup (codes "db") (restore cleared).initializers ≡ lookup (codes "db") three)
    × (lookup (codes "db") (restore cleared).ready_hooks ≡ lookup (codes "db") [])
    × (lookup (codes "db") (restore cleared).shutdown_hooks ≡ lookup (codes "db") three)
unfolding all_three
backup_registrations-restores_example =
    backup_registrations-restores backwards all_three (backup_registrations backwards all_three).0
      (codes "db") three-IsWellFormed (record { unique = tt; filed = tt }) three-IsWellFormed
