-- ===== src/Locks/Tests.antt =====
-- Two instances race for a lock of 100 at most: the first works under it, the second gives up.
use springo.Base.{executable, pick, ◌+◌, ◌≤◌, ◌≡◌, refl, ◌⊎◌, true, List, [], ◌∷◌, codes, arith}
use springo.Locks.{
  Event, ticks, begins, executes, after_read, create_row, update_expired_lock,
  calculate_release_time, release_shed_lock, begin, execute, step, run, lock_record,
  parse_lock_durations, parse_duration_with_fallback,
}
use springo.Locks.Release.{calculate_release_time_bounds}
use springo.Locks.Exclusion.{count_active, AloneAlong, empty, run-exclusive}

program : Unit {0}
unfolding executable pick after_read create_row update_expired_lock calculate_release_time
    release_shed_lock begin execute step run lock_record parse_lock_durations
    parse_duration_with_fallback
program = tt

abbrev race : List Event
race =
    begins (codes "a") (100, 10)
    ∷ begins (codes "b") (100, 10)
    ∷ executes true 1
    ∷ executes true 0
    ∷ executes true 1
    ∷ ticks 1
    ∷ []

race-alone : AloneAlong race (empty 5)
unfolding program
race-alone = (tt, ((ground arith, tt), (tt, (tt, (tt, (tt, tt))))))

run-exclusive_example : count_active (run race (empty 5)).clock (run race (empty 5)).attempts ≤ 1
run-exclusive_example = run-exclusive race 5 race-alone

calculate_release_time_bounds_example :
    (20 + 10 ≤ calculate_release_time 25 20 10)
    × (25 ≤ calculate_release_time 25 20 10)
    × ((calculate_release_time 25 20 10 ≡ 20 + 10) ⊎ (calculate_release_time 25 20 10 ≡ 25))
calculate_release_time_bounds_example = calculate_release_time_bounds 25 20 10

-- The first to begin creates the row and works; the second finds it, and gives up.
race-runs : count_active (run race (empty 5)).clock (run race (empty 5)).attempts ≡ 1
unfolding program
race-runs = refl
