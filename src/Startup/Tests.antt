-- ===== src/Startup/Tests.antt =====
-- Three jobs that leave their marks, one of which fails.
use springo.Base.{
  ℕ, ◌≡◌, refl, Bool, true, false, List, [], ◌∷◌, none, some, Text, text_key, codes, executable,
  pos, in_order, sort_stable, sort_stable-perm,
}
use springo.Base.Sorting.Laws.{sort_stable-IsSorted}
use springo.Startup.{
  JobConf, SchedulerProperties, returns, panics, JobFunc, critical_failed, collect_startup_jobs,
  by_priority, Runner, run_startup_tasks,
}

program : Unit {0}
unfolding executable collect_startup_jobs by_priority run_startup_tasks
program = tt

abbrev World : Type 0
World = List ℕ

abbrev runner : Runner World
runner = record {
  sort_slice = sort_stable;
  sort_slice-perm = sort_stable-perm;
  sort_slice-IsSorted = λ less law jobs. sort_stable-IsSorted less law jobs;
  jobs_order = in_order;
  track = λ name w. w;
  execute_with_lock = λ job w. (none, w);
}

abbrev conf : ℕ → Bool → JobConf
conf priority critical = record {
  run_on_startup = true;
  priority = pos priority;
  critical = critical;
  enabled = true;
  lock_enabled = false;
}

abbrev props : SchedulerProperties
props = record {
  enabled = true;
  jobs =
      (codes "late", conf 9 false)
      ∷ (codes "first", conf 1 false)
      ∷ (codes "second", conf 2 true)
      ∷ [];
}

abbrev tasks : List (Text × JobFunc World)
tasks =
    (codes "first", λ w. (returns (some (codes "e")), 1 ∷ w))
    ∷ (codes "second", λ w. (panics (codes "p"), 2 ∷ w))
    ∷ (codes "late", λ w. (returns none, 3 ∷ w))
    ∷ []

stops_at_second : (run_startup_tasks runner (some props) tasks []).state ≡ 2 ∷ 1 ∷ []
unfolding program
stops_at_second = refl

reports :
    (run_startup_tasks runner (some props) tasks []).error
    ≡ some (critical_failed (codes "second") (codes "p"))
unfolding program
reports = refl
