-- ===== src/Startup.antt =====
-- framework/scheduler/manager.go: the jobs that run when the application starts. A job acts on a
-- state `W`; executeWithLock, whose statements Locks models, is an argument.
pub mod InOrder
mod Tests
use mathlib.Core.List.{Permᴰ}
use springo.Base.{
  Bool, true, false, List, [], ◌∷◌, ◌++◌, Option, none, some, Text, text_key, lookup, insert,
  if◌then◌else◌, ◌&&◌, ◌||◌, not, ℤ, ltb_ℤ, Iteration, IsSorted, WeakOrder,
}

pub record JobConf : Type 0 where
  pub run_on_startup : Bool
  pub priority : ℤ
  pub critical : Bool
  pub enabled : Bool
  pub lock_enabled : Bool

pub record SchedulerProperties : Type 0 where
  pub enabled : Bool
  pub jobs : List (Text × JobConf)

-- How a job ends.
pub data JobEnd : Type 0 where
  returns : Option Text → JobEnd
  panics : Text → JobEnd

abbrev pub JobFunc : Type 0 → Type 0
JobFunc W = W → JobEnd × W

pub record StartupJob (W : Type 0) : Type 0 where
  pub name : Text
  pub conf : JobConf
  pub task_func : JobFunc W

pub data StartupError : Type 0 where
  critical_failed : Text → Text → StartupError

module _ {W : Type 0} where
  -- Register.
  unfoldable pub register_task :
      Text → JobFunc W → List (Text × JobFunc W) → List (Text × JobFunc W)
  register_task name fn tasks = insert name fn tasks

  unfoldable pub get_startup_job : List (Text × JobFunc W) → Text → JobConf → Option (StartupJob W)
  get_startup_job tasks name conf =
      if not conf.enabled || not conf.run_on_startup then none else (elim (lookup name tasks) [
        | none ↦ none
        | some fn ↦ some (record { name = name; conf = conf; task_func = fn })
      ])

  -- The loop of collectStartupJobs.
  unfoldable pub collect_startup_jobs :
      List (Text × JobFunc W) → List (Text × JobConf) → List (StartupJob W)
  unfolding get_startup_job
  collect_startup_jobs tasks [] = []
  collect_startup_jobs tasks ((name, conf) ∷ jobs) =
      let rest = collect_startup_jobs tasks jobs in
      elim (get_startup_job tasks name conf) [ some job ↦ job ∷ rest | none ↦ rest ]

  -- What sortStartupJobs compares.
  unfoldable pub by_priority : StartupJob W → StartupJob W → Bool
  by_priority a b = ltb_ℤ a.conf.priority b.conf.priority

  -- A panic is recovered to an error. `track` is trackExecution.
  unfoldable pub execute_with_recover : (Text → W → W) → Text → JobFunc W → W → Option Text × W
  execute_with_recover track name fn w =
      let (ends, w') = fn (track name w) in
      elim ends [ returns e ↦ (e, w') | panics reason ↦ (some reason, w') ]

-- What the scheduler is given: sort.Slice, which sorts by a weak order but keeps no order of equals,
-- the order of the configured jobs, and the ways a job is run.
pub record Runner (W : Type 0) : Type 0 where
  pub sort_slice : (StartupJob W → StartupJob W → Bool) → List (StartupJob W) → List (StartupJob W)
  pub sort_slice-perm :
      (less : StartupJob W → StartupJob W → Bool) (jobs : List (StartupJob W))
      → Permᴰ (sort_slice less jobs) jobs
  pub sort_slice-IsSorted :
      (less : StartupJob W → StartupJob W → Bool)
      → WeakOrder less
      → (jobs : List (StartupJob W)) → IsSorted less (sort_slice less jobs)
  pub jobs_order : Iteration (Text × JobConf)
  pub track : Text → W → W
  pub execute_with_lock : StartupJob W → W → Option Text × W

-- The error of RunStartupTasksE, the jobs that were run, and the state.
pub record Startup (W : Type 0) : Type 0 where
  pub error : Option StartupError
  pub executed : List (StartupJob W)
  pub state : W

module _ {W : Type 0} (r : Runner W) where
  unfoldable pub execute_job_by_config : StartupJob W → W → Option Text × W
  unfolding execute_with_recover
  execute_job_by_config job w =
      if job.conf.lock_enabled
      then r.execute_with_lock job w
      else execute_with_recover r.track job.name job.task_func w

  -- The loop of RunStartupTasksE.
  unfoldable pub run_jobs : List (StartupJob W) → W → Startup W
  unfolding execute_job_by_config
  run_jobs [] w = record { error = none; executed = []; state = w }
  run_jobs (job ∷ jobs) w =
      let (failure, w') = execute_job_by_config job w in
      let rest = run_jobs jobs w' in
      let on : Startup W = record rest { executed = job ∷ rest.executed } in
      elim failure [
        | none ↦ on
        | some e ↦
            if job.conf.critical
            then record {
              error = some (critical_failed job.name e);
              executed = job ∷ [];
              state = w';
            }
            else on
      ]

  unfoldable pub run_startup_tasks :
      Option SchedulerProperties → List (Text × JobFunc W) → W → Startup W
  unfolding collect_startup_jobs by_priority run_jobs
  run_startup_tasks none tasks w = record { error = none; executed = []; state = w }
  run_startup_tasks (some props) tasks w =
      if not props.enabled
      then record { error = none; executed = []; state = w }
      else run_jobs
          (r.sort_slice by_priority (collect_startup_jobs tasks (r.jobs_order.visit props.jobs))) w
