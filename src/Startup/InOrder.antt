-- ===== src/Startup/InOrder.antt =====
-- manager.go: startup jobs run by priority, all of them or up to a critical failure.
use springo.Base.{
  ◌≡◌, ◌⊎◌, ◌&&◌, lookup, text_key, true, false, List, [], ◌∷◌, ◌++◌, Option, none, some, Text,
  if◌then◌else◌,
}
use springo.Startup.{
  JobConf, JobEnd, returns, panics, JobFunc, StartupJob, critical_failed, Runner, Startup,
}

-- How a job's own function ended: the error or the panic that it left.
abbrev pub left_by : JobEnd → Option Text
left_by (returns e) = e
left_by (panics reason) = some reason

module _ {W : Type 0} where
  -- What a run of the job leaves, with the cluster's lock or without.
  abbrev pub ends_with : Runner W → StartupJob W → W → Option Text
  ends_with r job w =
      if job.conf.lock_enabled
      then (r.execute_with_lock job w).0
      else left_by (job.task_func (r.track job.name w)).0

  abbrev pub state_after : Runner W → StartupJob W → W → W
  state_after r job w =
      if job.conf.lock_enabled
      then (r.execute_with_lock job w).1
      else (job.task_func (r.track job.name w)).1

  -- The run of the jobs from a state: a critical job that fails is the last, and its failure is the
  -- error; after every other job the next one runs; and at the end there is no error.
  abbrev pub Runs : Runner W → List (StartupJob W) → W → Startup W → Type 0
  Runs r [] w s = s ≡ record { error = none; executed = []; state = w }
  Runs r (job ∷ jobs) w s =
      ((e : Text) × (job.conf.critical ≡ true)
        × (ends_with r job w ≡ some e)
        × (s ≡ record {
          error = some (critical_failed job.name e);
          executed = job ∷ [];
          state = state_after r job w;
        }))
      ⊎ (((job.conf.critical ≡ false) ⊎ (ends_with r job w ≡ none))
          × (rest : Startup W) × (s ≡ record rest { executed = job ∷ rest.executed })
          × Runs r jobs (state_after r job w) rest)

  -- A configured job with the function that is registered under its name, where it is to run at the
  -- start: it is enabled and marked, and there is such a function.
  abbrev pub found_for : Text → JobConf → Option (JobFunc W) → List (StartupJob W)
  found_for name conf none = []
  found_for name conf (some fn) =
      if conf.enabled && conf.run_on_startup
      then record { name = name; conf = conf; task_func = fn } ∷ []
      else []

  -- Those of a configuration that are to run at the start, each once.
  abbrev pub due : List (Text × JobFunc W) → List (Text × JobConf) → List (StartupJob W)
  due tasks [] = []
  due tasks ((name, conf) ∷ confs) = found_for name conf (lookup name tasks) ++ due tasks confs
