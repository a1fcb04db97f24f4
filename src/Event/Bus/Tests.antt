-- ===== src/Event/Bus/Tests.antt =====
-- A pool of one worker under each rejection policy, with an outbox event of two handlers.
use springo.Base.{
  pick, executable, ℕ, ◌≡◌, ◌⊎◌, refl, true, false, List, [], ◌∷◌, none, some, Text, arith, codes,
  nat_key, lookup, pos,
}
use springo.Event.Retry.{calculate_next_retry, pending, processed}
use springo.Event.Bus.Defs.{
  Task, Settings, Bus, Answers, init, policy_of, complete_outbox_event, count_down, finish_listener,
  handle_failure, after_listener, count_discarded, live, discard,
}
use springo.Event.Bus.Steps.{
  Action, starts, dispatches, advances, takes, worker_ends, step, run, is_accepting, is_closed,
  start_worker_pool, dispatch, dispatch_to_handler, dispatch_with_pool, dispatch_accepting_pool,
  advance, step_take, is_between, all_between, is_empty, unlink, refuse, close_queue,
  return_stopped,
}
use springo.Event.Bus.Shutdown.{Safe, run-Safe}
use springo.Event.Bus.Counters.{tally, outstanding, count_tasks, count_publishers, Accounted}
use springo.Event.Bus.Outstanding.{run-Accounted}
use springo.Event.Bus.Completion.{EndsLast, step-completes_last}

abbrev settings : Settings
settings = record {
  outbox_enabled = true;
  cleanup = false;
  dlq = record { enabled = true; max_retries = 3; retry_intervals = some 10 ∷ [] };
  has_db = true;
}

abbrev task : ℕ → Task
task id = record {
  event_name = codes "Created";
  payload = codes "{}";
  listener = codes "Created#0";
  trace_id = [];
  outbox_id = id;
}

abbrev a : Answers
a = record { outbox_write = true; dlq_write = true; now = 1000; new_id = 1 }

abbrev pool : Text → Action
pool policy =
    starts 4
      (record { enabled = true; pool_size = 1; queue_capacity = 1; rejection_policy = policy })

-- One handler is running, the other is discarded at the full queue; a third event fills it.
abbrev busy : List (Answers × Action)
busy =
    (a, pool (codes "discard"))
    ∷ (a, dispatches 7 (some (task 7 ∷ task 7 ∷ [])))
    ∷ (a, advances 0)
    ∷ (a, advances 0)
    ∷ (a, advances 0)
    ∷ (a, takes)
    ∷ (a, dispatches 0 (some (task 0 ∷ [])))
    ∷ (a, advances 0)
    ∷ (a, advances 0)
    ∷ (a, advances 0)
    ∷ (a, advances 1)
    ∷ (a, advances 0)
    ∷ (a, advances 0)
    ∷ []

program : Unit {0}
unfolding executable init policy_of complete_outbox_event count_down finish_listener handle_failure
    after_listener count_discarded run step pick is_accepting is_closed start_worker_pool dispatch
    dispatch_to_handler dispatch_with_pool dispatch_accepting_pool advance step_take is_between
    all_between is_empty unlink refuse close_queue return_stopped count_tasks count_publishers
    calculate_next_retry
program = tt

after_busy : Bus
unfolding program
after_busy = run busy (init settings)

busy_discards : (after_busy.discarded ≡ 1) × (lookup 7 after_busy.counters ≡ some (pos 1))
unfolding program after_busy
busy_discards = (refl, refl)

run-Safe_example : Safe (run busy (init settings))
run-Safe_example = run-Safe settings busy

run-Accounted_example :
    lookup 7 (run busy (init settings)).counters ≡ tally (outstanding 7 (run busy (init settings)))
unfolding program
run-Accounted_example = run-Accounted 7 settings busy (omega arith) (ground arith)

-- The last handler of event 7 ends, and its row is marked.
abbrev before_last : Bus
before_last = record {
  settings = settings;
  stage = live;
  size = 1;
  capacity = 1;
  policy = discard;
  publishers = [];
  queue = task 0 ∷ [];
  running = task 7 ∷ [];
  fallbacks = [];
  loose = [];
  discarded = 1;
  counters = (7, pos 1) ∷ [];
  outbox = (7, pending) ∷ [];
  dlq_rows = [];
  send_panic = false;
}

abbrev after_last : Bus
after_last = record before_last { running = []; counters = []; outbox = (7, processed) ∷ [] }

before_last-Safe : Safe before_last
unfolding program
before_last-Safe = ground arith

before_last-Accounted : Accounted 7 before_last
unfolding program
before_last-Accounted = refl

before_last-step : step a (worker_ends 0 none) before_last ≡ some after_last
unfolding program
before_last-step = refl

step-completes_last_example :
    (lookup 7 after_last.outbox ≡ lookup 7 before_last.outbox)
    ⊎ EndsLast 7 before_last after_last
    ⊎ (worker_ends 0 none ≡ dispatches 7 none)
step-completes_last_example =
    step-completes_last 7 a (worker_ends 0 none) before_last after_last (omega arith)
      before_last-Safe tt before_last-Accounted before_last-step
