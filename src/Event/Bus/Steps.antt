-- ===== src/Event/Bus/Steps.antt =====
-- event_bus.go: the steps of publishers, workers, temporary goroutines, and of starting and stopping
-- the pool. `none` means that the step cannot be taken now.
use springo.Base.{
  pick, ℕ, ◌*◌, Bool, true, false, not, ◌&&◌, ◌||◌, List, [], ◌∷◌, ◌++◌, Option, none, some, Text,
  text_key, nat_key, nat_eqb, ltb, length, insert, if◌then◌else◌, pos,
}
use springo.Event.Bus.Defs.{
  block, discard, fallback, other, policy_of, Task, Phase, between, captured, admitted, Publisher,
  Stage, absent, live, unlinked, refusing, closed, stopped, Bus, Answers, complete_outbox_event,
  finish_listener, after_listener, count_discarded,
}

-- The part of ConcurrencyProperties that StartWorkerPool reads; `cpus` is runtime.NumCPU().
pub record Concurrency : Type 0 where
  pub enabled : Bool
  pub pool_size : ℕ
  pub queue_capacity : ℕ
  pub rejection_policy : Text

unfoldable pub is_accepting : Stage → Bool
is_accepting live = true
is_accepting unlinked = true
is_accepting _ = false

unfoldable pub is_closed : Stage → Bool
is_closed closed = true
is_closed stopped = true
is_closed _ = false

-- One pool at a time: the start of another one while the first is being stopped, which the source
-- allows, is not a step.
unfoldable pub start_worker_pool : ℕ → Concurrency → Bus → Option Bus
start_worker_pool cpus c b =
    if not c.enabled
    then some b
    else (let started : Bus = record b {
      stage = live;
      size = if nat_eqb c.pool_size 0 then cpus * 2 else c.pool_size;
      capacity = if nat_eqb c.queue_capacity 0 then 100 else c.queue_capacity;
      policy = policy_of c.rejection_policy;
    } in
        elim b.stage [ absent ↦ some started | stopped ↦ some started | live ↦ some b | _ ↦ none ])

-- A goroutine enters `dispatch` with the handlers of the event's type, or `none` where no listener
-- is registered for it.
unfoldable pub dispatch : Answers → ℕ → Option (List Task) → Bus → Bus
dispatch a id none b = complete_outbox_event a id b
dispatch a id (some handlers) b =
    let entered : Bus = record b {
      publishers = record { phase = between; rest = handlers } ∷ b.publishers;
    } in
    if nat_eqb id 0
    then entered
    else record entered { counters = insert id (pos (length handlers)) b.counters }

-- dispatchToHandler under poolMu.
unfoldable pub dispatch_to_handler : Answers → Task → List Task → Bus → Bus
dispatch_to_handler a t rest b = elim b.stage [
  | absent ↦ record b {
    loose = t ∷ b.loose;
    publishers = record { phase = between; rest = rest } ∷ b.publishers;
  }
  | live ↦ record b { publishers = record { phase = captured t; rest = rest } ∷ b.publishers }
  | _ ↦ count_discarded (
      finish_listener a t.outbox_id
        (record b { publishers = record { phase = between; rest = rest } ∷ b.publishers }))
]

-- dispatchWithPool under pool.mu: go on to the queue, or dispatchStoppingPool.
unfoldable pub dispatch_with_pool : Answers → Task → List Task → Bus → Bus
dispatch_with_pool a t rest b =
    let idle : Bus = record b {
      publishers = record { phase = between; rest = rest } ∷ b.publishers;
    } in
    if is_accepting b.stage
    then record b { publishers = record { phase = admitted t; rest = rest } ∷ b.publishers }
    else elim b.policy [
      | discard ↦ count_discarded (finish_listener a t.outbox_id idle)
      | _ ↦ record idle { fallbacks = t ∷ b.fallbacks }
    ]

-- The channel operation of dispatchAcceptingPool, and handleUnsentTask behind it. A send on a closed
-- channel panics. A policy that the switch does not know never sends.
unfoldable pub dispatch_accepting_pool : Answers → Task → List Task → Bus → Option Bus
dispatch_accepting_pool a t rest b =
    let idle : Bus = record b {
      publishers = record { phase = between; rest = rest } ∷ b.publishers;
    } in
    let sent : Bus =
      if is_closed b.stage
      then record idle { send_panic = true }
      else record idle { queue = b.queue ++ t ∷ [] } in
    let room = ltb (length b.queue) b.capacity || is_closed b.stage in
    let unsent : Bus = record idle { fallbacks = t ∷ b.fallbacks } in
    elim b.policy [
      | block ↦ if room then some sent else none
      | fallback ↦ some (if room then sent else unsent)
      | discard ↦ some (if room then sent else count_discarded (finish_listener a t.outbox_id idle))
      | other _ ↦ some unsent
    ]

-- The next step of a publisher, which `b` no longer lists.
unfoldable pub advance : Answers → Phase → List Task → Bus → Option Bus
advance a between [] b = some b
advance a between (t ∷ rest) b = some (dispatch_to_handler a t rest b)
advance a (captured t) rest b = some (dispatch_with_pool a t rest b)
advance a (admitted t) rest b = dispatch_accepting_pool a t rest b

-- What may happen next. `error` is what the listener returned.
pub data Action : Type 0 where
  starts : ℕ → Concurrency → Action
  dispatches : ℕ → Option (List Task) → Action
  advances : ℕ → Action
  takes : Action
  worker_ends fallback_ends loose_ends : ℕ → Option Text → Action
  unlinks refuses closes returns : Action

unfoldable pub step_take : Bus → List Task → Option Bus
step_take b [] = none
step_take b (t ∷ q) =
    if ltb (length b.running) b.size
    then some (record b { queue = q; running = t ∷ b.running })
    else none

unfoldable pub is_between : Phase → Bool
is_between between = true
is_between _ = false

-- publishers.Wait() returns: no publisher holds the pool.
unfoldable pub all_between : List Publisher → Bool
all_between [] = true
all_between (p ∷ ps) = is_between p.phase && all_between ps

unfoldable pub is_empty {ℓ} : {A : Type ℓ} → List A → Bool
is_empty [] = true
is_empty (x ∷ xs) = false

-- The steps of StopWorkerPool.
unfoldable pub unlink : Bus → Option Bus
unlink b = elim b.stage [
  | absent ↦ some (record b { stage = stopped })
  | live ↦ some (record b { stage = unlinked })
  | _ ↦ some b
]

unfoldable pub refuse : Bus → Option Bus
refuse b = elim b.stage [ unlinked ↦ some (record b { stage = refusing }) | _ ↦ none ]

unfoldable pub close_queue : Bus → Option Bus
close_queue b = elim b.stage [
  | refusing ↦ if all_between b.publishers then some (record b { stage = closed }) else none
  | _ ↦ none
]

unfoldable pub return_stopped : Bus → Option Bus
return_stopped b = elim b.stage [
  | closed ↦
      if is_empty b.queue && is_empty b.running && is_empty b.fallbacks
      then some (record b { stage = stopped })
      else none
  | _ ↦ none
]

unfoldable pub step : Answers → Action → Bus → Option Bus
step a (starts cpus c) b = start_worker_pool cpus c b
step a (dispatches id handlers) b = some (dispatch a id handlers b)
step a (advances n) b = elim (pick n b.publishers) [
  | none ↦ none
  | some (p, ps) ↦ advance a p.phase p.rest (record b { publishers = ps })
]
step a takes b = step_take b b.queue
step a (worker_ends n error) b = elim (pick n b.running) [
  | none ↦ none
  | some (t, ts) ↦ some (after_listener a t error (record b { running = ts }))
]
step a (fallback_ends n error) b = elim (pick n b.fallbacks) [
  | none ↦ none
  | some (t, ts) ↦ some (after_listener a t error (record b { fallbacks = ts }))
]
step a (loose_ends n error) b = elim (pick n b.loose) [
  | none ↦ none
  | some (t, ts) ↦ some (after_listener a t error (record b { loose = ts }))
]
step a unlinks b = unlink b
step a refuses b = refuse b
step a closes b = close_queue b
step a returns b = return_stopped b

-- A schedule: steps that cannot be taken are skipped.
unfoldable pub run : List (Answers × Action) → Bus → Bus
run [] b = b
run ((a, act) ∷ rest) b = run rest (elim (step a act b) [ none ↦ b | some b' ↦ b' ])
