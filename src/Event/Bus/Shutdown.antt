-- ===== src/Event/Bus/Shutdown.antt =====
-- event_bus.go: the pool's promises at every moment of a schedule: no send on the closed queue, the
-- configured bounds, and no listener left when StopWorkerPool has returned.
use springo.Base.{
  pick, ℕ, zero, suc, ◌+◌, ◌≡◌, ◌≤◌, refl, Bool, true, false, ◌&&◌, inl, inr, List, [], ◌∷◌, Option,
  none, some, arith, nat_key, Option-cases, length, length-append,
}
use springo.Event.Bus.Defs.{
  Task, Phase, between, captured, admitted, Publisher, Stage, absent, stopped, Settings, Bus,
  Answers, init, count_discarded,
}
use springo.Event.Bus.Steps.{
  is_closed, start_worker_pool, dispatch, dispatch_to_handler, dispatch_with_pool,
  dispatch_accepting_pool, advance, Action, starts, dispatches, advances, takes, worker_ends,
  fallback_ends, loose_ends, unlinks, refuses, closes, returns, step_take, is_between, all_between,
  is_empty, unlink, refuse, close_queue, return_stopped, step, run, Concurrency,
}
use springo.Event.Bus.Frame.{
  SamePool, complete_outbox_event-SamePool, finish_listener-SamePool, after_listener-SamePool,
}

abbrev pub is_down : Stage → Bool
is_down absent = true
is_down stopped = true
is_down _ = false

pub record Safe (b : Bus) : Type 0 where
  pub no_send_panic : b.send_panic ≡ false
  pub within_capacity : length b.queue ≤ b.capacity
  pub within_size : length b.running ≤ b.size
  pub released : is_closed b.stage ≡ true → all_between b.publishers ≡ true
  pub quiet_publishers : is_down b.stage ≡ true → all_between b.publishers ≡ true
  pub quiet_queue : is_down b.stage ≡ true → b.queue ≡ []
  pub quiet_workers : is_down b.stage ≡ true → b.running ≡ []
  pub quiet_fallbacks : is_down b.stage ≡ true → b.fallbacks ≡ []

pub init-Safe : (s : Settings) → Safe (init s)
unfolding init all_between
init-Safe s = ground arith

SamePool-Safe : (b b' : Bus) → SamePool b b' → Safe b → Safe b'
SamePool-Safe b b' e v = ground arith

pick-all_between :
    (n : ℕ) (ps qs : List Publisher) (p : Publisher)
    → pick n ps ≡ some (p, qs)
    → all_between ps ≡ (is_between p.phase && all_between qs)
unfolding pick all_between
pick-all_between n [] qs p e = ground arith
pick-all_between zero (x ∷ xs) qs p e = ground arith
pick-all_between (suc n) (x ∷ xs) qs p e = elim (Option-cases (pick n xs)) [
  | inl missed ↦ ground arith
  | inr ((y, ys), hit) ↦ ground (arith, pick-all_between n xs ys y hit)
]

pick-length {ℓ} :
    {A : Type ℓ} (n : ℕ) (xs ys : List A) (x : A)
    → pick n xs ≡ some (x, ys)
    → length xs ≡ length ys + 1
unfolding pick
pick-length n [] ys x e = ground arith
pick-length zero (y ∷ xs) ys x e = ground arith
pick-length (suc n) (y ∷ xs) ys x e = elim (Option-cases (pick n xs)) [
  | inl missed ↦ ground arith
  | inr ((z, zs), hit) ↦ ground (arith, pick-length n xs zs z hit)
]

module _ (a : Answers) (b : Bus) (t : Task) (rest : List Task) (v : Safe b) where
  abbrev idle : Bus
  idle = record b { publishers = record { phase = between; rest = rest } ∷ b.publishers }

  dispatch_to_handler-Safe : Safe (dispatch_to_handler a t rest b)
  unfolding dispatch_to_handler is_closed all_between is_between count_discarded
  dispatch_to_handler-Safe = ground (arith, finish_listener-SamePool a t.outbox_id idle)

  -- A publisher that holds the pool: its queue is open.
  module _ (opened : is_closed b.stage ≡ false) (up : is_down b.stage ≡ false) where
    dispatch_with_pool-Safe : Safe (dispatch_with_pool a t rest b)
    unfolding dispatch_with_pool is_closed all_between is_between count_discarded
    dispatch_with_pool-Safe = ground (arith, finish_listener-SamePool a t.outbox_id idle)

    dispatch_accepting_pool-Safe :
        (b' : Bus) → dispatch_accepting_pool a t rest b ≡ some b' → Safe b'
    unfolding dispatch_accepting_pool all_between is_between count_discarded
    dispatch_accepting_pool-Safe b' e =
        ground (arith, finish_listener-SamePool a t.outbox_id idle, length-append b.queue (t ∷ []))

advance-Safe :
    (a : Answers) (phase : Phase) (rest : List Task) (b b' : Bus)
    → Safe b
    → (is_between phase ≡ false → (is_closed b.stage ≡ false) × (is_down b.stage ≡ false))
    → advance a phase rest b ≡ some b'
    → Safe b'
unfolding advance is_between
advance-Safe a between [] b b' v busy e = ground arith
advance-Safe a between (t ∷ rest) b b' v busy e =
    ground (arith, dispatch_to_handler-Safe a b t rest v)
advance-Safe a (captured t) rest b b' v busy e =
    ground (arith, dispatch_with_pool-Safe a b t rest v (busy refl).0 (busy refl).1)
advance-Safe a (admitted t) rest b b' v busy e =
    dispatch_accepting_pool-Safe a b t rest v (busy refl).0 (busy refl).1 b' e

pub picked-Safe :
    (b : Bus) (n : ℕ) (p : Publisher) (ps : List Publisher)
    → Safe b
    → pick n b.publishers ≡ some (p, ps)
    → Safe (record b { publishers = ps })
picked-Safe b n p ps v e = ground (arith, pick-all_between n b.publishers ps p e)

pub picked_busy :
    (b : Bus) (n : ℕ) (p : Publisher) (ps : List Publisher)
    → Safe b
    → pick n b.publishers ≡ some (p, ps)
    → is_between p.phase ≡ false
    → (is_closed b.stage ≡ false) × (is_down b.stage ≡ false)
picked_busy b n p ps v e h = (
  ground (arith, pick-all_between n b.publishers ps p e),
  ground (arith, pick-all_between n b.publishers ps p e),
)

dispatch-Safe :
    (a : Answers) (id : ℕ) (handlers : Option (List Task)) (b : Bus)
    → Safe b
    → Safe (dispatch a id handlers b)
unfolding dispatch all_between is_between
dispatch-Safe a id none b v = SamePool-Safe b _ (complete_outbox_event-SamePool a id b) v
dispatch-Safe a id (some handlers) b v = ground arith

start_worker_pool-Safe :
    (cpus : ℕ) (c : Concurrency) (b b' : Bus)
    → Safe b
    → start_worker_pool cpus c b ≡ some b'
    → Safe b'
unfolding start_worker_pool is_closed
start_worker_pool-Safe cpus c b b' v e = ground arith

step_take-Safe :
    (b b' : Bus) (q : List Task) → Safe b → b.queue ≡ q → step_take b q ≡ some b' → Safe b'
unfolding step_take
step_take-Safe b b' [] v s e = ground arith
step_take-Safe b b' (t ∷ q) v s e = ground arith

-- Every step keeps the pool safe.
pub step-Safe :
    (a : Answers) (act : Action) (b b' : Bus) → Safe b → step a act b ≡ some b' → Safe b'
unfolding step
step-Safe a (starts cpus c) b b' v e = start_worker_pool-Safe cpus c b b' v e
step-Safe a (dispatches id handlers) b b' v e = ground (arith, dispatch-Safe a id handlers b v)
step-Safe a (advances n) b b' v e = elim (Option-cases (pick n b.publishers)) [
  | inl missed ↦ ground arith
  | inr ((p, ps), hit) ↦
      advance-Safe a p.phase p.rest (record b { publishers = ps }) b' (picked-Safe b n p ps v hit)
        (picked_busy b n p ps v hit) (ground arith)
]
step-Safe a takes b b' v e = step_take-Safe b b' b.queue v refl e
step-Safe a (worker_ends n error) b b' v e = elim (Option-cases (pick n b.running)) [
  | inl missed ↦ ground arith
  | inr ((t, ts), hit) ↦ ground (
    arith,
    pick-length n b.running ts t hit,
    after_listener-SamePool a t error (record b { running = ts }),
  )
]
step-Safe a (fallback_ends n error) b b' v e = elim (Option-cases (pick n b.fallbacks)) [
  | inl missed ↦ ground arith
  | inr ((t, ts), hit) ↦ ground (
    arith,
    pick-length n b.fallbacks ts t hit,
    after_listener-SamePool a t error (record b { fallbacks = ts }),
  )
]
step-Safe a (loose_ends n error) b b' v e = elim (Option-cases (pick n b.loose)) [
  | inl missed ↦ ground arith
  | inr ((t, ts), hit) ↦ ground (arith, after_listener-SamePool a t error (record b { loose = ts }))
]
step-Safe a unlinks b b' v e = unfold unlink is_closed in ground arith
step-Safe a refuses b b' v e = unfold refuse is_closed in ground arith
step-Safe a closes b b' v e = unfold close_queue is_closed in ground arith
step-Safe a returns b b' v e = unfold return_stopped is_closed is_empty in ground arith

run_keeps-Safe : (schedule : List (Answers × Action)) (b : Bus) → Safe b → Safe (run schedule b)
unfolding run
run_keeps-Safe [] b v = v
run_keeps-Safe ((a, act) ∷ rest) b v = elim (Option-cases (step a act b)) [
  | inl refused ↦ rw refused (run_keeps-Safe rest b v)
  | inr (b', taken) ↦ rw taken (run_keeps-Safe rest b' (step-Safe a act b b' v taken))
]

-- In every schedule from the start: no publisher ever sends on the closed queue, the queue and the
-- busy workers keep within the configured numbers, and once StopWorkerPool has returned no task is
-- queued and no listener runs in a worker or in a temporary goroutine of the pool.
pub run-Safe : (s : Settings) (schedule : List (Answers × Action)) → Safe (run schedule (init s))
run-Safe s schedule = run_keeps-Safe schedule (init s) (init-Safe s)
