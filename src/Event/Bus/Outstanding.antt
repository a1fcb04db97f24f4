-- ===== src/Event/Bus/Outstanding.antt =====
-- event_bus.go: every step keeps the outbox counters right, and an event is completed only when its
-- last handler has ended.
use native.Mathlib.Decide.{ℕ_discrete}
use springo.Base.{
  pick, ℕ, ◌+◌, ◌≡◌, ◌≢◌, ◌<◌, refl, ap, subst, ◌∙◌, false, inl, inr, List, [], ◌∷◌, Option, none,
  some, Text, arith, nat_key, lookup, lookup-insert, Option-cases, pos, length, All,
}
use springo.Event.Bus.Defs.{
  Task, Phase, between, captured, admitted, Settings, Bus, Answers, init, after_listener,
  count_discarded,
}
use springo.Event.Bus.Steps.{
  is_closed, start_worker_pool, dispatch, dispatch_to_handler, dispatch_with_pool,
  dispatch_accepting_pool, advance, Action, starts, dispatches, advances, takes, worker_ends,
  fallback_ends, loose_ends, unlinks, refuses, closes, returns, step_take, is_between, unlink,
  refuse, close_queue, return_stopped, step, run,
}
use springo.Event.Bus.Shutdown.{Safe, init-Safe, step-Safe, picked_busy}
use springo.Event.Bus.Frame.{
  complete_outbox_event-SamePool, finish_listener-SamePool, after_listener-SamePool,
}
use springo.Event.Bus.Counters.{
  own, count_tasks, count_phase, count_publishers, outstanding, tally, Accounted,
  count_tasks-append, pick-count_tasks, pick-count_publishers, complete-counters,
  finish_listener-counter, after_listener-counter,
}

keeps_after :
    (Q : Bus → Type 0) (o : Option Bus) (b : Bus)
    → Q b
    → ((b' : Bus) → o ≡ some b' → Q b')
    → Q (elim o [ none ↦ b | some b' ↦ b' ])
keeps_after Q none b h k = h
keeps_after Q (some b') b h k = k b' refl

module _ (id : ℕ) where
  -- Dispatching event `id` anew waits until no handler of it is left, and each handler carries the
  -- id that it was dispatched with.
  abbrev pub Fresh : Action → Bus → Type 0
  Fresh (dispatches j none) b = j ≡ id → outstanding id b ≡ 0
  Fresh (dispatches j (some ts)) b =
      All (λ t. t.outbox_id ≡ j) ts × (j ≡ id → (outstanding id b ≡ 0) × (0 < length ts))
  Fresh _ b = Unit {0}

  module _ (a : Answers) (b : Bus) (t : Task) (rest : List Task) (nz : id ≢ 0) where
    -- The task in hand is counted apart from those that `b` lists.
    abbrev Holding : Type 0
    Holding = lookup id b.counters ≡ tally (own id t + (count_tasks id rest + outstanding id b))

    abbrev idle : Bus
    idle = record b { publishers = record { phase = between; rest = rest } ∷ b.publishers }

    outstanding-idle : outstanding id idle ≡ count_tasks id rest + outstanding id b
    unfolding count_publishers
    outstanding-idle = omega arith

    dispatch_to_handler-Accounted : Holding → Accounted id (dispatch_to_handler a t rest b)
    unfolding dispatch_to_handler count_publishers count_tasks count_discarded
    dispatch_to_handler-Accounted h = ground (
      arith,
      finish_listener-SamePool a t.outbox_id idle,
      finish_listener-counter id a t idle (count_tasks id rest + outstanding id b) nz,
    )

    dispatch_with_pool-Accounted : Holding → Accounted id (dispatch_with_pool a t rest b)
    unfolding dispatch_with_pool count_publishers count_tasks count_discarded
    dispatch_with_pool-Accounted h = ground (
      arith,
      finish_listener-SamePool a t.outbox_id idle,
      finish_listener-counter id a t idle (count_tasks id rest + outstanding id b) nz,
    )

    dispatch_accepting_pool-Accounted :
        (b' : Bus)
        → is_closed b.stage ≡ false
        → Holding
        → dispatch_accepting_pool a t rest b ≡ some b'
        → Accounted id b'
    unfolding dispatch_accepting_pool count_publishers count_tasks count_discarded
    dispatch_accepting_pool-Accounted b' o h e = ground (
      arith,
      finish_listener-SamePool a t.outbox_id idle,
      finish_listener-counter id a t idle (count_tasks id rest + outstanding id b) nz,
      count_tasks-append id b.queue (t ∷ []),
    )

  advance-Accounted :
      (a : Answers) (phase : Phase) (rest : List Task) (b b' : Bus)
      → id ≢ 0
      → (is_between phase ≡ false → is_closed b.stage ≡ false)
      → lookup id b.counters
        ≡ tally (count_phase id phase + (count_tasks id rest + outstanding id b))
      → advance a phase rest b ≡ some b'
      → Accounted id b'
  unfolding advance is_between count_tasks
  advance-Accounted a between [] b b' nz o h e = ground arith
  advance-Accounted a between (t ∷ rest) b b' nz o h e =
      ground (arith, dispatch_to_handler-Accounted a b t rest nz)
  advance-Accounted a (captured t) rest b b' nz o h e =
      ground (arith, dispatch_with_pool-Accounted a b t rest nz)
  advance-Accounted a (admitted t) rest b b' nz o h e =
      dispatch_accepting_pool-Accounted a b t rest nz b' (o refl) h e

  count_tasks-All :
      (ts : List Task) → All (λ t. t.outbox_id ≡ id) ts → count_tasks id ts ≡ length ts
  unfolding count_tasks
  count_tasks-All [] h = refl
  count_tasks-All (t ∷ ts) h = ground (arith, count_tasks-All ts h.1)

  count_tasks_none :
      (j : ℕ) (ts : List Task) → j ≢ id → All (λ t. t.outbox_id ≡ j) ts → count_tasks id ts ≡ 0
  unfolding count_tasks
  count_tasks_none j [] ne h = refl
  count_tasks_none j (t ∷ ts) ne h = ground (arith, count_tasks_none j ts ne h.1)

  dispatch-Accounted :
      (a : Answers) (j : ℕ) (handlers : Option (List Task)) (b : Bus)
      → id ≢ 0
      → Fresh (dispatches j handlers) b
      → Accounted id b
      → Accounted id (dispatch a j handlers b)
  unfolding dispatch count_publishers
  dispatch-Accounted a j none b nz f h =
      ground (arith, complete-counters id a j b, complete_outbox_event-SamePool a j b)
  dispatch-Accounted a j (some ts) b nz f h = elim (ℕ_discrete j id) [
    | yes same ↦ ground (
      arith,
      lookup-insert j id (pos (length ts)) b.counters,
      count_tasks-All ts (subst (λ k. All (λ t. t.outbox_id ≡ k) ts) same f.0),
      f.1 same,
    )
    | no differs ↦
        ground (
          arith,
          lookup-insert j id (pos (length ts)) b.counters,
          count_tasks_none j ts differs f.0,
        )
  ]

  ends-Accounted :
      (a : Answers) (t : Task) (error : Option Text) (b : Bus)
      → id ≢ 0
      → lookup id b.counters ≡ tally (own id t + outstanding id b)
      → Accounted id (after_listener a t error b)
  ends-Accounted a t error b nz h =
      after_listener-counter id a t error b (outstanding id b) nz h
      ∙ ap tally (ground (arith, after_listener-SamePool a t error b))

  pub step-Accounted :
      (a : Answers) (act : Action) (b b' : Bus)
      → id ≢ 0
      → Safe b
      → Fresh act b
      → Accounted id b
      → step a act b ≡ some b'
      → Accounted id b'
  unfolding step
  step-Accounted a (starts cpus c) b b' nz v f h e = unfold start_worker_pool in ground arith
  step-Accounted a (dispatches j handlers) b b' nz v f h e =
      ground (arith, dispatch-Accounted a j handlers b nz f h)
  step-Accounted a (advances n) b b' nz v f h e = elim (Option-cases (pick n b.publishers)) [
    | inl missed ↦ ground arith
    | inr ((p, ps), hit) ↦
        let counted = pick-count_publishers id n b.publishers ps p hit in
        advance-Accounted a p.phase p.rest (record b { publishers = ps }) b' nz
          (λ busy. (picked_busy b n p ps v hit busy).0) (h ∙ ap tally (omega (arith, counted)))
          (ground arith)
  ]
  step-Accounted a takes b b' nz v f h e = take_next b.queue refl e
    where
      take_next : (q : List Task) → b.queue ≡ q → step_take b q ≡ some b' → Accounted id b'
      take_next [] s e = unfold step_take in ground arith
      take_next (t ∷ q) s e = unfold step_take count_tasks in ground arith
  step-Accounted a (worker_ends n error) b b' nz v f h e = elim (Option-cases (pick n b.running)) [
    | inl missed ↦ ground arith
    | inr ((t, ts), hit) ↦
        let rest : Bus = record b { running = ts } in
        let counted = pick-count_tasks id n b.running ts t hit in
        let ended = ends-Accounted a t error rest nz (h ∙ ap tally (omega (arith, counted))) in
        ground (arith, ended)
  ]
  step-Accounted a (fallback_ends n error) b b' nz v f h e =
      elim (Option-cases (pick n b.fallbacks)) [
        | inl missed ↦ ground arith
        | inr ((t, ts), hit) ↦
            let rest : Bus = record b { fallbacks = ts } in
            let counted = pick-count_tasks id n b.fallbacks ts t hit in
            let ended = ends-Accounted a t error rest nz (h ∙ ap tally (omega (arith, counted))) in
            ground (arith, ended)
      ]
  step-Accounted a (loose_ends n error) b b' nz v f h e = elim (Option-cases (pick n b.loose)) [
    | inl missed ↦ ground arith
    | inr ((t, ts), hit) ↦
        let rest : Bus = record b { loose = ts } in
        let counted = pick-count_tasks id n b.loose ts t hit in
        let ended = ends-Accounted a t error rest nz (h ∙ ap tally (omega (arith, counted))) in
        ground (arith, ended)
  ]
  step-Accounted a unlinks b b' nz v f h e = unfold unlink in ground arith
  step-Accounted a refuses b b' nz v f h e = unfold refuse in ground arith
  step-Accounted a closes b b' nz v f h e = unfold close_queue in ground arith
  step-Accounted a returns b b' nz v f h e = unfold return_stopped in ground arith

  abbrev pub after : Answers × Action → Bus → Bus
  after (a, act) b = elim (step a act b) [ none ↦ b | some b' ↦ b' ]

  -- The schedule dispatches an event anew only when no handler of it is left.
  abbrev pub FreshAlong : List (Answers × Action) → Bus → Type 0
  FreshAlong [] b = Unit
  FreshAlong ((a, act) ∷ rest) b = Fresh act b × FreshAlong rest (after (a, act) b)

  run_keeps-Accounted :
      (schedule : List (Answers × Action)) (b : Bus)
      → id ≢ 0
      → Safe b
      → FreshAlong schedule b
      → Accounted id b
      → Accounted id (run schedule b)
  unfolding run
  run_keeps-Accounted [] b nz v f h = h
  run_keeps-Accounted ((a, act) ∷ rest) b nz v f h =
      let kept =
        keeps_after (λ c. Safe c × Accounted id c) (step a act b) b (v, h)
          (λ b' e. (step-Safe a act b b' v e, step-Accounted a act b b' nz v f.0 h e)) in
      run_keeps-Accounted rest (after (a, act) b) nz kept.0 f.1 kept.1

  -- In every schedule from the start that dispatches an outbox event anew only when its handlers
  -- have ended, its counter is the number of its handlers that are still to end (waiting in a
  -- publisher, queued, or running anywhere), and there is no counter when there is none.
  pub run-Accounted :
      (s : Settings) (schedule : List (Answers × Action))
      → id ≢ 0
      → FreshAlong schedule (init s)
      → lookup id (run schedule (init s)).counters ≡ tally (outstanding id (run schedule (init s)))
  run-Accounted s schedule nz f =
      run_keeps-Accounted schedule (init s) nz (init-Safe s) f
        (unfold init lookup count_tasks count_publishers in refl)
