-- ===== src/Event/Bus/Completion.antt =====
-- event_bus.go: an outbox event is completed only when its last handler has ended.
use native.Mathlib.Decide.{ℕ_discrete}
use springo.Base.{
  pick, ℕ, zero, suc, ◌≡◌, ◌≢◌, ◌+ℤ◌, refl, ap, sym, ◌∙◌, ◌⊎◌, inl, inr, List, [], ◌∷◌, Option,
  none, some, Text, arith, nat_key, nat_eqb, lookup, delete, lookup-insert, lookup-delete,
  Option-cases, Bool-cases, ℤ, negsuc, pos_part,
}
use springo.Event.Retry.{processed}
use springo.Event.Bus.Defs.{
  Task, Phase, between, captured, admitted, Bus, Answers, complete_outbox_event, count_down,
  finish_listener, handle_failure, after_listener, count_discarded,
}
use springo.Event.Bus.Steps.{
  start_worker_pool, dispatch, dispatch_to_handler, dispatch_with_pool, dispatch_accepting_pool,
  advance, Action, starts, dispatches, advances, takes, worker_ends, fallback_ends, loose_ends,
  unlinks, refuses, closes, returns, step_take, unlink, refuse, close_queue, return_stopped, step,
}
use springo.Event.Bus.Shutdown.{Safe}
use springo.Event.Bus.Counters.{outstanding, tally, Accounted, complete-counters}
use springo.Event.Bus.Outstanding.{Fresh, step-Accounted}

-- The state in which a publisher goes on to its next handler.
abbrev idle : Bus → List Task → Bus
idle b rest = record b { publishers = record { phase = between; rest = rest } ∷ b.publishers }

some_is_not : {A : Type 0} {x : A} → some x ≡ none → ⊥
some_is_not e = absurd (ground arith)

module _ (id : ℕ) where
  -- A step leaves the row of the event alone, or it takes away the counter of the event, or it is a
  -- dispatch that finds no listener.
  abbrev Late : Action → Bus → Bus → Type 0
  Late act b b' =
      (lookup id b'.outbox ≡ lookup id b.outbox)
      ⊎ ((lookup id b.counters ≢ none) × (lookup id b'.counters ≡ none))
      ⊎ (act ≡ dispatches id none)

  complete-other :
      (a : Answers) (j : ℕ) (b : Bus)
      → j ≢ id
      → lookup id (complete_outbox_event a j b).outbox ≡ lookup id b.outbox
  unfolding complete_outbox_event
  complete-other a j b ne =
      ground (arith, lookup-delete j id b.outbox, lookup-insert j id processed b.outbox)

  count_down-Late :
      (act : Action) (a : Answers) (j : ℕ) (n : ℤ) (b : Bus)
      → lookup j b.counters ≡ some n
      → Late act b (count_down a j n b)
  unfolding count_down
  count_down-Late act a j n b here = elim (ℕ_discrete j id) [
    | no differs ↦
        inl
          (ground (arith, complete-other a j (record b { counters = delete j b.counters }) differs))
    | yes same ↦ elim (Bool-cases (nat_eqb (pos_part (n +ℤ negsuc 0)) 0)) [
      | inl last ↦ inr (
          inl (
            (λ gone. absurd (some_is_not (sym here ∙ ap (λ k. lookup k b.counters) same ∙ gone))),
            ground (
              arith,
              complete-counters id a j (record b { counters = delete j b.counters }),
              lookup-delete j id b.counters,
            ),
          ))
      | inr more ↦ inl (ground arith)
    ]
  ]

  finish_listener-Late :
      (act : Action) (a : Answers) (j : ℕ) (b : Bus) → id ≢ 0 → Late act b (finish_listener a j b)
  unfolding finish_listener
  finish_listener-Late act a j b nz = elim (Option-cases (lookup j b.counters)) [
    | inl gone ↦ inl (ground arith)
    | inr (n, here) ↦ ground (arith, count_down-Late act a j n b here)
  ]

  after_listener-Late :
      (act : Action) (a : Answers) (t : Task) (error : Option Text) (b : Bus)
      → id ≢ 0
      → Late act b (after_listener a t error b)
  unfolding after_listener handle_failure
  after_listener-Late act a t none b nz = finish_listener-Late act a t.outbox_id b nz
  after_listener-Late act a t (some x) b nz =
      ground (arith, finish_listener-Late act a t.outbox_id (handle_failure a t x b) nz)

  dispatch-Late :
      (a : Answers) (j : ℕ) (handlers : Option (List Task)) (b : Bus)
      → Late (dispatches j handlers) b (dispatch a j handlers b)
  unfolding dispatch
  dispatch-Late a j (some ts) b = inl (ground arith)
  dispatch-Late a j none b = elim (ℕ_discrete j id) [
    | no differs ↦ inl (complete-other a j b differs)
    | yes same ↦ inr (inr (ap (λ k. dispatches k none) same))
  ]

  advance-Late :
      (act : Action) (a : Answers) (phase : Phase) (rest : List Task) (b b' : Bus)
      → id ≢ 0
      → advance a phase rest b ≡ some b'
      → Late act b b'
  unfolding advance
  advance-Late act a between [] b b' nz e = inl (ground arith)
  advance-Late act a between (t ∷ rest) b b' nz e =
      unfold dispatch_to_handler count_discarded in
      ground (arith, finish_listener-Late act a t.outbox_id (idle b rest) nz)
  advance-Late act a (captured t) rest b b' nz e =
      unfold dispatch_with_pool count_discarded in
      ground (arith, finish_listener-Late act a t.outbox_id (idle b rest) nz)
  advance-Late act a (admitted t) rest b b' nz e =
      unfold dispatch_accepting_pool count_discarded in
      ground (arith, finish_listener-Late act a t.outbox_id (idle b rest) nz)

  step-Late :
      (a : Answers) (act : Action) (b b' : Bus) → id ≢ 0 → step a act b ≡ some b' → Late act b b'
  unfolding step
  step-Late a (starts cpus c) b b' nz e = unfold start_worker_pool in inl (ground arith)
  step-Late a (dispatches j handlers) b b' nz e = ground (arith, dispatch-Late a j handlers b)
  step-Late a (advances n) b b' nz e = elim (Option-cases (pick n b.publishers)) [
    | inl missed ↦ absurd (ground arith)
    | inr ((p, ps), hit) ↦
        advance-Late (advances n) a p.phase p.rest (record b { publishers = ps }) b' nz
          (ground arith)
  ]
  step-Late a takes b b' nz e = inl (take_next b.queue e)
    where
      take_next :
          (q : List Task) → step_take b q ≡ some b' → lookup id b'.outbox ≡ lookup id b.outbox
      take_next [] s = unfold step_take in ground arith
      take_next (t ∷ q) s = unfold step_take in ground arith
  step-Late a (worker_ends n error) b b' nz e = elim (Option-cases (pick n b.running)) [
    | inl missed ↦ absurd (ground arith)
    | inr ((t, ts), hit) ↦
        ground (
          arith,
          after_listener-Late (worker_ends n error) a t error (record b { running = ts }) nz,
        )
  ]
  step-Late a (fallback_ends n error) b b' nz e = elim (Option-cases (pick n b.fallbacks)) [
    | inl missed ↦ absurd (ground arith)
    | inr ((t, ts), hit) ↦ ground (
      arith,
      after_listener-Late (fallback_ends n error) a t error (record b { fallbacks = ts }) nz,
    )
  ]
  step-Late a (loose_ends n error) b b' nz e = elim (Option-cases (pick n b.loose)) [
    | inl missed ↦ absurd (ground arith)
    | inr ((t, ts), hit) ↦
        ground
          (arith, after_listener-Late (loose_ends n error) a t error (record b { loose = ts }) nz)
  ]
  step-Late a unlinks b b' nz e = unfold unlink in inl (ground arith)
  step-Late a refuses b b' nz e = unfold refuse in inl (ground arith)
  step-Late a closes b b' nz e = unfold close_queue in inl (ground arith)
  step-Late a returns b b' nz e = unfold return_stopped in inl (ground arith)

  tally-none : (k : ℕ) → tally k ≡ none → k ≡ 0
  tally-none zero e = refl
  tally-none (suc k) e = cc

  -- No handler of the event is left, before which there was one.
  abbrev pub EndsLast : Bus → Bus → Type 0
  EndsLast b b' = (outstanding id b ≢ 0) × (outstanding id b' ≡ 0)

  -- An outbox row is marked or deleted only by the step that ends the last handler of its event, and
  -- by a dispatch of the event that finds no listener: every other step, also one that ends another
  -- handler or belongs to another event, leaves the row as it was.
  pub step-completes_last :
      (a : Answers) (act : Action) (b b' : Bus)
      → id ≢ 0
      → Safe b
      → Fresh id act b
      → Accounted id b
      → step a act b ≡ some b'
      → (lookup id b'.outbox ≡ lookup id b.outbox) ⊎ EndsLast b b' ⊎ (act ≡ dispatches id none)
  step-completes_last a act b b' nz v f h e = elim (step-Late a act b b' nz e) [
    | inl same ↦ inl same
    | inr (inr found_none) ↦ inr (inr found_none)
    | inr (inl (had, gone)) ↦ inr (
        inl (
          (λ idle_already. had (h ∙ ap tally idle_already)),
          tally-none (outstanding id b') (sym (step-Accounted id a act b b' nz v f h e) ∙ gone),
        ))
  ]
