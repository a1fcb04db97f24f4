-- ===== src/Event/Bus/Counters.antt =====
-- event_bus.go: the outbox counters. The counter of an event is the number of its handlers that are
-- still to end, wherever they are, and it is gone when there is none.
use native.Mathlib.Decide.{ℕ_discrete}
use springo.Base.{
  pick, ℕ, zero, suc, ◌+◌, ◌≡◌, ◌≢◌, ◌+ℤ◌, ap, ◌∙◌, inl, inr, List, [], ◌∷◌, ◌++◌, Option, none,
  some, Text, arith, nat_key, nat_eqb, nat_eqb_iff, lookup, delete, lookup-insert, lookup-delete,
  Option-cases, ℤ, pos, negsuc, if◌then◌else◌,
}
use springo.Event.Bus.Defs.{
  Task, Phase, between, captured, admitted, Publisher, Bus, Answers, complete_outbox_event,
  count_down, finish_listener, handle_failure, after_listener,
}

-- The counter that stands for `k` handlers.
abbrev pub tally : ℕ → Option ℤ
tally zero = none
tally (suc k) = some (pos (suc k))

module _ (id : ℕ) where
  abbrev pub own : Task → ℕ
  own t = if nat_eqb t.outbox_id id then 1 else 0

  unfoldable pub count_tasks : List Task → ℕ
  count_tasks [] = 0
  count_tasks (t ∷ ts) = own t + count_tasks ts

  abbrev pub count_phase : Phase → ℕ
  count_phase between = 0
  count_phase (captured t) = own t
  count_phase (admitted t) = own t

  unfoldable pub count_publishers : List Publisher → ℕ
  count_publishers [] = 0
  count_publishers (p ∷ ps) = count_phase p.phase + count_tasks p.rest + count_publishers ps

  -- The handlers of the event that are still to end.
  abbrev pub outstanding : Bus → ℕ
  outstanding b =
      count_publishers b.publishers
      + count_tasks b.queue
      + count_tasks b.running
      + count_tasks b.fallbacks
      + count_tasks b.loose

  abbrev pub Accounted : Bus → Type 0
  Accounted b = lookup id b.counters ≡ tally (outstanding b)

  pub count_tasks-append :
      (xs ys : List Task) → count_tasks (xs ++ ys) ≡ count_tasks xs + count_tasks ys
  unfolding count_tasks
  count_tasks-append [] ys = omega arith
  count_tasks-append (x ∷ xs) ys = ground (arith, count_tasks-append xs ys)

  pub pick-count_tasks :
      (n : ℕ) (ts us : List Task) (t : Task)
      → pick n ts ≡ some (t, us)
      → count_tasks ts ≡ own t + count_tasks us
  unfolding pick count_tasks
  pick-count_tasks n [] us t e = ground arith
  pick-count_tasks zero (x ∷ xs) us t e = ground arith
  pick-count_tasks (suc n) (x ∷ xs) us t e = elim (Option-cases (pick n xs)) [
    | inl missed ↦ ground arith
    | inr ((y, ys), hit) ↦ ground (arith, pick-count_tasks n xs ys y hit)
  ]

  pub pick-count_publishers :
      (n : ℕ) (ps qs : List Publisher) (p : Publisher)
      → pick n ps ≡ some (p, qs)
      → count_publishers ps ≡ count_phase p.phase + count_tasks p.rest + count_publishers qs
  unfolding pick count_publishers
  pick-count_publishers n [] qs p e = ground arith
  pick-count_publishers zero (x ∷ xs) qs p e = ground arith
  pick-count_publishers (suc n) (x ∷ xs) qs p e = elim (Option-cases (pick n xs)) [
    | inl missed ↦ ground arith
    | inr ((y, ys), hit) ↦ ground (arith, pick-count_publishers n xs ys y hit)
  ]

  pub complete-counters :
      (a : Answers) (k : ℕ) (b : Bus) → (complete_outbox_event a k b).counters ≡ b.counters
  unfolding complete_outbox_event
  complete-counters a k b = ground arith

  -- Counting down the event's own counter, and that of another event.
  count_down_self :
      (a : Answers) (k : ℕ) (b : Bus)
      → lookup id (count_down a id (pos (suc k)) b).counters ≡ tally k
  unfolding count_down
  count_down_self a zero b =
      complete-lookup ∙ ground (arith, lookup-delete id id b.counters, nat_eqb_iff id id)
    where
      complete-lookup :
          lookup id (count_down a id (pos 1) b).counters ≡ lookup id (delete id b.counters)
      complete-lookup =
          ap (λ m. lookup id m)
            (complete-counters a id (record b { counters = delete id b.counters }))
  count_down_self a (suc k) b =
      ground (arith, lookup-insert id id (pos (suc k)) b.counters, nat_eqb_iff id id)

  count_down_other :
      (a : Answers) (j : ℕ) (n : ℤ) (b : Bus)
      → j ≢ id
      → lookup id (count_down a j n b).counters ≡ lookup id b.counters
  unfolding count_down
  count_down_other a j n b ne = ground (
    arith,
    complete-counters a j (record b { counters = delete j b.counters }),
    lookup-delete j id b.counters,
    lookup-insert j id (n +ℤ negsuc 0) b.counters,
  )

  pub finish_self :
      (a : Answers) (k : ℕ) (b : Bus)
      → id ≢ 0
      → lookup id b.counters ≡ some (pos (suc k))
      → lookup id (finish_listener a id b).counters ≡ tally k
  unfolding finish_listener
  finish_self a k b nz e = ground (arith, count_down_self a k b)

  pub finish_other :
      (a : Answers) (j : ℕ) (b : Bus)
      → j ≢ id
      → lookup id (finish_listener a j b).counters ≡ lookup id b.counters
  unfolding finish_listener
  finish_other a j b ne = elim (Option-cases (lookup j b.counters)) [
    | inl gone ↦ ground arith
    | inr (n, here) ↦ ground (arith, count_down_other a j n b ne)
  ]

  -- Ending one listener takes one from the counter of its event, and from no other.
  pub finish_listener-counter :
      (a : Answers) (t : Task) (b : Bus) (k : ℕ)
      → id ≢ 0
      → lookup id b.counters ≡ tally (own t + k)
      → lookup id (finish_listener a t.outbox_id b).counters ≡ tally k
  finish_listener-counter a t b k nz e = elim (ℕ_discrete t.outbox_id id) [
    | yes same ↦
        let one : own t + k ≡ suc k = ground arith in
        rw same (finish_self a k b nz (e ∙ ap tally one))
    | no differs ↦
        let nothing : own t + k ≡ k = ground arith in
        finish_other a t.outbox_id b differs ∙ e ∙ ap tally nothing
  ]

  pub after_listener-counter :
      (a : Answers) (t : Task) (error : Option Text) (b : Bus) (k : ℕ)
      → id ≢ 0
      → lookup id b.counters ≡ tally (own t + k)
      → lookup id (after_listener a t error b).counters ≡ tally k
  unfolding after_listener handle_failure
  after_listener-counter a t none b k nz e = finish_listener-counter a t b k nz e
  after_listener-counter a t (some x) b k nz e =
      finish_listener-counter a t (handle_failure a t x b) k nz (ap (λ m. lookup id m) kept ∙ e)
    where
      kept : (handle_failure a t x b).counters ≡ b.counters
      kept = ground arith
