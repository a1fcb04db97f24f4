-- ===== src/Event/Bus/Frame.antt =====
-- event_bus.go: completing outbox events and writing dead letters leave the pool alone.
use springo.Base.{ℕ, ◌≡◌, Option, none, some, Text, arith, nat_key}
use springo.Event.Bus.Defs.{
  Task, Bus, Answers, complete_outbox_event, count_down, finish_listener, handle_failure,
  after_listener,
}

pub record SamePool (b b' : Bus) : Type 0 where
  pub stage : b'.stage ≡ b.stage
  pub size : b'.size ≡ b.size
  pub capacity : b'.capacity ≡ b.capacity
  pub policy : b'.policy ≡ b.policy
  pub publishers : b'.publishers ≡ b.publishers
  pub queue : b'.queue ≡ b.queue
  pub running : b'.running ≡ b.running
  pub fallbacks : b'.fallbacks ≡ b.fallbacks
  pub loose : b'.loose ≡ b.loose
  pub send_panic : b'.send_panic ≡ b.send_panic

pub complete_outbox_event-SamePool :
    (a : Answers) (id : ℕ) (b : Bus) → SamePool b (complete_outbox_event a id b)
unfolding complete_outbox_event
complete_outbox_event-SamePool a id b = ground arith

pub finish_listener-SamePool :
    (a : Answers) (id : ℕ) (b : Bus) → SamePool b (finish_listener a id b)
unfolding finish_listener count_down complete_outbox_event
finish_listener-SamePool a id b = ground arith

handle_failure-SamePool :
    (a : Answers) (t : Task) (error : Text) (b : Bus) → SamePool b (handle_failure a t error b)
unfolding handle_failure
handle_failure-SamePool a t error b = ground arith

pub after_listener-SamePool :
    (a : Answers) (t : Task) (error : Option Text) (b : Bus)
    → SamePool b (after_listener a t error b)
unfolding after_listener
after_listener-SamePool a t none b = finish_listener-SamePool a t.outbox_id b
after_listener-SamePool a t (some e) b = ground (
  arith,
  handle_failure-SamePool a t e b,
  finish_listener-SamePool a t.outbox_id (handle_failure a t e b),
)
