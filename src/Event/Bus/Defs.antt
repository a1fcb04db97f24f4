-- ===== src/Event/Bus/Defs.antt =====
-- event_bus.go: the state of the bus and its atomic operations.
use springo.Base.{
  ℕ, ◌+◌, Bool, false, not, ◌||◌, List, [], ◌∷◌, ◌++◌, Option, none, some, Text, ◌==◌, text_key,
  nat_key, nat_eqb, lookup, insert, delete, if◌then◌else◌, codes, ℤ, negsuc, ◌+ℤ◌, pos_part,
}
use springo.Event.Retry.{
  RowStatus, pending, processed, FailedEvent, DlqProperties, calculate_next_retry,
}

-- The rejection policies, as the switch of dispatchAcceptingPool tells them apart.
pub data Policy : Type 0 where
  block discard fallback : Policy
  other : Text → Policy

-- `text` is the configured policy in lower case.
unfoldable pub policy_of : Text → Policy
policy_of text =
    if text == []
    then block
    else if text == codes "block"
    then block
    else if text == codes "discard"
    then discard
    else if text == codes "fallback"
    then fallback
    else other text

-- A unit of work with what its context says of it: the listener's name and the trace.
pub record Task : Type 0 where
  pub event_name : Text
  pub payload : Text
  pub listener : Text
  pub trace_id : Text
  pub outbox_id : ℕ

-- How far a publisher is with the handler that it dispatches to.
pub data Phase : Type 0 where
  between : Phase
  captured admitted : Task → Phase

-- A goroutine in `dispatch`, with the handlers that it has not come to.
pub record Publisher : Type 0 where
  pub phase : Phase
  pub rest : List Task

-- Where the one pool is in its life: not started; live; and in StopWorkerPool unlinked from
-- `currentPool`, refusing, with its queue closed, and returned.
pub data Stage : Type 0 where
  absent live unlinked refusing closed stopped : Stage

pub record Settings : Type 0 where
  pub outbox_enabled : Bool
  pub cleanup : Bool
  pub dlq : DlqProperties
  pub has_db : Bool

pub record Bus : Type 0 where
  pub settings : Settings
  pub stage : Stage
  pub size : ℕ
  pub capacity : ℕ
  pub policy : Policy
  pub publishers : List Publisher
  pub queue : List Task
  pub running : List Task
  pub fallbacks : List Task
  pub loose : List Task
  pub discarded : ℕ
  pub counters : List (ℕ × ℤ)
  pub outbox : List (ℕ × RowStatus)
  pub dlq_rows : List FailedEvent
  pub send_panic : Bool

unfoldable pub init : Settings → Bus
init s = record {
  settings = s;
  stage = absent;
  size = 0;
  capacity = 0;
  policy = block;
  publishers = [];
  queue = [];
  running = [];
  fallbacks = [];
  loose = [];
  discarded = 0;
  counters = [];
  outbox = [];
  dlq_rows = [];
  send_panic = false;
}

-- What the database answers to the writes of one step.
pub record Answers : Type 0 where
  pub outbox_write : Bool
  pub dlq_write : Bool
  pub now : ℕ
  pub new_id : ℕ

unfoldable pub complete_outbox_event : Answers → ℕ → Bus → Bus
complete_outbox_event a id b =
    if nat_eqb id 0 || not b.settings.outbox_enabled || not b.settings.has_db || not a.outbox_write
    then b
    else if b.settings.cleanup
    then record b { outbox = delete id b.outbox }
    else record b {
      outbox = elim (lookup id b.outbox) [
        | none ↦ b.outbox
        | some _ ↦ insert id processed b.outbox
      ];
    }

-- A counter that has come to zero or below is deleted, and its event completed.
unfoldable pub count_down : Answers → ℕ → ℤ → Bus → Bus
count_down a id n b =
    let left = n +ℤ negsuc 0 in
    if nat_eqb (pos_part left) 0
    then complete_outbox_event a id (record b { counters = delete id b.counters })
    else record b { counters = insert id left b.counters }

-- One step, though the source takes its lock twice and writes in between.
unfoldable pub finish_listener : Answers → ℕ → Bus → Bus
finish_listener a id b =
    if nat_eqb id 0
    then b
    else elim (lookup id b.counters) [ none ↦ b | some n ↦ count_down a id n b ]

unfoldable pub handle_failure : Answers → Task → Text → Bus → Bus
handle_failure a t error b =
    if not b.settings.dlq.enabled || not b.settings.has_db || not a.dlq_write then b else record b {
      dlq_rows =
          b.dlq_rows
          ++ (record {
            id = a.new_id;
            event_name = t.event_name;
            payload = t.payload;
            listener_name = t.listener;
            error = error;
            retries = 0;
            status = pending;
            trace_id = t.trace_id;
            next_retry_at = some (calculate_next_retry a.now 0 (some b.settings.dlq));
            updated_at = a.now;
          })
            ∷ [];
    }

-- What follows a listener that returned or panicked: `error` is the error that it left.
unfoldable pub after_listener : Answers → Task → Option Text → Bus → Bus
after_listener a t error b =
    finish_listener a t.outbox_id (elim error [ none ↦ b | some e ↦ handle_failure a t e b ])

unfoldable pub count_discarded : Bus → Bus
count_discarded b = record b { discarded = b.discarded + 1 }
