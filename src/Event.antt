-- ===== src/Event.antt =====
-- framework/event: the event bus with its worker pool, outbox and dead letter queue.
pub mod Retry
pub mod Dlq
pub mod Redispatch
pub mod Bus
