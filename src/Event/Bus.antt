-- ===== src/Event/Bus.antt =====
-- event_bus.go: publishers, the worker pool and the outbox counters, as steps that the scheduler of
-- the Go runtime interleaves. A step is what runs under one lock or one channel operation.
pub mod Defs
pub mod Steps
pub mod Frame
pub mod Shutdown
pub mod Counters
pub mod Outstanding
pub mod Completion
mod Tests
