-- ===== src/Events.antt =====
-- internal/infrastructure/events: the event store and the dead letter queue.
pub mod Store
pub mod DeadLetters
pub mod Bus
pub mod Retry
mod Examples
