-- ===== src/Events.antt =====
-- Domain events: the outbox, its worker, the dead letters and the replay (src/events).
pub mod State
pub mod Worker
pub mod Replay
pub mod Once
pub mod Delivery
pub mod Summary
mod Examples
