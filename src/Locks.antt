-- ===== src/Locks.antt =====
-- Locks in Redis and the interceptor of idempotency keys (src/common/locking,
-- src/common/idempotency).
pub mod Redis
pub mod Service
pub mod Idempotency
pub mod Holder
pub mod Replayed
mod Examples
