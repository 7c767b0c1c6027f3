-- ===== src/Payments.antt =====
-- Payments in escrow (src/payments): creation with the platform's share, release, refund, and the
-- Stripe webhook with its outbox event.
pub mod State
pub mod Service
pub mod Release
pub mod Webhook
pub mod Fees
pub mod Idempotence
pub mod Calls
pub mod Escrow
mod Examples
