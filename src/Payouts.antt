-- ===== src/Payouts.antt =====
-- Withdrawals of released funds (src/payouts): the balance, the withdrawal through Stripe, and the
-- webhook that reports what became of it.
pub mod Service
pub mod Webhook
pub mod Solvency
pub mod Idempotence
pub mod Withdrawal
mod Examples
