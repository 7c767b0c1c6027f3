-- ===== src/Contracts.antt =====
-- Contracts between a brand and a creator (src/contracts): the services and what holds of them.
pub mod State
pub mod Service
pub mod Signatures
pub mod Latest
pub mod Invariant
pub mod Operations
pub mod Signing
pub mod Runs
pub mod Final
mod Examples
