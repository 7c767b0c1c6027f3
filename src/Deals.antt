-- ===== src/Deals.antt =====
-- Deals and their negotiation (src/deals): the deal's status, and proposals that supersede each
-- other until one is accepted.
pub mod Service
pub mod Proposals
pub mod Calls
pub mod Pending
pub mod Invariant
pub mod Health
pub mod Scores
mod Examples
