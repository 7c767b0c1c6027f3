-- ===== src/Briefs.antt =====
-- Briefs, applications for them and their notifications (src/briefs, src/applications).
pub mod State
pub mod Service
pub mod Notifications
pub mod Applications
pub mod Calls
pub mod Stable
pub mod Active
pub mod Closed
pub mod Decisions
pub mod Unread
mod Examples
