-- ===== src/Drops.antt =====
-- Drops and their publication (src/drops): drafts that are scheduled, published and archived.
pub mod State
pub mod Slugs
pub mod Readiness
pub mod Service
pub mod Calls
pub mod Machine
pub mod Courses
mod Examples
