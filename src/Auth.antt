-- ===== src/Auth.antt =====
-- Accounts and sessions (src/auth, src/users): tokens that are issued, rotated and revoked,
-- passwords that are reset, and the guards of requests.
pub mod State
pub mod Sessions
pub mod Accounts
pub mod Calls
pub mod Guards
pub mod Stable
pub mod Revoked
pub mod Consumed
pub mod Deactivated
pub mod Rotation
pub mod Resets
pub mod Lockout
pub mod Permissions
pub mod Recovery
mod Examples
