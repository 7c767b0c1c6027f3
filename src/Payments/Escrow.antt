-- ===== src/Payments/Escrow.antt =====
-- The money held for each split (src/payments): what `release` may transfer, under every call.
pub mod Allowance
pub mod Loop
pub mod Calls
pub mod Creation
pub mod Safety
