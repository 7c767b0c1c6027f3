-- ===== src/Orders.antt =====
-- Orders and stock (src/orders, src/products/services/stock.service.ts): checkout, the order's
-- life, refunds, shipments and the payment webhook, over the tables of `State`.
pub mod State
pub mod Cart
pub mod Checkout
pub mod Grouping
pub mod Costs
pub mod Lines
pub mod Stock
pub mod Service
pub mod Refunds
pub mod Shipments
pub mod Webhook
pub mod Calls
pub mod Inventory
pub mod Settlement
pub mod Idempotence
mod Examples
