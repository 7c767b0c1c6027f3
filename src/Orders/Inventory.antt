-- ===== src/Orders/Inventory.antt =====
-- The inventory: the stock of src/products and the journal of its movements under the calls.
pub mod Balance
pub mod Restock
pub mod Calls
pub mod Stocked
