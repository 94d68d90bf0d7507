-- ===== src/Inventory.antt =====
-- The inventory module (backend/app/modules/inventory): the stock cache, the movement ledger, and
-- the catalogue of products and warehouses.
pub mod Stock
pub mod Movements
pub mod Catalog
pub mod Reports
