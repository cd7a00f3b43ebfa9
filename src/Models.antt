-- ===== src/Models.antt =====
-- The rows of the database (backend/app/models/) and the store that holds them.
pub mod Enums
pub mod Rows
pub mod Money
pub mod Rules
pub mod Pricing
pub mod PostSales
pub mod Store
