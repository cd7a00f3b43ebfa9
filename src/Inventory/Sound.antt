-- ===== src/Inventory/Sound.antt =====
-- The soundness of the inventory, operation by operation.
pub mod Core
pub mod Holding
pub mod Expiry
pub mod Holds
pub mod Bulk
pub mod Desk
pub mod Read
pub mod Due
pub mod Progress
