-- ===== src/Inventory.antt =====
-- Units, holds and the short booking path: backend/app/services/inventory.py.
pub mod Expiry
pub mod Holds
pub mod Desk
pub mod Sound
