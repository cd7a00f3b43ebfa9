-- ===== src/Workflow.antt =====
-- The services together: what every sequence of requests keeps of the inventory and its bookings
-- (backend/app/services/inventory.py, bookings.py, finance.py, post_sales.py and partners.py).
pub mod Locked
pub mod Frames
pub mod Moves
pub mod Occupancy
pub mod Controlled
pub mod Sales
pub mod Reach
pub mod Payout
