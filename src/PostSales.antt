-- ===== src/PostSales.antt =====
-- After a sale: backend/app/services/post_sales.py.
pub mod Cancel
pub mod Complete
pub mod Sound
pub mod Plan
pub mod Moved
pub mod Transfer
pub mod Move
pub mod Exchange
pub mod Relocated
