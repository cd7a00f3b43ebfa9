-- ===== src/Bookings.antt =====
-- The controlled booking workflow: backend/app/services/bookings.py.
pub mod Documents
pub mod Parts
pub mod Applicants
pub mod Create
pub mod Flow
pub mod Approval
pub mod Sound
pub mod Made
pub mod Limit
pub mod Decision
