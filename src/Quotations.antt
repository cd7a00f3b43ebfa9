-- ===== src/Quotations.antt =====
-- Discounts, cost sheets and quotations: backend/app/services/quotations.py.
pub mod Levels
pub mod Status
pub mod Lines
pub mod Gross
pub mod CostSheet
pub mod Settled
pub mod Totals
pub mod Discounts
pub mod Versions
pub mod Sheets
pub mod Requests
pub mod Life
pub mod Refines
pub mod Waiting
pub mod Trace
pub mod Progress
pub mod Latest
