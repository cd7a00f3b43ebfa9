-- ===== src/Finance.antt =====
-- Collections: backend/app/services/finance.py.
pub mod Accounts
pub mod Payments
pub mod Allocation
pub mod Charges
pub mod Refunds
pub mod Conservation
pub mod RefundLimit
pub mod Balance
pub mod Order
