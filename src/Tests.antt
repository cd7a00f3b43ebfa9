-- ===== src/Tests.antt =====
-- Concrete runs of the modelled services, and the theorems at them.
mod Sample
mod Inventory
mod Bookings
mod Finance
mod Quotations
mod Pricing
mod Revisions
mod PostSales
mod Payouts
