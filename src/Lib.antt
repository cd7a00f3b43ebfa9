-- ===== src/Lib.antt =====
-- Sales, booking and collections of the Real Estate CRM: the services under backend/app/services that
-- decide who gets a unit and where a customer's money goes.
--
-- The program is a web service. A route checks the caller's permission and hands the request to a
-- service function with a database session. The function reads rows under lock, raises `AppError`
-- where a rule forbids the request, changes rows, writes audit entries and in-app notifications, and
-- commits. An error before the commit leaves the database as it was.
--
-- The model keeps this shape. `Models.Store.Store` is the database as one record of tables, each a list
-- of rows (backend/app/models). An operation is a function from the organization, the identifiers and
-- payload of the request, a `Context` (user, clock, new identifiers) and a store to `Result Store`:
-- `ok` with the store after the commit, or `err` with the status and code of the error. Where a request
-- commits first and may fail later (the expiry of holds or documents), the result is a `Reply` with
-- the store and the error that was raised after the commit.
--
--   Base        results, tables (`find` by key, `put`, `select`, sums), integers, decimals, amounts and
--               rounding
--   Models      enums, rows, the store, audit and notifications (models/, services/notifications.py);
--               Rules has the rules of a price list and the request for a cost sheet
--               (schemas/quotations.py), Pricing and PostSales have the rows of these services
--   Inventory   services/inventory.py: Expiry (_mark_hold_expired, _expire_hold, expire_due_holds),
--               Holds (create_hold, decide_hold, release_hold), Desk (transition_unit_status,
--               initiate_booking, transition_booking and its route in api/v1/inventory.py), and the
--               soundness of the inventory under Sound
--   Bookings    services/bookings.py: Documents (_has_verified_kyc, expire_due_documents of
--               services/documents.py), Parts (_add_applicants, _add_plan, _upsert_financing),
--               Applicants (replace_joint_applicants), Create (create_booking), Flow
--               (advance_booking, set_payment_plan, set_financing, create_payment, decide_payment),
--               Approval (request_approval, decide_approval, cancel_booking), and their laws in Sound,
--               Made, Limit and Decision
--   Partners    services/partners.py: accrue_booking_commission, Payouts (decide_commission,
--               request_payout, decide_payout, process_payout), and their laws in Bounds and Paid
--   Finance     services/finance.py: Accounts (_plan, _installments, _account), Payments
--               (create_demand, create_payment as collect_payment, reconcile_payment), Allocation
--               (allocate_payment), Charges (create_charge, waive_charge), Refunds (request_refund,
--               decide_refund, process_refund), and their laws in Conservation, RefundLimit, Balance
--               and Order
--   Quotations  services/quotations.py: Levels (_approval_level and the validation of the matrix in
--               schemas/quotations.py), Lines, Gross and CostSheet (calculate_cost_sheet with _rule_matches
--               and _line_amount), Discounts (create_cost_sheet, decide_discount), Versions
--               (_create_quotation_record, create_quotation, create_quotation_version), Status
--               (change_quotation_status), and their laws in Settled, Totals, Sheets, Requests, Waiting,
--               Progress and Latest. Life has the abstract life of a cost sheet: a stage, and the moves by which a
--               user changes it; Refines relates the requests to it, and Trace sequences of requests
--   PostSales   services/post_sales.py: Cancel (_paid_amount, request_cancellation,
--               review_cancellation, decide_cancellation), Complete (complete_cancellation), Plan
--               (_revise_plan), Transfer (_unit_is_available, request_transfer, review_transfer,
--               decide_transfer), Move (complete_transfer), and their laws in Sound, Moved, Exchange
--               and Relocated
--   Workflow    the services together: the requests as steps of a relation on stores (Reach, and Sales
--               for those that leave units, holds and bookings alone), and a payout that meets a
--               cancellation (Payout)
--   Tests       a sample organization and the theorems at concrete requests
--
-- The services meet in the store. A hold reserves a unit, `initiate_booking` and `create_booking`
-- convert it into a booking that occupies the unit by its `active_unit_key`, payments move the booking
-- to its verification, approvals confirm it and accrue the commission of a partner, and a rejection
-- or a cancellation gives the unit back. The price of a booking comes from an accepted quotation, the
-- quotation from an approved cost sheet, and a cost sheet whose discount exceeds a limit waits for an
-- approver of its level. After the sale, a completed cancellation releases the unit and makes a refund
-- that Finance processes, and a completed transfer moves the booking and its payments to another unit;
-- both change the commissions of the booking, which payouts collect.
--
-- Amounts are whole cents and rates ten thousandths of a percent, as in the columns; Python's
-- Decimal is exact on them, so no overflow is modelled. The rules of a price list and the yearly
-- rate of a charge have any number of decimals: `Base.Decimal.Decimal` is a signed whole number with its decimal places, `Unsigned`
-- one that a schema keeps at zero or above, and `money` rounds to cents, a half away from zero.
-- The percentages of a discount policy share a unit, of `decimals` places beyond the fourth. A
-- quotient that is rounded at once (a percentage) is rounded once, from the exact value. Dates are
-- days and times microseconds. Differences of amounts that the source cuts off at zero are
-- subtraction on natural numbers. The loops run over lists of rows, so no fuel is needed.
-- Identifiers, numbers and codes are natural numbers, since they are only compared. The session is
-- configured without autoflush, so a query does not see changes of its own request that are not
-- flushed, and the model writes out which tables each query reads.
--
-- Not modelled: columns that no modelled operation reads or writes, snapshots in audit entries, the
-- texts of notifications, row locks (a request is one step), the views that a request returns, the
-- files that post sales render, the creation, update and deletion of price lists, and the other
-- services: rentals, leads, customers, the onboarding of partners, property lifecycle, service
-- requests, organization and authentication. That the project of a unit exists follows from a
-- foreign key. The clock of a request is read once, where the source reads it at each use.
pub mod Base
pub mod Models
pub mod Inventory
pub mod Partners
pub mod Bookings
pub mod Finance
pub mod Quotations
pub mod PostSales
pub mod Workflow
pub mod Tests
