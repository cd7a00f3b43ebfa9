-- ===== src/Finance/Allocation.antt =====
-- `allocate_payment` of backend/app/services/finance.py. The session does not flush before a query,
-- so what the request has changed so far is not in what it reads from the database.
pub mod Loop
unfoldable pub use Loop.*
use real_estate_crm.Base.{
  ℕ, suc, ◌+◌, ◌-◌, min, Bool, true, false, not, ◌&&◌, ◌||◌, Option, none, some, List, [], ◌∷◌,
  ◌++◌, ltb, leb, ◌==◌, if◌then◌else◌, is_id,
}
use real_estate_crm.Base.Result.{Result, ok, ◌>>=◌, ◌>>◌, raise_if, or_raise}
use real_estate_crm.Base.Result.Codes.{
  payment_finalized, reconciliation_required, payment_plan_required, installment_booking_mismatch,
  unallocated_payment,
}
use real_estate_crm.Base.Table.{first_by, select, sort_by, sum_of, put, put_all, entity}
use real_estate_crm.Models.Enums.{
  BookingStatus, PaymentStatus, InstallmentStatus, LedgerEntryType, RecordStatus, is_open,
  is_matched, is_waived, is_active, is_completed, is_payment_pending,
}
use real_estate_crm.Models.Rows.{Booking}
use real_estate_crm.Models.Money.{
  Installment, DemandLetter, Payment, Receipt, PaymentAllocation, PaymentReconciliation,
  CustomerLedger, payment_ledger,
}
use real_estate_crm.Models.Store.{
  Store, Context, audit, queue_in_app, booking_row, installment_row, payment_row,
}
use real_estate_crm.Bookings.Parts.{payment_total}
use real_estate_crm.Finance.Accounts.{plan_of, installments_of, open_amount, collection_recipients}

pub record PaymentAllocationRequest : Type 0 where
  pub installment_ids : List ℕ
  pub allow_unallocated_credit : Bool
  pub has_manual_reason : Bool

-- The reconciliation of a payment that was made last.
abbrev pub last_reconciliation : ℕ → ℕ → List PaymentReconciliation → Option PaymentReconciliation
last_reconciliation org payment_id rows =
    first_by (λ p q. ltb q.reconciled_at p.reconciled_at)
      (select (λ r. (r.organization_id == org) && (r.payment_id == payment_id)) rows)

abbrev pub is_reconciled : Option PaymentReconciliation → Bool
is_reconciled none = false
is_reconciled (some r) = is_matched r.status

abbrev pub complete : Context → Payment → Payment
complete ctx p = record p {
  status = PaymentStatus.completed;
  verified_by_user_id = some ctx.actor_user_id;
  verified_at = some ctx.now;
}

abbrev pub verify : ℕ → Booking → Booking
verify now b = record b {
  status = BookingStatus.verification;
  submitted_at = some now;
  verification_completed_at = some now;
}

abbrev pub new_receipt : ℕ → Payment → Context → Receipt
new_receipt org p ctx = record {
  organization_id = org;
  id = ctx.new_id 0;
  payment_id = p.id;
  customer_id = p.customer_id;
  status = RecordStatus.active;
  issued_at = ctx.now;
}

abbrev pub payment_credit : ℕ → Booking → Payment → Context → CustomerLedger
payment_credit org b p ctx = record {
  organization_id = org;
  id = ctx.new_id 1;
  customer_id = b.customer_id;
  booking_id = some b.id;
  payment_id = some p.id;
  receipt_id = some (ctx.new_id 0);
  entry_type = LedgerEntryType.credit;
  amount = p.amount;
  currency = p.currency;
  idempotency_key = payment_ledger p.id;
  posted_at = ctx.now;
}

-- What the request writes once the loop is done. The total of the completed payments is read from
-- the database, where this payment is not yet completed.
unfoldable pub store_allocation :
    ℕ → Booking → Payment → List Installment → Allocated → Context → Store → Store
unfolding payment_total collection_recipients
store_allocation org b p rows result ctx s =
    let s1 =
      audit org (some ctx.actor_user_id) ctx.now "collection.payment.allocated" "payment" p.id s in
    let s2 =
      audit org (some ctx.actor_user_id) ctx.now "booking.payment.verified" "payment" p.id s1 in
    record s2 {
      installments = put_all result.paid (put_all rows s.installments);
      allocations = result.allocations ++ s.allocations;
      payments = put (complete ctx p) s.payments;
      bookings =
          if leb b.booking_amount (payment_total org b.id is_completed s)
            && is_payment_pending b.status
          then put (verify ctx.now b) s.bookings
          else s.bookings;
      receipts = new_receipt org p ctx ∷ s.receipts;
      ledger = payment_credit org b p ctx ∷ s.ledger;
      notifications =
          queue_in_app org (b.salesperson_user_id ∷ collection_recipients org s) "PAYMENT_RECEIVED"
            "payment" p.id ctx.now s.notifications;
    }

-- The part from the plan on.
unfoldable pub share_out :
    ℕ → Payment → Booking → PaymentAllocationRequest → Context → Store → Result Store
unfolding allocate_loop store_allocation plan_of installments_of ordered capacity
share_out org p b payload ctx s = do
  plan ← or_raise (plan_of org b.id s.plans) 409 payment_plan_required
  let refreshed = installments_of org plan.id ctx.today s.installments
  rows ← ordered payload.installment_ids refreshed
  raise_if (ltb (capacity rows) p.amount && not payload.allow_unallocated_credit) 409
      unallocated_payment
  ok (
      store_allocation org b p refreshed (allocate_loop org p.id ctx s.demands 1 rows p.amount) ctx
        s)

unfoldable pub allocate_payment : ℕ → ℕ → PaymentAllocationRequest → Context → Store → Result Store
unfolding share_out
allocate_payment org payment_id payload ctx s = do
  p ← entity org payment_id s.payments
  b ← entity org p.booking_id s.bookings
  raise_if (not (is_open p.status)) 409 payment_finalized
  raise_if
      (not (is_reconciled (last_reconciliation org p.id s.reconciliations))
        && not payload.has_manual_reason)
      409 reconciliation_required
  share_out org p b payload ctx s
