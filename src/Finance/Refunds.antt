-- ===== src/Finance/Refunds.antt =====
-- Refunds: `request_refund`, `decide_refund` and `process_refund` of
-- backend/app/services/finance.py. As in the allocation, a query does not see what the request has
-- changed and not yet flushed.
pub mod Reversal
unfoldable pub use Reversal.*
use real_estate_crm.Base.{
  ℕ, ◌+◌, ◌-◌, min, String, Bool, not, ◌&&◌, ◌||◌, Option, none, some, List, [], ◌∷◌, map, ltb, leb,
  ◌==◌, if◌then◌else◌, is_some, is_id, or_else, elem,
}
use real_estate_crm.Base.Result.{Result, ok, err, ◌>>=◌, ◌>>◌, raise_if, or_raise}
use real_estate_crm.Base.Result.Codes.{
  payment_not_refundable, refund_exceeds_payment, refund_finalized, self_approval_not_allowed,
  refund_not_approved,
}
use real_estate_crm.Base.Table.{first, select, sort_by, sum_of, put, entity}
use real_estate_crm.Models.Enums.{
  PaymentStatus, InstallmentStatus, LedgerEntryType, is_settled, is_committed, is_pending_payment,
  is_processing, is_completed,
}
use real_estate_crm.Models.Money.{
  Installment, Payment, PaymentAllocation, CustomerLedger, Refund, refund_processed,
}
use real_estate_crm.Models.Store.{
  Store, Context, audit, installment_row, payment_row, allocation_row, refund_row,
}

pub record RefundCreate : Type 0 where
  pub amount : ℕ
  pub reason : String
  pub idempotency_key : ℕ

abbrev pub has_refund_key : ℕ → ℕ → Refund → Bool
has_refund_key org key r = (r.organization_id == org) && is_id r.idempotency_key key

-- The refunds of a payment in some statuses.
abbrev pub is_refund_of : ℕ → ℕ → (PaymentStatus → Bool) → Refund → Bool
is_refund_of org payment_id status r =
    (r.organization_id == org) && is_id r.payment_id payment_id && status r.status

abbrev pub refund_total : ℕ → ℕ → (PaymentStatus → Bool) → List Refund → ℕ
refund_total org payment_id status = sum_of (is_refund_of org payment_id status) (λ r. r.amount)

abbrev pub new_refund : ℕ → Payment → RefundCreate → Context → Refund
new_refund org p payload ctx = record {
  organization_id = org;
  id = ctx.new_id 0;
  cancellation_id = none;
  booking_id = some p.booking_id;
  payment_id = some p.id;
  customer_id = p.customer_id;
  requested_by_user_id = some ctx.actor_user_id;
  approved_by_user_id = none;
  status = PaymentStatus.pending;
  amount = payload.amount;
  currency = p.currency;
  reference_number = none;
  reason = some payload.reason;
  decision_notes = none;
  idempotency_key = some payload.idempotency_key;
  requested_at = ctx.now;
  approved_at = none;
  rejected_at = none;
  processed_at = none;
}

unfoldable pub request_refund : ℕ → ℕ → RefundCreate → Context → Store → Result Store
request_refund org payment_id payload ctx s = do
  p ← entity org payment_id s.payments
  raise_if (not (is_settled p.status)) 409 payment_not_refundable
  elim (first (has_refund_key org payload.idempotency_key) s.refunds) [
    | some existing ↦ ok s
    | none ↦ do
      raise_if (ltb p.amount (refund_total org p.id is_committed s.refunds + payload.amount)) 422
          refund_exceeds_payment
      let item = new_refund org p payload ctx
      let s1 =
          audit org (some ctx.actor_user_id) ctx.now "collection.refund.requested" "refund" item.id
            s
      ok (record s1 { refunds = item ∷ s.refunds })
  ]

-- `payload.status` is "APPROVED" or "REJECTED".
abbrev pub decide : Bool → String → Context → Refund → Refund
decide approved notes ctx r = record r {
  approved_by_user_id = some ctx.actor_user_id;
  decision_notes = some notes;
  status = if approved then PaymentStatus.processing else PaymentStatus.failed;
  approved_at = if approved then some ctx.now else r.approved_at;
  rejected_at = if approved then r.rejected_at else some ctx.now;
}

unfoldable pub decide_refund : ℕ → ℕ → Bool → String → Context → Store → Result Store
decide_refund org refund_id approved notes ctx s = do
  r ← entity org refund_id s.refunds
  raise_if (not (is_pending_payment r.status)) 409 refund_finalized
  raise_if (is_id r.requested_by_user_id ctx.actor_user_id) 403 self_approval_not_allowed
  let s1 = audit org (some ctx.actor_user_id) ctx.now "collection.refund.decided" "refund" r.id s
  ok (record s1 { refunds = put (decide approved notes ctx r) s.refunds })

abbrev pub refunded : Payment → Payment
refunded p = record p { status = PaymentStatus.refunded }

-- The payments with no live allocation in the database, where the reversals of this request are
-- not flushed yet.
abbrev pub close_payments : ℕ → List PaymentAllocation → List Payment → List Payment → List Payment
close_payments org allocations [] payments = payments
close_payments org allocations (p ∷ ps) payments = close_payments org allocations ps (
    if is_some (first (is_live_allocation org (p.id ∷ [])) allocations)
    then payments
    else put (refunded p) payments)

-- `if item.payment_id: ...`: the payment is refunded once the completed refunds, of which this one
-- is not in the database yet, and this one cover it.
abbrev pub close_covered : ℕ → Refund → List Refund → List Payment → List Payment → List Payment
close_covered org r refunds [] payments = payments
close_covered org r refunds (p ∷ ps) payments =
    if is_some r.payment_id && leb p.amount (refund_total org p.id is_completed refunds + r.amount)
    then put (refunded p) payments
    else payments

abbrev pub processed : String → Context → Refund → Refund
processed reference ctx r = record r {
  status = PaymentStatus.completed;
  reference_number = some reference;
  processed_at = some ctx.now;
}

abbrev pub refund_debit : ℕ → Refund → Context → CustomerLedger
refund_debit org r ctx = record {
  organization_id = org;
  id = ctx.new_id 1;
  customer_id = r.customer_id;
  booking_id = r.booking_id;
  payment_id = r.payment_id;
  receipt_id = none;
  entry_type = LedgerEntryType.debit;
  amount = r.amount;
  currency = r.currency;
  idempotency_key = refund_processed r.id;
  posted_at = ctx.now;
}

abbrev pub store_refund : ℕ → Refund → List Payment → Reversed → String → Context → Store → Store
store_refund org r payments result reference ctx s =
    let s1 =
      audit org (some ctx.actor_user_id) ctx.now "collection.refund.processed" "refund" r.id s in
    record s1 {
      installments = result.installments;
      allocations = result.allocations;
      payments =
          close_covered org r s.refunds payments
            (close_payments org s.allocations payments s.payments);
      refunds = put (processed reference ctx r) s.refunds;
      ledger = refund_debit org r ctx ∷ s.ledger;
    }

-- The payments of a refund, and what the loop over their allocations leaves.
unfoldable pub take_back : ℕ → Refund → ℕ → Context → Store → Result (List Payment × Reversed)
unfolding reverse_loop refunded_payments
take_back org r booking_id ctx s = do
  payments ← refunded_payments org booking_id r.payment_id r.cancellation_id s.payments
  result ←
      reverse_loop org ctx
        (live_allocations org (map (λ (p : Payment). p.id) payments) s.allocations)
        (record {
          installments = s.installments;
          allocations = s.allocations;
          remaining = r.amount;
        })
  ok (payments, result)

unfoldable pub process_refund : ℕ → ℕ → String → Context → Store → Result Store
unfolding take_back
process_refund org refund_id reference ctx s = do
  r ← entity org refund_id s.refunds
  raise_if (not (is_processing r.status)) 409 refund_not_approved
  booking_id ← or_raise r.booking_id 409 refund_not_approved
  (payments, result) ← take_back org r booking_id ctx s
  ok (store_refund org r payments result reference ctx s)
