-- ===== src/Bookings/Flow.antt =====
-- The booking before its approval: `advance_booking`, `set_payment_plan`, `set_financing`,
-- `create_payment` and `decide_payment` of backend/app/services/bookings.py.
use real_estate_crm.Base.{
  ℕ, ◌+◌, Bool, true, false, not, ◌&&◌, ◌||◌, Option, none, some, [], ◌∷◌, ltb, leb, ◌==◌,
  if◌then◌else◌, is_some, or_else,
}
use real_estate_crm.Base.Result.{Result, ok, ◌>>=◌, ◌>>◌, raise_if, Reply, commit_first}
use real_estate_crm.Base.Result.Codes.{
  resource_not_found, booking_flow_required, invalid_booking_transition, kyc_not_verified,
  booking_amount_not_paid, payment_plan_locked, financing_locked, payment_not_allowed,
  idempotency_conflict, installment_booking_mismatch, payment_exceeds_agreed_value,
  payment_finalized, finance_workflow_required,
}
use real_estate_crm.Base.Table.{first, put, entity}
use real_estate_crm.Models.Enums.{
  BookingStatus, PaymentStatus, is_final, is_approval, is_payment_pending, is_verification,
  is_committed, is_open,
}
use real_estate_crm.Models.Rows.{Booking}
use real_estate_crm.Models.Money.{Payment}
use real_estate_crm.Models.Store.{
  Store, Context, audit, queue_in_app, booking_row, payment_row, plan_row, installment_row,
}
use real_estate_crm.Bookings.Documents.{expire_due_documents, has_verified_kyc}
use real_estate_crm.Bookings.Parts.{
  PaymentPlanInput, FinancingInput, is_plan_of, add_plan, upsert_financing, payment_total,
}

-- `target in allowed.get(booking.status, set())`
abbrev pub advance_allowed : BookingStatus → BookingStatus → Bool
advance_allowed BookingStatus.draft BookingStatus.documentation_pending = true
advance_allowed BookingStatus.documentation_pending BookingStatus.payment_pending = true
advance_allowed BookingStatus.payment_pending BookingStatus.verification = true
advance_allowed _ _ = false

-- A booking of the short path has no quotation, hold, price or plan.
abbrev pub is_legacy : ℕ → Booking → Store → Bool
is_legacy org b s =
    not (is_some b.quotation_id)
    || not (is_some b.unit_hold_id)
    || not (is_some b.agreed_price)
    || not (is_some (first (is_plan_of org b.id) s.plans))

abbrev pub advanced : BookingStatus → ℕ → Booking → Booking
advanced target now b = record b {
  submitted_at = if is_verification target then some now else b.submitted_at;
  status = target;
}

abbrev pub store_advance : ℕ → Booking → Context → Store → Store
store_advance org b ctx s =
    let s1 = audit org (some ctx.actor_user_id) ctx.now "booking.status.changed" "booking" b.id s in
    record s1 {
      bookings = put b s.bookings;
      notifications =
          queue_in_app org (some b.booked_by_user_id ∷ b.salesperson_user_id ∷ [])
            "BOOKING_STATUS_CHANGED" "booking" b.id ctx.now s.notifications;
    }

unfoldable pub advance_body : ℕ → ℕ → BookingStatus → Context → Store → Result Store
advance_body org booking_id target ctx s = do
  b ← entity org booking_id s.bookings
  raise_if (is_legacy org b s) 409 booking_flow_required
  raise_if (not (advance_allowed b.status target)) 409 invalid_booking_transition
  raise_if (is_payment_pending target && not (has_verified_kyc org b.customer_id s)) 409
      kyc_not_verified
  raise_if (is_verification target && ltb (payment_total org b.id is_committed s) b.booking_amount)
      409 booking_amount_not_paid
  ok (store_advance org (advanced target ctx.now b) ctx s)

unfoldable pub advance_booking : ℕ → ℕ → BookingStatus → Context → Store → Reply Store
unfolding advance_body expire_due_documents
advance_booking org booking_id target ctx s =
    let s' = expire_due_documents org ctx s in
    commit_first s' (advance_body org booking_id target ctx s')

unfoldable pub set_payment_plan : ℕ → ℕ → PaymentPlanInput → Context → Store → Result Store
unfolding add_plan
set_payment_plan org booking_id payload ctx s = do
  b ← entity org booking_id s.bookings
  raise_if (is_final b.status || is_approval b.status) 409 payment_plan_locked
  s' ← add_plan org b payload ctx s
  ok (audit org (some ctx.actor_user_id) ctx.now "booking.payment_plan.updated" "booking" b.id s')

unfoldable pub set_financing : ℕ → ℕ → FinancingInput → Context → Store → Result Store
unfolding upsert_financing
set_financing org booking_id payload ctx s = do
  b ← entity org booking_id s.bookings
  raise_if (is_final b.status) 409 financing_locked
  ok (
      audit org (some ctx.actor_user_id) ctx.now "booking.financing.updated" "booking" b.id
        (upsert_financing org b.id payload ctx s))

pub record BookingPaymentCreate : Type 0 where
  pub installment_id : Option ℕ
  pub amount : ℕ
  pub idempotency_key : ℕ
  pub paid_at : Option ℕ

abbrev pub has_key : ℕ → ℕ → Payment → Bool
has_key org key p = (p.organization_id == org) && (p.idempotency_key == key)

abbrev pub new_payment : ℕ → Booking → BookingPaymentCreate → Context → Payment
new_payment org b payload ctx = record {
  organization_id = org;
  id = ctx.new_id 0;
  booking_id = b.id;
  customer_id = b.customer_id;
  installment_id = payload.installment_id;
  verified_by_user_id = none;
  amount = payload.amount;
  currency = b.currency;
  status = PaymentStatus.pending;
  idempotency_key = payload.idempotency_key;
  paid_at = some (or_else payload.paid_at ctx.now);
  verified_at = none;
  created_at = ctx.now;
}

-- `if payload.installment_id: ...`
unfoldable pub check_installment : ℕ → ℕ → Option ℕ → Store → Result (Unit {0})
check_installment org booking_id none s = ok tt
check_installment org booking_id (some k) s = do
  installment ← entity org k s.installments
  plan ← entity org installment.payment_plan_id s.plans
  raise_if (not (plan.booking_id == booking_id)) 422 installment_booking_mismatch

-- `booking.agreed_price is not None and amount > booking.agreed_price`
abbrev pub exceeds : Option ℕ → ℕ → Bool
exceeds none amount = false
exceeds (some price) amount = ltb price amount

abbrev pub submit : ℕ → Booking → Booking
submit now b = record b { status = BookingStatus.verification; submitted_at = some now }

-- The payment, and the booking where the payments now cover its amount.
abbrev pub store_payment : ℕ → Booking → Payment → ℕ → Context → Store → Store
store_payment org b p committed ctx s =
    let s1 =
      audit org (some ctx.actor_user_id) ctx.now "booking.payment.submitted" "payment" p.id s in
    record s1 {
      payments = p ∷ s.payments;
      bookings =
          if leb b.booking_amount (committed + p.amount)
          then put (submit ctx.now b) s.bookings
          else s.bookings;
    }

-- The payment of a new idempotency key.
unfoldable pub submit_payment : ℕ → Booking → BookingPaymentCreate → Context → Store → Result Store
unfolding check_installment payment_total
submit_payment org b payload ctx s = do
  check_installment org b.id payload.installment_id s
  let committed = payment_total org b.id is_committed s
  raise_if (exceeds b.agreed_price (committed + payload.amount)) 422 payment_exceeds_agreed_value
  ok (store_payment org b (new_payment org b payload ctx) committed ctx s)

unfoldable pub create_payment : ℕ → ℕ → BookingPaymentCreate → Context → Store → Result Store
create_payment org booking_id payload ctx s = do
  b ← entity org booking_id s.bookings
  raise_if (not (is_payment_pending b.status || is_verification b.status)) 409 payment_not_allowed
  elim (first (has_key org payload.idempotency_key) s.payments) [
    | some p ↦ do
      raise_if (not (p.booking_id == b.id) || not (p.amount == payload.amount)) 409
          idempotency_conflict
      ok s
    | none ↦ submit_payment org b payload ctx s
  ]

-- `payload.status` is "COMPLETED" or "FAILED"; a completion is refused here, so what follows it in
-- the source for a completed payment is never reached.
unfoldable pub decide_payment : ℕ → ℕ → ℕ → (completed : Bool) → Context → Store → Result Store
decide_payment org booking_id payment_id completed ctx s = do
  b ← entity org booking_id s.bookings
  p ← entity org payment_id s.payments
  raise_if (not (p.booking_id == b.id)) 404 resource_not_found
  raise_if (not (is_open p.status)) 409 payment_finalized
  raise_if completed 409 finance_workflow_required
  let failed = record p {
    status = PaymentStatus.failed;
    verified_by_user_id = some ctx.actor_user_id;
    verified_at = some ctx.now;
  }
  let s1 = audit org (some ctx.actor_user_id) ctx.now "booking.payment.failed" "payment" p.id s
  ok (record s1 { payments = put failed s.payments })
