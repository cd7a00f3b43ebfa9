-- ===== src/PostSales/Cancel.antt =====
-- The cancellation of a confirmed booking: `_paid_amount`, `request_cancellation`,
-- `review_cancellation`, `decide_cancellation` and `complete_cancellation` of
-- backend/app/services/post_sales.py. The file of the cancellation is left out.
use real_estate_crm.Base.{
  ℕ, ◌-◌, ◌*◌, min, String, Bool, true, false, not, ◌&&◌, ◌||◌, none, some, List, ◌∷◌, ◌==◌, is_id,
  is_some, if◌then◌else◌,
}
use real_estate_crm.Base.Money.{round_div}
use real_estate_crm.Base.Result.{Result, ok, ◌>>=◌, ◌>>◌, raise_if}
use real_estate_crm.Base.Result.Codes.{
  booking_not_cancellable, active_cancellation_exists, invalid_cancellation_transition,
  self_approval_not_allowed,
}
use real_estate_crm.Base.Table.{first, sum_of, put, entity}
use real_estate_crm.Models.Enums.{
  UnitStatus, WorkflowStatus, is_settled, is_completed, is_confirmed,
}
use real_estate_crm.Models.Money.{Payment, Refund}
use real_estate_crm.Models.PostSales.{Cancellation, cancellation_row}
use real_estate_crm.Models.Store.{Store, Context, audit, unit_row, booking_row}

abbrev is_payment_of : ℕ → ℕ → Payment → Bool
is_payment_of org booking_id p =
    (p.organization_id == org) && (p.booking_id == booking_id) && is_settled p.status

abbrev is_repaid_of : ℕ → ℕ → Refund → Bool
is_repaid_of org booking_id r =
    (r.organization_id == org) && is_id r.booking_id booking_id && is_completed r.status

-- `max(paid - refunded, ZERO)`
unfoldable pub paid_amount : ℕ → ℕ → Store → ℕ
paid_amount org booking_id s =
    sum_of (is_payment_of org booking_id) (λ p. p.amount) s.payments
    - sum_of (is_repaid_of org booking_id) (λ r. r.amount) s.refunds

abbrev pub is_requested : WorkflowStatus → Bool
is_requested WorkflowStatus.requested = true
is_requested _ = false

abbrev pub is_under_review : WorkflowStatus → Bool
is_under_review WorkflowStatus.under_review = true
is_under_review _ = false

-- `unit.status in (UnitStatus.BOOKED, UnitStatus.SOLD)`
abbrev pub is_taken : UnitStatus → Bool
is_taken UnitStatus.booked = true
is_taken UnitStatus.sold = true
is_taken _ = false

abbrev pub is_active_cancellation : ℕ → ℕ → Cancellation → Bool
is_active_cancellation org booking_id c =
    (c.organization_id == org) && is_id c.active_booking_key booking_id

abbrev pub new_cancellation : ℕ → ℕ → String → Context → Cancellation
new_cancellation org booking_id reason ctx = record {
  organization_id = org;
  id = ctx.new_id 0;
  booking_id = booking_id;
  requested_by_user_id = ctx.actor_user_id;
  reviewed_by_user_id = none;
  approved_by_user_id = none;
  status = WorkflowStatus.requested;
  reason = reason;
  review_notes = none;
  decision_notes = none;
  active_booking_key = some booking_id;
  paid_amount_snapshot = 0;
  deduction_amount = 0;
  refund_amount = 0;
  requested_at = ctx.now;
  reviewed_at = none;
  decided_at = none;
  unit_released_at = none;
  completed_at = none;
}

-- The audit of a step, and the cancellations that it leaves.
abbrev pub store_cancellations : ℕ → String → ℕ → List Cancellation → Context → Store → Store
store_cancellations org action cancellation_id rows ctx s =
    let p = s.post_sales in
    let s1 = audit org (some ctx.actor_user_id) ctx.now action "cancellation" cancellation_id s in
    record s1 { post_sales = record p { cancellations = rows } }

unfoldable pub request_cancellation : ℕ → ℕ → String → Context → Store → Result Store
request_cancellation org booking_id reason ctx s = do
  b ← entity org booking_id s.bookings
  raise_if (not (is_confirmed b.status)) 409 booking_not_cancellable
  raise_if (is_some (first (is_active_cancellation org b.id) s.post_sales.cancellations)) 409
      active_cancellation_exists
  ok (
      store_cancellations org "cancellation.requested" (ctx.new_id 0)
        (new_cancellation org b.id reason ctx ∷ s.post_sales.cancellations) ctx s)

-- The value counts ten-thousandths, of the currency or of a percent.
pub data Deduction : Type 0 where
  fixed percentage : ℕ → Deduction

-- `_money(min(deduction, paid))`
unfoldable pub deduction_amount : Deduction → ℕ → ℕ
unfolding round_div
deduction_amount (Deduction.fixed value) paid = round_div (min value (paid * 100)) 100
deduction_amount (Deduction.percentage value) paid =
    round_div (min (paid * value) (paid * 1_000_000)) 1_000_000

abbrev pub reviewed : Deduction → String → ℕ → Context → Cancellation → Cancellation
reviewed deduction notes paid ctx c = record c {
  status = WorkflowStatus.under_review;
  reviewed_by_user_id = some ctx.actor_user_id;
  review_notes = some notes;
  reviewed_at = some ctx.now;
  paid_amount_snapshot = paid;
  deduction_amount = deduction_amount deduction paid;
  refund_amount = paid - deduction_amount deduction paid;
}

unfoldable pub review_cancellation : ℕ → ℕ → Deduction → String → Context → Store → Result Store
unfolding paid_amount deduction_amount
review_cancellation org cancellation_id deduction notes ctx s = do
  c ← entity org cancellation_id s.post_sales.cancellations
  raise_if (not (is_requested c.status)) 409 invalid_cancellation_transition
  let c' = reviewed deduction notes (paid_amount org c.booking_id s) ctx c
  ok (
      store_cancellations org "cancellation.reviewed" c.id (put c' s.post_sales.cancellations) ctx
        s)

abbrev pub decided_cancellation : Bool → String → Context → Cancellation → Cancellation
decided_cancellation approved notes ctx c = record c {
  approved_by_user_id = some ctx.actor_user_id;
  decision_notes = some notes;
  decided_at = some ctx.now;
  status = if approved then WorkflowStatus.approved else WorkflowStatus.rejected;
  active_booking_key = if approved then c.active_booking_key else none;
}

unfoldable pub decide_cancellation : ℕ → ℕ → Bool → String → Context → Store → Result Store
decide_cancellation org cancellation_id approved notes ctx s = do
  c ← entity org cancellation_id s.post_sales.cancellations
  raise_if (not (is_under_review c.status)) 409 invalid_cancellation_transition
  raise_if
      ((c.requested_by_user_id == ctx.actor_user_id)
        || is_id c.reviewed_by_user_id ctx.actor_user_id)
      403 self_approval_not_allowed
  ok (
      store_cancellations org "cancellation.decided" c.id
        (put (decided_cancellation approved notes ctx c) s.post_sales.cancellations) ctx s)
