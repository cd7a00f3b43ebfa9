-- ===== src/PostSales/Transfer.antt =====
-- The transfer of a confirmed booking to another unit: `_unit_is_available`, `request_transfer`,
-- `review_transfer`, `decide_transfer` and `complete_transfer` of
-- backend/app/services/post_sales.py. The file of the transfer is left out.
use real_estate_crm.Base.{
  ℕ, ◌+◌, String, Bool, not, ◌&&◌, ◌||◌, none, some, List, [], ◌∷◌, ◌==◌, is_id, is_some, or_else,
  if◌then◌else◌,
}
use real_estate_crm.Base.Int.{sub_ℕ}
use real_estate_crm.Base.Result.{Result, ok, ◌>>=◌, ◌>>◌, raise_if, or_raise}
use real_estate_crm.Base.Result.Codes.{
  booking_not_transferable, invalid_transfer_quotation, currency_mismatch, target_unit_unavailable,
  payment_plan_total_mismatch, active_transfer_exists, invalid_transfer_transition,
  transfer_terms_changed, self_approval_not_allowed,
}
use real_estate_crm.Base.Table.{first, put, entity}
use real_estate_crm.Models.Enums.{
  WorkflowStatus, is_available, is_confirmed, is_accepted, is_reserving,
}
use real_estate_crm.Models.Rows.{InventoryUnit, UnitHold, Booking, Quotation}
use real_estate_crm.Models.PostSales.{UnitTransfer, PlannedInstallment, transfer_row}
use real_estate_crm.Models.Store.{Store, Context, audit, unit_row, booking_row, quotation_row}
use real_estate_crm.Inventory.Desk.{occupies}
use real_estate_crm.PostSales.Cancel.{paid_amount, is_requested, is_under_review}

abbrev pub blocks : ℕ → ℕ → UnitHold → Bool
blocks org unit_id h =
    (h.organization_id == org) && is_id h.active_unit_key unit_id && is_reserving h.status

-- `_unit_is_available`
unfoldable pub unit_is_available : ℕ → InventoryUnit → Store → Bool
unit_is_available org unit s =
    is_available unit.status
    && not (is_some (first (blocks org unit.id) s.holds))
    && not (is_some (first (occupies org unit.id) s.bookings))

pub record UnitTransferCreate : Type 0 where
  pub quotation_id : ℕ
  pub reason : String
  pub plan_name : ℕ
  pub plan_effective_from : ℕ
  pub plan_installments : List PlannedInstallment

abbrev pub planned_total : List PlannedInstallment → ℕ
planned_total [] = 0
planned_total (i ∷ is) = i.amount + planned_total is

abbrev pub is_active_transfer : ℕ → ℕ → UnitTransfer → Bool
is_active_transfer org booking_id t =
    (t.organization_id == org) && is_id t.active_booking_key booking_id

abbrev pub new_transfer :
    ℕ → Booking → InventoryUnit → Quotation → ℕ → UnitTransferCreate → Context → UnitTransfer
new_transfer org b target quote price payload ctx = record {
  organization_id = org;
  id = ctx.new_id 0;
  booking_id = b.id;
  from_unit_id = b.unit_id;
  to_unit_id = target.id;
  quotation_id = quote.id;
  requested_by_user_id = ctx.actor_user_id;
  reviewed_by_user_id = none;
  approved_by_user_id = none;
  status = WorkflowStatus.requested;
  reason = payload.reason;
  review_notes = none;
  decision_notes = none;
  active_booking_key = some b.id;
  old_agreed_price = or_else b.agreed_price 0;
  new_agreed_price = price;
  price_difference = sub_ℕ price (or_else b.agreed_price 0);
  paid_amount_snapshot = 0;
  plan_name = payload.plan_name;
  plan_effective_from = payload.plan_effective_from;
  plan_installments = payload.plan_installments;
  requested_at = ctx.now;
  reviewed_at = none;
  decided_at = none;
  completed_at = none;
}

-- The audit of a step, and the transfers that it leaves.
abbrev pub store_transfers : ℕ → String → ℕ → List UnitTransfer → Context → Store → Store
store_transfers org action transfer_id rows ctx s =
    let p = s.post_sales in
    let s1 = audit org (some ctx.actor_user_id) ctx.now action "unit_transfer" transfer_id s in
    record s1 { post_sales = record p { transfers = rows } }

unfoldable pub request_transfer : ℕ → ℕ → UnitTransferCreate → Context → Store → Result Store
unfolding unit_is_available
request_transfer org booking_id payload ctx s = do
  b ← entity org booking_id s.bookings
  quote ← entity org payload.quotation_id s.quotations
  raise_if (not (is_confirmed b.status)) 409 booking_not_transferable
  raise_if (not (is_accepted quote.status)) 422 invalid_transfer_quotation
  unit_id ← or_raise quote.unit_id 422 invalid_transfer_quotation
  price ← or_raise quote.final_agreed_value 422 invalid_transfer_quotation
  raise_if (not (is_id quote.customer_id b.customer_id)) 422 invalid_transfer_quotation
  raise_if (not (quote.currency == b.currency)) 422 currency_mismatch
  target ← entity org unit_id s.units
  raise_if ((target.id == b.unit_id) || not (unit_is_available org target s)) 409
      target_unit_unavailable
  raise_if (not (planned_total payload.plan_installments == price)) 422 payment_plan_total_mismatch
  raise_if (is_some (first (is_active_transfer org b.id) s.post_sales.transfers)) 409
      active_transfer_exists
  ok (
      store_transfers org "unit_transfer.requested" (ctx.new_id 0)
        (new_transfer org b target quote price payload ctx ∷ s.post_sales.transfers) ctx s)

abbrev pub reviewed_transfer : String → ℕ → Context → UnitTransfer → UnitTransfer
reviewed_transfer notes paid ctx t = record t {
  status = WorkflowStatus.under_review;
  reviewed_by_user_id = some ctx.actor_user_id;
  review_notes = some notes;
  reviewed_at = some ctx.now;
  paid_amount_snapshot = paid;
}

unfoldable pub review_transfer : ℕ → ℕ → String → Context → Store → Result Store
unfolding unit_is_available paid_amount
review_transfer org transfer_id notes ctx s = do
  t ← entity org transfer_id s.post_sales.transfers
  raise_if (not (is_requested t.status)) 409 invalid_transfer_transition
  target ← entity org t.to_unit_id s.units
  quote ← entity org t.quotation_id s.quotations
  raise_if
      (not (unit_is_available org target s)
        || not (is_accepted quote.status)
        || not (is_id quote.final_agreed_value t.new_agreed_price))
      409 transfer_terms_changed
  ok (
      store_transfers org "unit_transfer.reviewed" t.id
        (put (reviewed_transfer notes (paid_amount org t.booking_id s) ctx t)
          s.post_sales.transfers)
        ctx s)

abbrev pub decided_transfer : Bool → String → Context → UnitTransfer → UnitTransfer
decided_transfer approved notes ctx t = record t {
  approved_by_user_id = some ctx.actor_user_id;
  decision_notes = some notes;
  decided_at = some ctx.now;
  status = if approved then WorkflowStatus.approved else WorkflowStatus.rejected;
  active_booking_key = if approved then t.active_booking_key else none;
}

unfoldable pub decide_transfer : ℕ → ℕ → Bool → String → Context → Store → Result Store
decide_transfer org transfer_id approved notes ctx s = do
  t ← entity org transfer_id s.post_sales.transfers
  raise_if (not (is_under_review t.status)) 409 invalid_transfer_transition
  raise_if
      ((t.requested_by_user_id == ctx.actor_user_id)
        || is_id t.reviewed_by_user_id ctx.actor_user_id)
      403 self_approval_not_allowed
  ok (
      store_transfers org "unit_transfer.decided" t.id
        (put (decided_transfer approved notes ctx t) s.post_sales.transfers) ctx s)
