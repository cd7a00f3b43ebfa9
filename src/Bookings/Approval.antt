-- ===== src/Bookings/Approval.antt =====
-- The approval of a booking and its end: `request_approval`, `decide_approval` and
-- `cancel_booking` of backend/app/services/bookings.py.
pub mod Request
unfoldable pub use Request.*
use real_estate_crm.Base.{
  ℕ, suc, String, Bool, true, false, not, ◌&&◌, ◌||◌, Option, none, some, List, [], ◌∷◌, ◌++◌, map,
  ltb, ◌==◌, if◌then◌else◌, is_some, is_id, elem,
}
use real_estate_crm.Base.Result.{Result, ok, ◌>>=◌, ◌>>◌, raise_if, Reply, commit_first}
use real_estate_crm.Base.Result.Codes.{
  resource_not_found, booking_not_in_verification, kyc_not_verified, booking_amount_not_verified,
  financing_not_ready, self_approval_not_allowed, invalid_booking_approver,
  approval_already_requested, approval_finalized, approver_mismatch, unit_booking_lock_lost,
  booking_finalized,
}
use real_estate_crm.Base.Table.{first, count_of, update_all, put, entity}
use real_estate_crm.Models.Enums.{
  UnitStatus, BookingStatus, ApprovalStatus, is_verification, is_approval, is_final, is_completed,
  is_financed, is_pending, is_booking_initiated,
}
use real_estate_crm.Models.Rows.{InventoryUnit, Booking, BookingApproval, BookingFinancing}
use real_estate_crm.Models.Store.{
  Store, Context, Grant, Permission, bookings_approve, bookings_manage, audit, queue_in_app,
  unit_row, booking_row, approval_row, user_row,
}
use real_estate_crm.Inventory.Holds.{with_status}
use real_estate_crm.Partners.{accrue_booking_commission}
use real_estate_crm.Bookings.Documents.{expire_due_documents, has_verified_kyc}
use real_estate_crm.Bookings.Parts.{payment_total, is_financing_of}

abbrev pub is_pending_of : ℕ → ℕ → BookingApproval → Bool
is_pending_of org booking_id a = is_approval_of org booking_id a && is_pending a.status

-- The steps that are still open, all but one, are cancelled.
abbrev pub cancel_others : ℕ → ℕ → Option ℕ → ℕ → List BookingApproval → List BookingApproval
cancel_others org booking_id kept now =
    update_all (λ a. is_pending_of org booking_id a && not (is_id kept a.id))
      (λ a. record a { status = ApprovalStatus.cancelled; decided_at = some now })

abbrev pub decided : Bool → String → ℕ → BookingApproval → BookingApproval
decided approved comments now a = record a {
  status = if approved then ApprovalStatus.approved else ApprovalStatus.rejected;
  comments = some comments;
  decided_at = some now;
}

abbrev pub rejected_booking : String → ℕ → Booking → Booking
rejected_booking comments now b = record b {
  status = BookingStatus.rejected;
  rejected_at = some now;
  rejection_reason = some comments;
  active_unit_key = none;
}

abbrev pub confirmed_booking : Context → Booking → Booking
confirmed_booking ctx b = record b {
  status = BookingStatus.confirmed;
  confirmed_by_user_id = some ctx.actor_user_id;
  booked_at = some ctx.now;
}

-- What every decision writes beside its rows.
abbrev pub note_decision : ℕ → Booking → BookingApproval → Context → Store → Store
note_decision org b a ctx s =
    let s1 =
      audit org (some ctx.actor_user_id) ctx.now "booking.approval.decided" "booking_approval" a.id
        s in
    record s1 {
      notifications =
          queue_in_app org (some b.booked_by_user_id ∷ b.salesperson_user_id ∷ [])
            "BOOKING_STATUS_CHANGED" "booking" b.id ctx.now s.notifications;
    }

abbrev pub store_rejection :
    ℕ → InventoryUnit → Booking → BookingApproval → String → Context → Store → Store
store_rejection org unit b a comments ctx s = record s {
  approvals = cancel_others org b.id (some a.id) ctx.now (put a s.approvals);
  bookings = put (rejected_booking comments ctx.now b) s.bookings;
  units = put (with_status UnitStatus.cancelled_released unit) s.units;
}

abbrev pub store_confirmation : InventoryUnit → Booking → BookingApproval → Context → Store → Store
store_confirmation unit b a ctx s = record s {
  approvals = put a s.approvals;
  bookings = put (confirmed_booking ctx b) s.bookings;
  units = put (with_status UnitStatus.booked unit) s.units;
}

-- An approval that leaves no step open confirms the booking.
unfoldable pub approve_step :
    ℕ → InventoryUnit → Booking → BookingApproval → Context → Store → Result Store
unfolding accrue_booking_commission
approve_step org unit b a ctx s =
    if ltb 0 (count_of (is_pending_of org b.id) (put a s.approvals))
    then ok (note_decision org b a ctx (record s { approvals = put a s.approvals }))
    else do
      raise_if (not (is_id b.active_unit_key unit.id) || not (is_booking_initiated unit.status)) 409
          unit_booking_lock_lost
      s' ←
          accrue_booking_commission org (confirmed_booking ctx b) ctx
            (store_confirmation unit b a ctx s)
      ok (note_decision org b a ctx s')

-- `payload.status` is "APPROVED" or "REJECTED".
unfoldable pub decide_approval : ℕ → ℕ → ℕ → Bool → String → Context → Store → Result Store
unfolding approve_step
decide_approval org booking_id approval_id approved comments ctx s = do
  b ← entity org booking_id s.bookings
  unit ← entity org b.unit_id s.units
  a ← entity org approval_id s.approvals
  raise_if (not (a.booking_id == b.id)) 404 resource_not_found
  raise_if (not (is_approval b.status) || not (is_pending a.status)) 409 approval_finalized
  raise_if (not (a.approver_user_id == ctx.actor_user_id)) 403 approver_mismatch
  let a' = decided approved comments ctx.now a
  if approved
      then approve_step org unit b a' ctx s
      else ok (note_decision org b a' ctx (store_rejection org unit b a' comments ctx s))

abbrev pub cancelled_booking : String → ℕ → Booking → Booking
cancelled_booking reason now b = record b {
  status = BookingStatus.cancelled;
  cancelled_at = some now;
  rejection_reason = some reason;
  active_unit_key = none;
}

abbrev pub store_cancellation : ℕ → InventoryUnit → Booking → String → Context → Store → Store
store_cancellation org unit b reason ctx s =
    let s1 = audit org (some ctx.actor_user_id) ctx.now "booking.cancelled" "booking" b.id s in
    record s1 {
      approvals = cancel_others org b.id none ctx.now s.approvals;
      bookings = put (cancelled_booking reason ctx.now b) s.bookings;
      units = put (with_status UnitStatus.cancelled_released unit) s.units;
    }

unfoldable pub cancel_booking : ℕ → ℕ → String → Context → Store → Result Store
cancel_booking org booking_id reason ctx s = do
  b ← entity org booking_id s.bookings
  unit ← entity org b.unit_id s.units
  raise_if (is_final b.status) 409 booking_finalized
  ok (store_cancellation org unit b reason ctx s)
