-- ===== src/Bookings/Approval/Request.antt =====
-- Who may approve, and the request: `_eligible_approver` and `request_approval` of
-- backend/app/services/bookings.py.
use real_estate_crm.Base.{
  ℕ, suc, String, Bool, true, false, not, ◌&&◌, Option, none, some, List, [], ◌∷◌, ◌++◌, map, ltb,
  ◌==◌, is_some, elem,
}
use real_estate_crm.Base.Result.{Result, ok, ◌>>=◌, ◌>>◌, raise_if, Reply, commit_first}
use real_estate_crm.Base.Result.Codes.{
  booking_not_in_verification, kyc_not_verified, booking_amount_not_verified, financing_not_ready,
  self_approval_not_allowed, invalid_booking_approver, approval_already_requested,
}
use real_estate_crm.Base.Table.{first, count_of, put, entity}
use real_estate_crm.Models.Enums.{
  BookingStatus, ApprovalStatus, is_verification, is_completed, is_financed,
}
use real_estate_crm.Models.Rows.{Booking, BookingApproval, BookingFinancing}
use real_estate_crm.Models.Store.{
  Store, Context, Grant, Permission, bookings_approve, bookings_manage, audit, queue_in_app,
  unit_row, booking_row, approval_row, user_row,
}
use real_estate_crm.Bookings.Documents.{expire_due_documents, has_verified_kyc}
use real_estate_crm.Bookings.Parts.{payment_total, is_financing_of}

-- `Permission.code.in_(("bookings.approve", "bookings.manage"))`
abbrev pub approves : Permission → Bool
approves bookings_approve = true
approves bookings_manage = true
approves _ = false

abbrev pub is_approver_grant : ℕ → ℕ → Grant → Bool
is_approver_grant org user_id g =
    (g.organization_id == org) && (g.user_id == user_id) && approves g.code

abbrev pub is_active_user : ℕ → ℕ → Store → Bool
is_active_user org user_id s =
    is_some (first (λ u. (u.organization_id == org) && (u.id == user_id) && u.is_active) s.users)

-- `_eligible_approver(...) is not None`
unfoldable pub is_eligible : ℕ → ℕ → Store → Bool
is_eligible org user_id s =
    is_active_user org user_id s && is_some (first (is_approver_grant org user_id) s.grants)

unfoldable pub check_approvers : ℕ → List ℕ → Store → Result (Unit {0})
unfolding is_eligible
check_approvers org [] s = ok tt
check_approvers org (k ∷ ks) s =
    raise_if (not (is_eligible org k s)) 422 invalid_booking_approver >> check_approvers org ks s

abbrev is_ready : Option BookingFinancing → Bool
is_ready none = true
is_ready (some f) = is_financed f.status

abbrev pub is_approval_of : ℕ → ℕ → BookingApproval → Bool
is_approval_of org booking_id a = (a.organization_id == org) && (a.booking_id == booking_id)

unfoldable pub approval_steps : ℕ → ℕ → Option String → Context → ℕ → List ℕ → List BookingApproval
approval_steps org booking_id comments ctx step [] = []
approval_steps org booking_id comments ctx step (k ∷ ks) =
    record {
      organization_id = org;
      id = ctx.new_id step;
      booking_id = booking_id;
      requested_by_user_id = ctx.actor_user_id;
      approver_user_id = k;
      step_number = step;
      status = ApprovalStatus.pending;
      comments = comments;
      decided_at = none;
    }
    ∷ approval_steps org booking_id comments ctx (suc step) ks

abbrev pub to_approval : Context → Booking → Booking
to_approval ctx b = record b {
  status = BookingStatus.approval;
  verified_by_user_id = some ctx.actor_user_id;
  verification_completed_at = some ctx.now;
  approval_requested_at = some ctx.now;
}

abbrev pub store_request : ℕ → Booking → List ℕ → Option String → Context → Store → Store
store_request org b approvers comments ctx s =
    let s1 =
      audit org (some ctx.actor_user_id) ctx.now "booking.approval.requested" "booking" b.id s in
    record s1 {
      approvals = approval_steps org b.id comments ctx 1 approvers ++ s.approvals;
      bookings = put (to_approval ctx b) s.bookings;
      notifications =
          queue_in_app org (map some approvers) "BOOKING_STATUS_CHANGED" "booking" b.id ctx.now
            s.notifications;
    }

unfoldable pub request_body : ℕ → ℕ → List ℕ → Option String → Context → Store → Result Store
unfolding check_approvers
request_body org booking_id approvers comments ctx s = do
  b ← entity org booking_id s.bookings
  raise_if (not (is_verification b.status)) 409 booking_not_in_verification
  raise_if (not (has_verified_kyc org b.customer_id s)) 409 kyc_not_verified
  raise_if (ltb (payment_total org b.id is_completed s) b.booking_amount) 409
      booking_amount_not_verified
  raise_if (not (is_ready (first (is_financing_of org b.id) s.financings))) 409 financing_not_ready
  raise_if (elem ctx.actor_user_id approvers) 403 self_approval_not_allowed
  check_approvers org approvers s
  raise_if (ltb 0 (count_of (is_approval_of org b.id) s.approvals)) 409 approval_already_requested
  ok (store_request org b approvers comments ctx s)

unfoldable pub request_approval : ℕ → ℕ → List ℕ → Option String → Context → Store → Reply Store
unfolding request_body expire_due_documents
request_approval org booking_id approvers comments ctx s =
    let s' = expire_due_documents org ctx s in
    commit_first s' (request_body org booking_id approvers comments ctx s')
