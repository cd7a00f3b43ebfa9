-- ===== src/Bookings/Decision.antt =====
-- What a confirmed booking has behind it, and what a verified customer has: laws of `decide_approval`
-- and `_has_verified_kyc` of backend/app/services/bookings.py.
use real_estate_crm.Base.{
  ℕ, ◌≡◌, refl, inl, inr, String, Bool, true, false, some, List, [], ◌∷◌, arith, Option-cases,
}
use real_estate_crm.Base.Result.{ok}
use real_estate_crm.Base.Table.{first, find, put, count_of, update_all}
use real_estate_crm.Base.Table.Laws.{find-key, find-put, first-test}
use real_estate_crm.Models.Enums.{UnitStatus, BookingStatus, DocumentStatus}
use real_estate_crm.Models.Rows.{InventoryUnit, Booking, BookingApproval, CustomerDocument}
use real_estate_crm.Models.Store.{Store, Context, unit_row, booking_row, approval_row}
use real_estate_crm.Inventory.Holds.{with_status}
use real_estate_crm.Partners.{accrue_booking_commission}
use real_estate_crm.Bookings.Documents.{
  expire_due_documents, has_verified_kyc, is_kyc, is_due_document, is_past, utc_date,
  expire_document,
}
use real_estate_crm.Bookings.Approval.{
  decide_approval, is_pending_of, decided, store_confirmation, confirmed_booking, rejected_booking,
}
use real_estate_crm.Bookings.Sound.{
  accrue_booking_commission-SameInventory, decide_approval-inv, approve_step-inv,
}

first_kyc-in_date :
    (org customer_id now : ℕ) (ds : List CustomerDocument) (d : CustomerDocument)
    → first (is_kyc org customer_id) (update_all (is_due_document org now) (expire_document now) ds)
      ≡ some d
    → is_past d.expiry_date (utc_date now) ≡ false
unfolding is_due_document
first_kyc-in_date org customer_id now [] d h = ground arith
first_kyc-in_date org customer_id now (e ∷ es) d h =
    ground (arith, first_kyc-in_date org customer_id now es d)

-- Once the due documents are expired, a customer who counts as verified has a current, verified
-- document whose date has not passed.
pub has_verified_kyc-in_date :
    (org customer_id : ℕ) (ctx : Context) (s : Store)
    → has_verified_kyc org customer_id (expire_due_documents org ctx s) ≡ true
    → (d : CustomerDocument) × (first
          (is_kyc org customer_id)
          (expire_due_documents org ctx s).documents
        ≡ some d)
      × (d.customer_id ≡ customer_id)
      × (d.status ≡ DocumentStatus.verified)
      × (is_past d.expiry_date (utc_date ctx.now) ≡ false)
unfolding has_verified_kyc expire_due_documents
has_verified_kyc-in_date org customer_id ctx s h =
    let t = expire_due_documents org ctx s in
    elim (Option-cases (first (is_kyc org customer_id) t.documents)) [
      | inl absent ↦ ground (arith, absent)
      | inr (d, present) ↦
          let test = first-test (is_kyc org customer_id) t.documents d present in
          (
            d,
            present,
            ground arith,
            ground arith,
            first_kyc-in_date org customer_id ctx.now s.documents d present,
          )
    ]

accrue_booking_commission-approvals :
    (org : ℕ) (b : Booking) (ctx : Context) (s s' : Store)
    → accrue_booking_commission org b ctx s ≡ ok s'
    → s'.approvals ≡ s.approvals
unfolding accrue_booking_commission
accrue_booking_commission-approvals org b ctx s s' h = ground arith

-- Where a decision on an approval step leaves its booking confirmed, no step of the booking is
-- pending, the booking names the user who decided as the one who confirmed it, that user is the
-- approver that the step named, and the unit of the booking is booked.
pub decide_approval-confirmed :
    (org booking_id approval_id : ℕ) (approved : Bool) (comments : String) (ctx : Context)
    (s s' : Store) (b' : Booking)
    → decide_approval org booking_id approval_id approved comments ctx s ≡ ok s'
    → find org booking_id s'.bookings ≡ some b'
    → b'.status ≡ BookingStatus.confirmed
    → (count_of (is_pending_of org b'.id) s'.approvals ≡ 0)
      × (b'.confirmed_by_user_id ≡ some ctx.actor_user_id)
      × ((a : BookingApproval) × (find org approval_id s.approvals ≡ some a)
          × (a.approver_user_id ≡ ctx.actor_user_id))
      × ((u : InventoryUnit) × (find org b'.unit_id s'.units ≡ some u)
          × (u.status ≡ UnitStatus.booked))
decide_approval-confirmed org booking_id approval_id approved comments ctx s s' b' h at' confirmed =
    let (b, u, a, at_b, at, at_a, mine, in_approval, pending, actor, outcome) =
      decide_approval-inv org booking_id approval_id comments ctx s approved h in
    let a' = decided approved comments ctx.now a in
    let (org_b, id_b) = find-key org booking_id s.bookings b at_b in
    let (org_u, id_u) = find-key org b.unit_id s.units u at in
    let done_b = find-put org booking_id (confirmed_booking ctx b) s.bookings b in
    let done_u = find-put org b.unit_id (with_status UnitStatus.booked u) s.units u in
    elim outcome [
      | inr (refused, stored) ↦
          ground (arith, find-put org booking_id (rejected_booking comments ctx.now b) s.bookings b)
      | inl (granted, stored) ↦ elim (approve_step-inv org u b a' ctx s stored) [
        | inl (e, e', e'') ↦ ground arith
        | inr (t, last, held, initiated, accrued, noted) ↦
            let (e, e', e'') =
              accrue_booking_commission-SameInventory org (confirmed_booking ctx b) ctx
                (store_confirmation u b a' ctx s) t accrued in
            let kept : t.approvals ≡ put a' s.approvals =
              accrue_booking_commission-approvals org (confirmed_booking ctx b) ctx
                (store_confirmation u b a' ctx s) t accrued in
            let is_b : b' ≡ confirmed_booking ctx b = ground arith in
            let none_left : count_of (is_pending_of org b.id) s'.approvals ≡ 0 = ground arith in
            let at_u : find org b.unit_id s'.units ≡ some (with_status UnitStatus.booked u) =
              ground arith in
            rw is_b
              (none_left, refl, (a, at_a, actor), (with_status UnitStatus.booked u, at_u, refl))
      ]
    ]
