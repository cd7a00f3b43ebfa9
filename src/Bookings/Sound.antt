-- ===== src/Bookings/Sound.antt =====
-- The controlled booking workflow keeps the inventory sound: the creation, the decision on an
-- approval and the cancellation of backend/app/services/bookings.py.
use real_estate_crm.Base.{ℕ, ◌≡◌, refl, String, Bool, true, false, some, arith, ◌⊎◌, inl, inr}
use real_estate_crm.Base.Result.{ok}
use real_estate_crm.Base.Table.{find, put, count_of}
use real_estate_crm.Base.Table.Laws.{find-key}
use real_estate_crm.Models.Enums.{UnitStatus, BookingStatus, ApprovalStatus, is_final}
use real_estate_crm.Models.Rows.{InventoryUnit, Booking, BookingApproval}
use real_estate_crm.Models.Store.{Store, Context, unit_row, hold_row, booking_row, approval_row}
use real_estate_crm.Inventory.Sound.Core.{IsSound}
use real_estate_crm.Inventory.Sound.Desk.{change_booking-IsSound}
use real_estate_crm.Partners.{accrue_booking_commission}
use real_estate_crm.Bookings.Approval.{
  decide_approval, approve_step, decided, note_decision, store_rejection, store_confirmation,
  confirmed_booking, rejected_booking, cancel_booking, cancelled_booking, store_cancellation,
  is_pending_of,
}

-- The three tables that the soundness of the inventory is about.
abbrev pub SameInventory : Store → Store → Type 0
SameInventory s t = (t.units ≡ s.units) × (t.holds ≡ s.holds) × (t.bookings ≡ s.bookings)

SameInventory-IsSound : (s t : Store) → SameInventory s t → IsSound s → IsSound t
SameInventory-IsSound s t (e, e', e'') sound = rw (e, e', e'') sound

pub accrue_booking_commission-SameInventory :
    (org : ℕ) (b : Booking) (ctx : Context) (s s' : Store)
    → accrue_booking_commission org b ctx s ≡ ok s'
    → SameInventory s s'
unfolding accrue_booking_commission
accrue_booking_commission-SameInventory org b ctx s s' h = ground arith

module _ (org booking_id approval_id : ℕ) (comments : String) (ctx : Context) (s : Store) where
  pub decide_approval-inv :
      (approved : Bool) {s' : Store}
      → decide_approval org booking_id approval_id approved comments ctx s ≡ ok s'
      → (b : Booking) × (u : InventoryUnit) × (a : BookingApproval) × (find org booking_id
            s.bookings
          ≡ some b)
        × (find org b.unit_id s.units ≡ some u)
        × (find org approval_id s.approvals ≡ some a)
        × (a.booking_id ≡ b.id)
        × (b.status ≡ BookingStatus.approval)
        × (a.status ≡ ApprovalStatus.pending)
        × (a.approver_user_id ≡ ctx.actor_user_id)
        × (let a' = decided approved comments ctx.now a in
            ((approved ≡ true) × (approve_step org u b a' ctx s ≡ ok s'))
            ⊎ ((approved ≡ false)
                × (s' ≡ note_decision org b a' ctx (store_rejection org u b a' comments ctx s))))
  unfolding decide_approval
  decide_approval-inv approved h = ground arith

module _ (org : ℕ) (u : InventoryUnit) (b : Booking) (a : BookingApproval) (ctx : Context)
    (s : Store) where
  pub approve_step-inv :
      {s' : Store}
      → approve_step org u b a ctx s ≡ ok s'
      → SameInventory s s'
        ⊎ ((t : Store) × (count_of (is_pending_of org b.id) (put a s.approvals) ≡ 0)
            × (b.active_unit_key ≡ some u.id)
            × (u.status ≡ UnitStatus.booking_initiated)
            × (accrue_booking_commission org
                  (confirmed_booking ctx b)
                  ctx
                  (store_confirmation u b a ctx s)
                ≡ ok t)
            × (s' ≡ note_decision org b a ctx t))
  unfolding approve_step
  approve_step-inv h = ground arith

  approve_step-IsSound :
      {s' : Store}
      → IsSound s
      → find org b.id s.bookings ≡ some b
      → find org b.unit_id s.units ≡ some u
      → approve_step org u b a ctx s ≡ ok s'
      → IsSound s'
  approve_step-IsSound {s'} sound at_b at h = elim (approve_step-inv h) [
    | inl same ↦ SameInventory-IsSound s s' same sound
    | inr (t, last, key, initiated, accrued, stored) ↦
        let (org_u, id_u) = find-key org b.unit_id s.units u at in
        let locked : b.active_unit_key ≡ some b.unit_id = ground arith in
        rw stored (
          SameInventory-IsSound (store_confirmation u b a ctx s) t
            (accrue_booking_commission-SameInventory org (confirmed_booking ctx b) ctx
              (store_confirmation u b a ctx s) t accrued)
            (change_booking-IsSound org b.id BookingStatus.confirmed ctx s b
              (confirmed_booking ctx b) u UnitStatus.booked sound at_b at refl refl locked
              (inl (locked, refl))))
  ]

module _ (org booking_id : ℕ) (ctx : Context) (s : Store) where
  pub cancel_booking-inv :
      (reason : String) {s' : Store}
      → cancel_booking org booking_id reason ctx s ≡ ok s'
      → (c : Booking) × (u : InventoryUnit) × (find org booking_id s.bookings ≡ some c)
        × (find org c.unit_id s.units ≡ some u)
        × (is_final c.status ≡ false)
        × (s' ≡ store_cancellation org u c reason ctx s)
  unfolding cancel_booking
  cancel_booking-inv reason h = ground arith

module _ (org booking_id : ℕ) (b : Booking) (ctx : Context) (s : Store) where
  -- A decision on the approval of a booking that has its unit keeps the inventory sound.
  pub decide_approval-IsSound :
      (approval_id : ℕ) (approved : Bool) (comments : String) (s' : Store)
      → IsSound s
      → find org booking_id s.bookings ≡ some b
      → b.active_unit_key ≡ some b.unit_id
      → decide_approval org booking_id approval_id approved comments ctx s ≡ ok s'
      → IsSound s'
  decide_approval-IsSound approval_id approved comments s' sound at_b locked h =
      let (c, u, a, at_c, at, at_a, mine, in_approval, pending, actor, outcome) =
        decide_approval-inv org booking_id approval_id comments ctx s approved h in
      let same : c ≡ b = ground arith in
      let (org_c, id_c) = find-key org booking_id s.bookings c at_c in
      let locked' : c.active_unit_key ≡ some c.unit_id = rw same locked in
      let at_c' : find org c.id s.bookings ≡ some c = ground arith in
      elim outcome [
        | inl (granted, stored) ↦
            approve_step-IsSound org u c (decided approved comments ctx.now a) ctx s sound at_c' at
              stored
        | inr (refused, stored) ↦ rw stored (
            change_booking-IsSound org c.id BookingStatus.rejected ctx s c
              (rejected_booking comments ctx.now c) u UnitStatus.cancelled_released sound at_c' at
              refl refl locked' (inr (refl, refl)))
      ]

  -- So does the cancellation of a booking.
  pub cancel_booking-IsSound :
      (reason : String) (s' : Store)
      → IsSound s
      → find org booking_id s.bookings ≡ some b
      → b.active_unit_key ≡ some b.unit_id
      → cancel_booking org booking_id reason ctx s ≡ ok s'
      → IsSound s'
  cancel_booking-IsSound reason s' sound at_b locked h =
      let (c, u, at_c, at, open_booking, stored) =
        cancel_booking-inv org booking_id ctx s reason h in
      let same : c ≡ b = ground arith in
      let locked' : c.active_unit_key ≡ some c.unit_id = rw same locked in
      rw stored (
        change_booking-IsSound org booking_id BookingStatus.cancelled ctx s c
          (cancelled_booking reason ctx.now c) u UnitStatus.cancelled_released sound at_c at refl
          refl locked' (inr (refl, refl)))
