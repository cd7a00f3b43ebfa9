-- ===== src/Workflow/Controlled.antt =====
-- The controlled workflow: a booking that is created, decided or cancelled leaves the inventory
-- safe.
use real_estate_crm.Base.{
  ℕ, ◌≡◌, refl, ap, ◌∙◌, inl, inr, String, Bool, false, none, some, ◌∷◌, arith,
}
use real_estate_crm.Base.Result.{ok, Result-cases}
use real_estate_crm.Base.Table.{find}
use real_estate_crm.Base.Table.Laws.{find-key}
use real_estate_crm.Models.Enums.{is_final}
use real_estate_crm.Models.Rows.{Booking}
use real_estate_crm.Models.Store.{Store, Context, booking_row, unit_row}
use real_estate_crm.Bookings.Documents.{expire_due_documents}
use real_estate_crm.Bookings.Create.{BookingCreate, create_booking, create_body, new_booking}
use real_estate_crm.Bookings.Approval.{
  decide_approval, decided, rejected_booking, confirmed_booking, cancel_booking, cancelled_booking,
  store_confirmation,
}
use real_estate_crm.Bookings.Sound.{
  accrue_booking_commission-SameInventory, decide_approval-inv, approve_step-inv,
  decide_approval-IsSound, cancel_booking-inv, cancel_booking-IsSound,
}
use real_estate_crm.Bookings.Made.{
  create_body-inv, open_booking-inv, add_booking-inv, add_parts-SameInventory,
  create_booking-IsSound,
}
use real_estate_crm.Workflow.Locked.{IsLocked, put-IsLocked, ∷-IsLocked}
use real_estate_crm.Workflow.Frames.{IsSafe}

module _ (org : ℕ) (ctx : Context) where
  create_body-bookings :
      (payload : BookingCreate) (s s' : Store)
      → IsLocked s.bookings
      → create_body org payload ctx s ≡ ok s'
      → IsLocked s'.bookings
  create_body-bookings payload s s' locked h =
      let (
        quote, unit_id, customer_id, u, hold, at_q, q_unit, q_customer, at, at_h, checked, opened,
      ) =
        create_body-inv org ctx s payload h in
      let (customer, salesperson, amount, at_c, at_s, kyc, priced, added) =
        open_booking-inv org ctx s quote u hold customer_id payload opened in
      let b = new_booking org u quote hold customer salesperson.id amount payload ctx in
      let (t, parts, stored) = add_booking-inv org ctx s u hold b customer payload added in
      let (same_units, same_holds, same_bookings) =
        add_parts-SameInventory org ctx (record s { bookings = b ∷ s.bookings }) b customer payload
          t parts in
      rw (ap (λ (t : Store). t.bookings) stored ∙ same_bookings)
        (∷-IsLocked b s.bookings locked refl)

  pub create_booking-IsSafe :
      (payload : BookingCreate) (s : Store)
      → IsSafe s
      → find org (ctx.new_id 0) s.bookings ≡ none
      → IsSafe (create_booking org payload ctx s).store
  unfolding create_booking expire_due_documents
  create_booking-IsSafe payload s safe fresh = record {
    sound = create_booking-IsSound org payload ctx s safe.sound fresh;
    locked =
        let t = expire_due_documents org ctx s in
        elim (Result-cases (create_body org payload ctx t)) [
          | inl (s', made) ↦
              rw (made, create_booking) (create_body-bookings payload t s' safe.locked made)
          | inr (e, failed) ↦ rw (failed, create_booking) safe.locked
        ];
  }

module _ (org booking_id : ℕ) (ctx : Context) (s : Store) (safe : IsSafe s) where
  locked_open :
      (b : Booking)
      → find org booking_id s.bookings ≡ some b
      → is_final b.status ≡ false
      → b.active_unit_key ≡ some b.unit_id
  locked_open b at open_booking = ground (arith, safe.locked org booking_id b at)

  pub cancel_booking-IsSafe :
      (reason : String) (s' : Store)
      → cancel_booking org booking_id reason ctx s ≡ ok s'
      → IsSafe s'
  cancel_booking-IsSafe reason s' h =
      let (b, u, at_b, at, open_booking, stored) =
        cancel_booking-inv org booking_id ctx s reason h in
      let (org_b, id_b) = find-key org booking_id s.bookings b at_b in
      let at' : find b.organization_id b.id s.bookings ≡ some b = ground arith in
      record {
        sound =
            cancel_booking-IsSound org booking_id b ctx s reason s' safe.sound at_b
              (locked_open b at_b open_booking) h;
        locked =
            rw (ap (λ (t : Store). t.bookings) stored)
              (put-IsLocked b (cancelled_booking reason ctx.now b) s.bookings safe.locked at' refl);
      }

  pub decide_approval-IsSafe :
      (approval_id : ℕ) (approved : Bool) (comments : String) (s' : Store)
      → decide_approval org booking_id approval_id approved comments ctx s ≡ ok s'
      → IsSafe s'
  decide_approval-IsSafe approval_id approved comments s' h =
      let (b, u, a, at_b, at, at_a, mine, in_approval, pending, actor, outcome) =
        decide_approval-inv org booking_id approval_id comments ctx s approved h in
      let (org_b, id_b) = find-key org booking_id s.bookings b at_b in
      let at' : find b.organization_id b.id s.bookings ≡ some b = ground arith in
      let key = locked_open b at_b (ground arith) in
      let b' = confirmed_booking ctx b in
      let a' = decided approved comments ctx.now a in
      record {
        sound =
            decide_approval-IsSound org booking_id b ctx s approval_id approved comments s'
              safe.sound at_b key h;
        locked = elim outcome [
          | inr (refused, stored) ↦
              rw (ap (λ (t : Store). t.bookings) stored) (
                put-IsLocked b (rejected_booking comments ctx.now b) s.bookings safe.locked at'
                  refl)
          | inl (granted, stored) ↦ elim (approve_step-inv org u b a' ctx s stored) [
            | inl (e, e', e'') ↦ rw e'' safe.locked
            | inr (t, last, held, initiated, accrued, noted) ↦
                let (e, e', e'') =
                  accrue_booking_commission-SameInventory org b' ctx
                    (store_confirmation u b a' ctx s) t accrued in
                rw (ap (λ (t : Store). t.bookings) noted ∙ e'')
                  (put-IsLocked b b' s.bookings safe.locked at' key)
          ]
        ];
      }
