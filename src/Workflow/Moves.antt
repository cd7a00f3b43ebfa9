-- ===== src/Workflow/Moves.antt =====
-- The operations that move a booking on keep the inventory safe.
use real_estate_crm.Base.{
  ℕ, ◌≡◌, refl, ◌⊎◌, inl, inr, String, true, ◌||◌, Option, some, List, arith,
}
use real_estate_crm.Base.Result.{ok, Result-cases}
use real_estate_crm.Base.Table.{find, put}
use real_estate_crm.Models.Enums.{BookingStatus, is_payment_pending, is_verification}
use real_estate_crm.Models.Rows.{Booking}
use real_estate_crm.Models.Money.{Payment}
use real_estate_crm.Models.Store.{Store, Context, booking_row, unit_row}
use real_estate_crm.Bookings.Documents.{expire_due_documents}
use real_estate_crm.Bookings.Flow.{
  advance_booking, advance_body, advanced, advance_allowed, BookingPaymentCreate, create_payment,
  submit_payment, submit, store_advance,
}
use real_estate_crm.Bookings.Approval.{request_approval, request_body, to_approval}
use real_estate_crm.Bookings.Limit.{request_body-inv}
use real_estate_crm.Bookings.Sound.{SameInventory}
use real_estate_crm.Finance.Allocation.{
  PaymentAllocationRequest, allocate_payment, share_out, store_allocation, verify,
}
use real_estate_crm.Finance.Conservation.{allocate_payment-inv}
use real_estate_crm.Workflow.Frames.{IsSafe, put-IsSafe, SameInventory-IsSafe}

module _ (org booking_id : ℕ) (ctx : Context) (s : Store) where
  advance_body-inv :
      (target : BookingStatus) {s' : Store}
      → advance_body org booking_id target ctx s ≡ ok s'
      → (b : Booking) × (find org booking_id s.bookings ≡ some b)
        × (advance_allowed b.status target ≡ true)
        × (s' ≡ store_advance org (advanced target ctx.now b) ctx s)
  unfolding advance_body
  advance_body-inv target h = ground arith

  advance_body-IsSafe :
      (target : BookingStatus) (s' : Store)
      → IsSafe s
      → advance_body org booking_id target ctx s ≡ ok s'
      → IsSafe s'
  advance_body-IsSafe target s' safe h =
      let (b, at, allowed, stored) = advance_body-inv target h in
      put-IsSafe org booking_id b (advanced target ctx.now b) s s' safe at refl refl refl refl
        (ground arith) (rw stored refl) (rw stored refl) (rw stored refl)

  request_body-IsSafe :
      (approvers : List ℕ) (comments : Option String) (s' : Store)
      → IsSafe s
      → request_body org booking_id approvers comments ctx s ≡ ok s'
      → IsSafe s'
  request_body-IsSafe approvers comments s' safe h =
      let (b, at, in_verification, other, stored) =
        request_body-inv org booking_id comments ctx approvers s h in
      put-IsSafe org booking_id b (to_approval ctx b) s s' safe at refl refl refl refl
        (ground arith) (rw stored refl) (rw stored refl) (rw stored refl)

  create_payment-moves :
      (payload : BookingPaymentCreate) {s' : Store}
      → create_payment org booking_id payload ctx s ≡ ok s'
      → SameInventory s s'
        ⊎ ((b : Booking) × (find org booking_id s.bookings ≡ some b)
            × ((is_payment_pending b.status || is_verification b.status) ≡ true)
            × (s'.units ≡ s.units)
            × (s'.holds ≡ s.holds)
            × (s'.bookings ≡ put (submit ctx.now b) s.bookings))
  unfolding create_payment submit_payment
  create_payment-moves payload h = ground arith

  -- A payment that is submitted keeps the inventory safe.
  pub create_payment-IsSafe :
      (payload : BookingPaymentCreate) (s' : Store)
      → IsSafe s
      → create_payment org booking_id payload ctx s ≡ ok s'
      → IsSafe s'
  create_payment-IsSafe payload s' safe h = elim (create_payment-moves payload h) [
    | inl same ↦ SameInventory-IsSafe s s' same safe
    | inr (b, at, status, e, e', e'') ↦
        put-IsSafe org booking_id b (submit ctx.now b) s s' safe at refl refl refl refl
          (ground arith) e e' e''
  ]

module _ (org : ℕ) (ctx : Context) (s : Store) where
  share_out-moves :
      (p : Payment) (b : Booking) (payload : PaymentAllocationRequest) {s' : Store}
      → share_out org p b payload ctx s ≡ ok s'
      → SameInventory s s'
        ⊎ ((is_payment_pending b.status ≡ true)
            × (s'.units ≡ s.units)
            × (s'.holds ≡ s.holds)
            × (s'.bookings ≡ put (verify ctx.now b) s.bookings))
  unfolding share_out store_allocation
  share_out-moves p b payload h = ground arith

  -- So does the allocation of a payment.
  pub allocate_payment-IsSafe :
      (payment_id : ℕ) (payload : PaymentAllocationRequest) (s' : Store)
      → IsSafe s
      → allocate_payment org payment_id payload ctx s ≡ ok s'
      → IsSafe s'
  allocate_payment-IsSafe payment_id payload s' safe h =
      let (p, b, at_p, at, open_payment, shared) =
        allocate_payment-inv org payment_id payload ctx s h in
      elim (share_out-moves p b payload shared) [
        | inl same ↦ SameInventory-IsSafe s s' same safe
        | inr (status, e, e', e'') ↦
            put-IsSafe org p.booking_id b (verify ctx.now b) s s' safe at refl refl refl refl
              (ground arith) e e' e''
      ]

module _ (org booking_id : ℕ) (ctx : Context) (s : Store) where
  -- And the moves of the status.
  pub advance_booking-IsSafe :
      (target : BookingStatus)
      → IsSafe s
      → IsSafe (advance_booking org booking_id target ctx s).store
  unfolding advance_booking expire_due_documents
  advance_booking-IsSafe target safe =
      let t = expire_due_documents org ctx s in
      let safe' : IsSafe t = record { sound = safe.sound; locked = safe.locked } in
      elim (Result-cases (advance_body org booking_id target ctx t)) [
        | inl (s', made) ↦
            rw (made, advance_booking)
              (advance_body-IsSafe org booking_id ctx t target s' safe' made)
        | inr (e, failed) ↦ rw (failed, advance_booking) safe'
      ]

  pub request_approval-IsSafe :
      (approvers : List ℕ) (comments : Option String)
      → IsSafe s
      → IsSafe (request_approval org booking_id approvers comments ctx s).store
  unfolding request_approval expire_due_documents
  request_approval-IsSafe approvers comments safe =
      let t = expire_due_documents org ctx s in
      let safe' : IsSafe t = record { sound = safe.sound; locked = safe.locked } in
      elim (Result-cases (request_body org booking_id approvers comments ctx t)) [
        | inl (s', made) ↦
            rw (made, request_approval)
              (request_body-IsSafe org booking_id ctx t approvers comments s' safe' made)
        | inr (e, failed) ↦ rw (failed, request_approval) safe'
      ]
