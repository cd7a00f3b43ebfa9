-- ===== src/Bookings/Limit.antt =====
-- The money and the approvers of a booking: laws of `create_payment`, `_add_plan` and
-- `request_approval` of backend/app/services/bookings.py.
use real_estate_crm.Base.{
  ℕ, suc, ◌+◌, ◌≡◌, ◌≢◌, ◌⊎◌, inl, inr, refl, String, Bool, false, ◌&&◌, Option, none, some, List,
  [], ◌∷◌, ◌++◌, ◌==◌, arith, or_else, elem,
}
use real_estate_crm.Base.Result.{ok, Result-cases}
use real_estate_crm.Base.Table.{first, find, sum_of, count_of, update_all, put}
use real_estate_crm.Base.Table.Laws.{find-key, find-put}
use real_estate_crm.Models.Enums.{BookingStatus, RecordStatus, is_committed, is_active}
use real_estate_crm.Models.Rows.{Booking, BookingApproval}
use real_estate_crm.Models.Money.{PaymentPlan, Installment}
use real_estate_crm.Models.Store.{Store, Context, booking_row, payment_row}
use real_estate_crm.Bookings.Documents.{expire_due_documents}
use real_estate_crm.Bookings.Parts.{
  payment_total, PaymentPlanInput, InstallmentInput, plan_total, plan_installments, is_plan_of,
  add_plan, new_plan,
}
use real_estate_crm.Bookings.Flow.{
  BookingPaymentCreate, create_payment, submit_payment, new_payment, has_key, exceeds, submit,
}
use real_estate_crm.Bookings.Approval.{
  request_approval, request_body, approval_steps, store_request,
}

-- The open and completed payments of a booking with a price are at most that price.
abbrev pub IsCapped : Store → Type 0
IsCapped s =
    (o k : ℕ) (b : Booking)
    → find o k s.bookings ≡ some b
    → exceeds b.agreed_price (payment_total o k is_committed s) ≡ false

module _ (org booking_id : ℕ) (ctx : Context) (s : Store) where
  pub create_payment-inv :
      (payload : BookingPaymentCreate) {s' : Store}
      → create_payment org booking_id payload ctx s ≡ ok s'
      → (b : Booking) × (find org booking_id s.bookings ≡ some b)
        × ((s' ≡ s)
            ⊎ ((first (has_key org payload.idempotency_key) s.payments ≡ none)
                × (submit_payment org b payload ctx s ≡ ok s')))
  unfolding create_payment
  create_payment-inv payload h = ground arith

  pub submit_payment-inv :
      (b : Booking) (payload : BookingPaymentCreate) {s' : Store}
      → submit_payment org b payload ctx s ≡ ok s'
      → (exceeds b.agreed_price (payment_total org b.id is_committed s + payload.amount) ≡ false)
        × (s'.payments ≡ new_payment org b payload ctx ∷ s.payments)
        × ((s'.bookings ≡ s.bookings) ⊎ (s'.bookings ≡ put (submit ctx.now b) s.bookings))
  unfolding submit_payment
  submit_payment-inv b payload h = ground arith

  -- If the open and completed payments of every booking with an agreed price are at most that
  -- price, they still are after a payment is submitted through the booking.
  pub create_payment-IsCapped :
      (payload : BookingPaymentCreate) (s' : Store)
      → IsCapped s
      → create_payment org booking_id payload ctx s ≡ ok s'
      → IsCapped s'
  unfolding payment_total
  create_payment-IsCapped payload s' capped h o k c at =
      let (b, at_b, outcome) = create_payment-inv payload h in
      let (org_b, id_b) = find-key org booking_id s.bookings b at_b in
      elim outcome [
        | inl same ↦ ground (arith, capped o k c)
        | inr (new, submitted) ↦
            let (fits, paid, moved) = submit_payment-inv b payload submitted in
            elim moved [
              | inl kept ↦ ground (arith, capped o k c)
              | inr changed ↦
                  ground (
                    arith,
                    capped o k c,
                    capped o k b,
                    find-put o k (submit ctx.now b) s.bookings b,
                  )
            ]
      ]

  -- A payment that was submitted through the booking can be submitted again on the state that it
  -- left, and this changes nothing.
  create_payment-idempotent :
      (payload : BookingPaymentCreate) (s' : Store)
      → create_payment org booking_id payload ctx s ≡ ok s'
      → create_payment org booking_id payload ctx s' ≡ ok s'
  unfolding create_payment
  create_payment-idempotent payload s' h =
      let (b, at_b, outcome) = create_payment-inv payload h in
      let (org_b, id_b) = find-key org booking_id s.bookings b at_b in
      elim outcome [
        | inl same ↦ ground arith
        | inr (new, submitted) ↦
            let (fits, paid, moved) = submit_payment-inv b payload submitted in
            elim moved [
              | inl kept ↦ ground arith
              | inr changed ↦
                  ground (arith, find-put org booking_id (submit ctx.now b) s.bookings b)
            ]
      ]

-- The installments of one plan.
abbrev pub is_in_plan : ℕ → ℕ → Installment → Bool
is_in_plan org plan_id i = (i.organization_id == org) && (i.payment_plan_id == plan_id)

abbrev pub is_active_plan_of : ℕ → ℕ → PaymentPlan → Bool
is_active_plan_of org booking_id p = is_plan_of org booking_id p && is_active p.status

module _ (org : ℕ) (ctx : Context) where
  sum_of-plan_installments :
      (plan_id sequence : ℕ) (items : List InstallmentInput) (rows : List Installment)
      → sum_of
          (is_in_plan org plan_id)
          (λ i. i.amount)
          (plan_installments org plan_id ctx sequence items ++ rows)
        ≡ plan_total items + sum_of (is_in_plan org plan_id) (λ i. i.amount) rows
  unfolding plan_installments
  sum_of-plan_installments plan_id sequence [] rows = omega arith
  sum_of-plan_installments plan_id sequence (i ∷ is) rows =
      ground (arith, sum_of-plan_installments plan_id (suc sequence) is rows)

  none_active-archived :
      (booking_id : ℕ) (plans : List PaymentPlan)
      → count_of (is_active_plan_of org booking_id) (
          update_all
            (is_active_plan_of org booking_id)
            (λ p. record p { status = RecordStatus.archived })
            plans)
        ≡ 0
  none_active-archived booking_id [] = refl
  none_active-archived booking_id (p ∷ ps) = ground (arith, none_active-archived booking_id ps)

  -- A payment plan that is added, under an identifier that no installment refers to, leaves its
  -- booking with one active plan, and the installments of that plan add up to the agreed price of
  -- the booking.
  pub add_plan-covers :
      (b : Booking) (payload : PaymentPlanInput) (s s' : Store)
      → b.organization_id ≡ org
      → sum_of (is_in_plan org (ctx.new_id 1)) (λ i. i.amount) s.installments ≡ 0
      → add_plan org b payload ctx s ≡ ok s'
      → (p : PaymentPlan) × (first (is_active_plan_of org b.id) s'.plans ≡ some p)
        × (count_of (is_active_plan_of org b.id) s'.plans ≡ 1)
        × (sum_of (is_in_plan org p.id) (λ i. i.amount) s'.installments ≡ or_else b.agreed_price 0)
  unfolding add_plan
  add_plan-covers b payload s s' same_org fresh h = (
    new_plan org b payload ctx,
    ground arith,
    ground (arith, none_active-archived b.id s.plans),
    ground (arith, sum_of-plan_installments (ctx.new_id 1) 1 payload.installments s.installments),
  )

-- Nobody approves a booking whose approval they asked for.
abbrev pub IsSeparated : List BookingApproval → Type 0
IsSeparated [] = Unit
IsSeparated (a ∷ as') = (a.approver_user_id ≢ a.requested_by_user_id) × IsSeparated as'

module _ (org booking_id : ℕ) (comments : Option String) (ctx : Context) where
  approval_steps-IsSeparated :
      (k step : ℕ) (approvers : List ℕ) (rows : List BookingApproval)
      → elem ctx.actor_user_id approvers ≡ false
      → IsSeparated rows
      → IsSeparated (approval_steps org k comments ctx step approvers ++ rows)
  unfolding approval_steps
  approval_steps-IsSeparated k step [] rows n separated = separated
  approval_steps-IsSeparated k step (a ∷ as') rows n separated =
      (ground arith, approval_steps-IsSeparated k (suc step) as' rows (ground arith) separated)

  pub request_body-inv :
      (approvers : List ℕ) (s : Store) {s' : Store}
      → request_body org booking_id approvers comments ctx s ≡ ok s'
      → (b : Booking) × (find org booking_id s.bookings ≡ some b)
        × (b.status ≡ BookingStatus.verification)
        × (elem ctx.actor_user_id approvers ≡ false)
        × (s' ≡ store_request org b approvers comments ctx s)
  unfolding request_body
  request_body-inv approvers s h = ground arith

  -- If no approval step names as its approver the user who requested it, none does after a
  -- request for approval.
  pub request_approval-IsSeparated :
      (approvers : List ℕ) (s : Store)
      → IsSeparated s.approvals
      → IsSeparated (request_approval org booking_id approvers comments ctx s).store.approvals
  unfolding request_approval expire_due_documents
  request_approval-IsSeparated approvers s separated =
      let t = expire_due_documents org ctx s in
      elim (Result-cases (request_body org booking_id approvers comments ctx t)) [
        | inl (s', made) ↦
            let (b, at, in_verification, other, stored) = request_body-inv approvers t made in
            rw (made, request_approval, stored)
              (approval_steps-IsSeparated b.id 1 approvers s.approvals other separated)
        | inr (e, failed) ↦ rw (failed, request_approval) separated
      ]
