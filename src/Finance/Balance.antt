-- ===== src/Finance/Balance.antt =====
-- What the charges, their waiver and repeated requests do to a customer's balance: laws of
-- backend/app/services/finance.py.
use real_estate_crm.Base.{ℕ, ◌+◌, ◌<◌, ◌≡◌, ◌⊎◌, String, true, none, some, ◌∷◌, is_some, arith}
use real_estate_crm.Base.Result.{ok}
use real_estate_crm.Base.Table.{first, find, put}
use real_estate_crm.Base.Table.Laws.{find-key, find-put}
use real_estate_crm.Models.Enums.{PaymentStatus, is_open}
use real_estate_crm.Models.Rows.{Booking}
use real_estate_crm.Models.Money.{Installment, PaymentPlan, Payment}
use real_estate_crm.Models.Store.{
  Store, Context, booking_row, plan_row, installment_row, charge_row, payment_row,
}
use real_estate_crm.Finance.Accounts.{open_amount, debits, credits}
use real_estate_crm.Finance.Payments.{
  CollectionPaymentCreate, collect_payment, ReconciliationCreate, reconcile_payment,
  new_reconciliation,
}
use real_estate_crm.Finance.Charges.{
  ChargeCreate, create_charge, charged, new_charge, store_charge, has_charge_key, waive_charge,
}

module _ (org installment_id : ℕ) (payload : ChargeCreate) (ctx : Context) (s : Store) where
  pub create_charge-inv :
      {s' : Store}
      → create_charge org installment_id payload ctx s ≡ ok s'
      → (i : Installment) × (plan : PaymentPlan) × (b : Booking) × (find org installment_id
            s.installments
          ≡ some i)
        × (find org i.payment_plan_id s.plans ≡ some plan)
        × (find org plan.booking_id s.bookings ≡ some b)
        × (((is_some (first (has_charge_key org payload.idempotency_key) s.charges) ≡ true)
              × (s' ≡ s))
            ⊎ ((first (has_charge_key org payload.idempotency_key) s.charges ≡ none)
                × (0 < open_amount i)
                × (0 < charged i payload)
                × (s' ≡ store_charge org (new_charge org b i payload ctx) ctx s)))
  unfolding create_charge
  create_charge-inv h = ground arith

  -- A charge that was created can be requested again on the state that it left, and this changes
  -- nothing.
  create_charge-idempotent :
      (s' : Store)
      → create_charge org installment_id payload ctx s ≡ ok s'
      → create_charge org installment_id payload ctx s' ≡ ok s'
  unfolding create_charge
  create_charge-idempotent s' h = ground arith

  -- A charge with a new idempotency key that is created and then waived leaves the difference of
  -- the debits and the credits of every booking as it was.
  pub waive_charge-create_charge :
      (reason : String) (ctx' : Context) (s1 s2 : Store)
      → first (has_charge_key org payload.idempotency_key) s.charges ≡ none
      → create_charge org installment_id payload ctx s ≡ ok s1
      → waive_charge org (ctx.new_id 0) reason ctx' s1 ≡ ok s2
      → (booking_id : ℕ)
      → debits org booking_id s2.ledger + credits org booking_id s.ledger
        ≡ credits org booking_id s2.ledger + debits org booking_id s.ledger
  unfolding waive_charge debits credits
  waive_charge-create_charge reason ctx' s1 s2 new h h' booking_id =
      let (i, plan, b, at, at_plan, at_b, outcome) = create_charge-inv h in ground arith

module _ (org : ℕ) (ctx : Context) (s : Store) where
  -- A payment that was collected can be sent again on the state that it left, and this changes
  -- nothing.
  collect_payment-idempotent :
      (booking_id : ℕ) (payload : CollectionPaymentCreate) (s' : Store)
      → collect_payment org booking_id payload ctx s ≡ ok s'
      → collect_payment org booking_id payload ctx s' ≡ ok s'
  unfolding collect_payment
  collect_payment-idempotent booking_id payload s' h = ground arith

  pub reconcile_payment-inv :
      (payment_id : ℕ) (payload : ReconciliationCreate) {s' : Store}
      → reconcile_payment org payment_id payload ctx s ≡ ok s'
      → (p : Payment) × (find org payment_id s.payments ≡ some p)
        × (is_open p.status ≡ true)
        × ((s' ≡ s)
            ⊎ ((s'.reconciliations ≡ new_reconciliation org p payload ctx ∷ s.reconciliations)
                × (s'.payments ≡ put (record p { status = PaymentStatus.processing }) s.payments)))
  unfolding reconcile_payment
  reconcile_payment-inv payment_id payload h = ground arith

  -- A reconciliation that was recorded can be sent again on the state that it left, and this
  -- changes nothing.
  reconcile_payment-idempotent :
      (payment_id : ℕ) (payload : ReconciliationCreate) (s' : Store)
      → reconcile_payment org payment_id payload ctx s ≡ ok s'
      → reconcile_payment org payment_id payload ctx s' ≡ ok s'
  unfolding reconcile_payment
  reconcile_payment-idempotent payment_id payload s' h =
      let (p, at, open_payment, outcome) = reconcile_payment-inv payment_id payload h in
      let p' : Payment = record p { status = PaymentStatus.processing } in
      let moved = find-put org payment_id p' s.payments p in
      let key = find-key org payment_id s.payments p in ground (arith, moved, key)
