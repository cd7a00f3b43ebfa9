-- ===== src/Finance/Payments.antt =====
-- Demands, payments and their reconciliation: `create_demand`, `create_payment` and
-- `reconcile_payment` of backend/app/services/finance.py.
use real_estate_crm.Base.{
  ℕ, Bool, not, ◌&&◌, ◌||◌, Option, none, some, ◌∷◌, leb, ◌==◌, if◌then◌else◌, is_some, or_else,
}
use real_estate_crm.Base.Int.{sub_ℕ}
use real_estate_crm.Base.Result.{Result, ok, ◌>>=◌, ◌>>◌, raise_if}
use real_estate_crm.Base.Result.Codes.{
  installment_booking_mismatch, installment_already_paid, demand_number_exists,
  idempotency_conflict, payment_finalized,
}
use real_estate_crm.Base.Table.{first, put, entity}
use real_estate_crm.Models.Enums.{RecordStatus, PaymentStatus, ReconciliationStatus, is_open}
use real_estate_crm.Models.Rows.{Booking}
use real_estate_crm.Models.Money.{Installment, DemandLetter, Payment, PaymentReconciliation}
use real_estate_crm.Models.Store.{
  Store, Context, audit, queue_in_app, booking_row, plan_row, installment_row, payment_row,
}
use real_estate_crm.Bookings.Flow.{has_key}
use real_estate_crm.Finance.Accounts.{open_amount, collection_recipients}

pub record DemandCreate : Type 0 where
  pub installment_id : ℕ
  pub demand_number : ℕ
  pub issue_date : ℕ
  pub due_date : ℕ

abbrev pub new_demand : ℕ → Booking → Installment → DemandCreate → Context → DemandLetter
new_demand org b i payload ctx = record {
  organization_id = org;
  id = ctx.new_id 0;
  booking_id = b.id;
  customer_id = b.customer_id;
  installment_id = some i.id;
  demand_number = payload.demand_number;
  status = RecordStatus.active;
  issue_date = payload.issue_date;
  due_date = payload.due_date;
  amount = open_amount i;
  currency = b.currency;
  created_at = ctx.now;
}

abbrev demand_number_taken : ℕ → ℕ → DemandLetter → Bool
demand_number_taken org number d = (d.organization_id == org) && (d.demand_number == number)

unfoldable pub create_demand : ℕ → ℕ → DemandCreate → Context → Store → Result Store
create_demand org booking_id payload ctx s = do
  b ← entity org booking_id s.bookings
  i ← entity org payload.installment_id s.installments
  plan ← entity org i.payment_plan_id s.plans
  raise_if (not (plan.booking_id == b.id)) 422 installment_booking_mismatch
  raise_if (leb (open_amount i) 0) 409 installment_already_paid
  raise_if (is_some (first (demand_number_taken org payload.demand_number) s.demands)) 409
      demand_number_exists
  let demand = new_demand org b i payload ctx
  let s1 =
      audit org (some ctx.actor_user_id) ctx.now "collection.demand.issued" "demand_letter"
        demand.id s
  ok (record s1 {
    demands = demand ∷ s.demands;
    notifications =
        queue_in_app org (b.salesperson_user_id ∷ collection_recipients org s)
          "DEMAND_LETTER_ISSUED" "demand_letter" demand.id ctx.now s.notifications;
  })

pub record CollectionPaymentCreate : Type 0 where
  pub amount : ℕ
  pub idempotency_key : ℕ
  pub paid_at : Option ℕ

abbrev pub collected : ℕ → Booking → CollectionPaymentCreate → Context → Payment
collected org b payload ctx = record {
  organization_id = org;
  id = ctx.new_id 0;
  booking_id = b.id;
  customer_id = b.customer_id;
  installment_id = none;
  verified_by_user_id = none;
  amount = payload.amount;
  currency = b.currency;
  status = PaymentStatus.pending;
  idempotency_key = payload.idempotency_key;
  paid_at = some (or_else payload.paid_at ctx.now);
  verified_at = none;
  created_at = ctx.now;
}

-- `create_payment` of this service: it does not ask for the booking's state or price.
unfoldable pub collect_payment : ℕ → ℕ → CollectionPaymentCreate → Context → Store → Result Store
collect_payment org booking_id payload ctx s = do
  b ← entity org booking_id s.bookings
  elim (first (has_key org payload.idempotency_key) s.payments) [
    | some p ↦ do
      raise_if (not (p.booking_id == b.id) || not (p.amount == payload.amount)) 409
          idempotency_conflict
      ok s
    | none ↦
        let p = collected org b payload ctx in
        let s1 =
          audit org (some ctx.actor_user_id) ctx.now "collection.payment.submitted" "payment" p.id
            s in
        ok (record s1 { payments = p ∷ s.payments })
  ]

pub record ReconciliationCreate : Type 0 where
  pub received_amount : ℕ
  pub idempotency_key : ℕ

abbrev pub has_reconciliation_key : ℕ → ℕ → PaymentReconciliation → Bool
has_reconciliation_key org key r = (r.organization_id == org) && (r.idempotency_key == key)

abbrev pub new_reconciliation : ℕ → Payment → ReconciliationCreate → Context → PaymentReconciliation
new_reconciliation org p payload ctx = record {
  organization_id = org;
  id = ctx.new_id 0;
  payment_id = p.id;
  reconciled_by_user_id = ctx.actor_user_id;
  status =
      if payload.received_amount == p.amount
      then ReconciliationStatus.matched
      else ReconciliationStatus.mismatched;
  expected_amount = p.amount;
  received_amount = payload.received_amount;
  difference_amount = sub_ℕ payload.received_amount p.amount;
  idempotency_key = payload.idempotency_key;
  reconciled_at = ctx.now;
}

unfoldable pub reconcile_payment : ℕ → ℕ → ReconciliationCreate → Context → Store → Result Store
reconcile_payment org payment_id payload ctx s = do
  p ← entity org payment_id s.payments
  raise_if (not (is_open p.status)) 409 payment_finalized
  elim (first (has_reconciliation_key org payload.idempotency_key) s.reconciliations) [
    | some existing ↦ ok s
    | none ↦
        let item = new_reconciliation org p payload ctx in
        let s1 =
          audit org (some ctx.actor_user_id) ctx.now "collection.payment.reconciled"
            "payment_reconciliation" item.id s in
        ok (record s1 {
          reconciliations = item ∷ s.reconciliations;
          payments = put (record p { status = PaymentStatus.processing }) s.payments;
        })
  ]
