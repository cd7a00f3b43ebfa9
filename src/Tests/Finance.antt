-- ===== src/Tests/Finance.antt =====
-- Collections at concrete requests.
use real_estate_crm.Base.{
  ◌⊎◌, ℕ, ◌+◌, ◌*◌, ◌≤◌, ◌<◌, ◌≡◌, min, refl, true, false, none, some, List, [], ◌∷◌, arith,
}
use real_estate_crm.Base.Decimal.{whole}
use real_estate_crm.Base.Result.{ok}
use real_estate_crm.Base.Table.{find}
use real_estate_crm.Models.Enums.{
  UnitStatus, BookingStatus, InstallmentStatus, PaymentStatus, FinancialChargeType, is_committed,
  is_open,
}
use real_estate_crm.Models.Money.{Payment, Installment, Refund}
use real_estate_crm.Models.Store.{Store, payment_row, refund_row}
use real_estate_crm.Partners.{commission_amount}
use real_estate_crm.Partners.Bounds.{commission_amount_nearest}
use real_estate_crm.Finance.Accounts.{plan_of, installments_of, debits, credits}
use real_estate_crm.Finance.Payments.{
  CollectionPaymentCreate, collect_payment, ReconciliationCreate, reconcile_payment,
}
use real_estate_crm.Finance.Charges.{ChargeCreate, create_charge, waive_charge, charge_amount}
use real_estate_crm.Finance.Allocation.{
  PaymentAllocationRequest, allocate_payment, share_out, allocate_loop, ordered, capacity, complete,
}
use real_estate_crm.Finance.Refunds.{
  RefundCreate, request_refund, decide_refund, process_refund, take_back, reverse_loop,
  refunded_payments, refund_total, processed,
}
use real_estate_crm.Finance.Conservation.{
  allocated_to, amount_total, open_total, IsWithin, allocate_loop-conserves, allocate_loop-IsWithin,
  allocate_payment-totals,
}
use real_estate_crm.Finance.RefundLimit.{
  IsCovered, request_refund-IsCovered, request_refund-idempotent, decide_refund-IsCovered,
  process_refund-totals,
}
use real_estate_crm.Finance.Balance.{waive_charge-create_charge}
use real_estate_crm.Finance.Order.{ordered-totals}
use real_estate_crm.Tests.Sample.{
  after, sales, manager, booking_of, with_unit, plan, installment_of, payment_of,
}

abbrev rows : List Installment
rows =
    installment_of 1 200 50 InstallmentStatus.overdue
    ∷ installment_of 2 400 0 InstallmentStatus.overdue
    ∷ []

abbrev owing : PaymentStatus → Store
owing status =
    record (with_unit UnitStatus.booking_initiated []
      (booking_of 40 BookingStatus.verification (some 7) ∷ [])) {
        plans = plan ∷ [];
        installments = rows;
        payments = payment_of status ∷ [];
      }

abbrev allocation_request : PaymentAllocationRequest
allocation_request = record {
  installment_ids = 2 ∷ [];
  allow_unallocated_credit = false;
  has_manual_reason = true;
}

abbrev allocated_store : Store
allocated_store =
    after (owing PaymentStatus.processing)
      (allocate_payment 1 70 allocation_request sales (owing PaymentStatus.processing))

allocation_made :
    allocate_payment 1 70 allocation_request sales (owing PaymentStatus.processing)
    ≡ ok allocated_store
unfolding allocate_payment share_out plan_of installments_of ordered capacity
allocation_made = refl

allocate_payment-totals_example :
    (p : Payment) × (find 1 70 (owing PaymentStatus.processing).payments ≡ some p)
    × (is_open p.status ≡ true)
    × (find 1 70 allocated_store.payments ≡ some (complete sales p))
    × (credits 1 p.booking_id allocated_store.ledger ≡ credits 1 p.booking_id [] + p.amount)
    × (allocated_to 1 70 allocated_store.allocations ≤ 0 + p.amount)
    × ((allocation_request.allow_unallocated_credit ≡ true)
        ⊎ (allocated_to 1 70 allocated_store.allocations ≡ 0 + p.amount))
allocate_payment-totals_example =
    allocate_payment-totals 1 70 allocation_request sales (owing PaymentStatus.processing)
      allocated_store allocation_made

allocate_loop-conserves_example :
    (amount_total (allocate_loop 1 70 sales [] 1 rows 300).allocations ≡ min (open_total rows) 300)
    × (amount_total (allocate_loop 1 70 sales [] 1 rows 300).allocations
          + (allocate_loop 1 70 sales [] 1 rows 300).remaining
        ≡ 300)
allocate_loop-conserves_example = allocate_loop-conserves 1 70 sales [] 1 rows 300

rows-IsWithin : IsWithin rows
rows-IsWithin = (omega arith, (omega arith, tt))

allocate_loop-IsWithin_example : IsWithin (allocate_loop 1 70 sales [] 1 rows 300).paid
allocate_loop-IsWithin_example = allocate_loop-IsWithin 1 70 sales [] 1 rows 300 rows-IsWithin

abbrev reordered : List Installment
reordered = after rows (ordered (2 ∷ []) rows)

reordering : ordered (2 ∷ []) rows ≡ ok reordered
unfolding ordered
reordering = refl

ordered-totals_example :
    (capacity reordered ≡ capacity rows)
    × (amount_total (allocate_loop 1 70 sales [] 1 reordered 300).allocations
        ≡ amount_total (allocate_loop 1 70 sales [] 1 rows 300).allocations)
ordered-totals_example = ordered-totals 1 70 sales [] (2 ∷ []) rows reordered 300 reordering

abbrev refund_request : RefundCreate
refund_request = record { amount = 200; reason = "overpaid"; idempotency_key = 13 }

abbrev settled : Store
settled = owing PaymentStatus.completed

settled-IsCovered : IsCovered settled
settled-IsCovered o k p e = ground arith

abbrev refund_asked : Store
refund_asked = after settled (request_refund 1 70 refund_request sales settled)

refund_made : request_refund 1 70 refund_request sales settled ≡ ok refund_asked
unfolding request_refund
refund_made = refl

request_refund-IsCovered_example : IsCovered refund_asked
request_refund-IsCovered_example =
    request_refund-IsCovered 1 sales settled 70 refund_request refund_asked settled-IsCovered
      refund_made

request_refund-idempotent_example :
    request_refund 1 70 refund_request sales refund_asked ≡ ok refund_asked
request_refund-idempotent_example =
    request_refund-idempotent 1 sales settled 70 refund_request refund_asked refund_made

abbrev refund_decided : Store
refund_decided = after refund_asked (decide_refund 1 100 true "agreed" manager refund_asked)

decision_made : decide_refund 1 100 true "agreed" manager refund_asked ≡ ok refund_decided
unfolding decide_refund request_refund
decision_made = refl

decide_refund-IsCovered_example : IsCovered refund_decided
decide_refund-IsCovered_example =
    decide_refund-IsCovered 1 manager refund_asked 100 true "agreed" refund_decided
      (request_refund-IsCovered 1 sales settled 70 refund_request refund_asked settled-IsCovered
        refund_made)
      decision_made

abbrev refund_paid : Store
refund_paid = after refund_decided (process_refund 1 100 "wire" manager refund_decided)

processing_made : process_refund 1 100 "wire" manager refund_decided ≡ ok refund_paid
unfolding process_refund take_back reverse_loop refunded_payments decide_refund request_refund
processing_made = refl

process_refund-totals_example :
    (r : Refund) × (booking_id : ℕ) × (find 1 100 refund_decided.refunds ≡ some r)
    × (r.status ≡ PaymentStatus.processing)
    × (r.booking_id ≡ some booking_id)
    × (find 1 100 refund_paid.refunds ≡ some (processed "wire" manager r))
    × ((o k : ℕ)
        → refund_total o k is_committed refund_paid.refunds
          ≡ refund_total o k is_committed refund_decided.refunds)
    × (debits 1 booking_id refund_paid.ledger
        ≡ debits 1 booking_id refund_decided.ledger + r.amount)
process_refund-totals_example =
    process_refund-totals 1 manager refund_decided 100 "wire" refund_paid processing_made

abbrev charge_request : ChargeCreate
charge_request = record {
  charge_type = FinancialChargeType.interest;
  calculation_date = 40;
  annual_rate_percent = some (whole 12);
  fixed_amount = none;
  reason = "late";
  idempotency_key = 14;
}

abbrev charged_store : Store
charged_store = after settled (create_charge 1 2 charge_request sales settled)

charge_made : create_charge 1 2 charge_request sales settled ≡ ok charged_store
unfolding create_charge charge_amount
charge_made = refl

abbrev waived_store : Store
waived_store = after charged_store (waive_charge 1 100 "goodwill" manager charged_store)

waiver_made : waive_charge 1 100 "goodwill" manager charged_store ≡ ok waived_store
unfolding waive_charge create_charge charge_amount
waiver_made = refl

waive_charge-create_charge_example :
    debits 1 40 waived_store.ledger + credits 1 40 []
    ≡ credits 1 40 waived_store.ledger + debits 1 40 []
waive_charge-create_charge_example =
    waive_charge-create_charge 1 2 charge_request sales settled "goodwill" manager charged_store
      waived_store refl charge_made waiver_made 40

abbrev collection : CollectionPaymentCreate
collection = record { amount = 80; idempotency_key = 15; paid_at = none }

abbrev collected_store : Store
collected_store = after settled (collect_payment 1 40 collection sales settled)

collection_made : collect_payment 1 40 collection sales settled ≡ ok collected_store
unfolding collect_payment
collection_made = refl

abbrev reconciliation : ReconciliationCreate
reconciliation = record { received_amount = 290; idempotency_key = 16 }

abbrev reconciled_store : Store
reconciled_store =
    after (owing PaymentStatus.pending)
      (reconcile_payment 1 70 reconciliation sales (owing PaymentStatus.pending))

reconciliation_made :
    reconcile_payment 1 70 reconciliation sales (owing PaymentStatus.pending) ≡ ok reconciled_store
unfolding reconcile_payment
reconciliation_made = refl

commission_amount_nearest_example :
    (2 * (commission_amount 12_345 25_000 * 1_000_000) ≤ 2 * (12_345 * 25_000) + 1_000_000)
    × (2 * (12_345 * 25_000) < 2 * (commission_amount 12_345 25_000 * 1_000_000) + 1_000_000)
    × (commission_amount 12_345 25_000 ≤ 12_345)
commission_amount_nearest_example = commission_amount_nearest 12_345 25_000 (omega arith)
