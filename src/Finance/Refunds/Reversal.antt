-- ===== src/Finance/Refunds/Reversal.antt =====
-- What a refund takes back: the payments, the allocations and the loop of `process_refund` of
-- backend/app/services/finance.py.
use real_estate_crm.Base.{
  ℕ, ◌-◌, min, Bool, not, ◌&&◌, ◌||◌, Option, none, some, List, [], ◌∷◌, ltb, leb, ◌==◌,
  if◌then◌else◌, is_some, or_else, elem,
}
use real_estate_crm.Base.Result.{Result, ok, err, ◌>>=◌}
use real_estate_crm.Base.Result.Codes.{refund_not_approved}
use real_estate_crm.Base.Table.{select, sort_by, put, entity}
use real_estate_crm.Models.Enums.{InstallmentStatus, is_settled}
use real_estate_crm.Models.Money.{Installment, Payment, PaymentAllocation}
use real_estate_crm.Models.Store.{Context, installment_row, payment_row, allocation_row, refund_row}

-- `order_by(Payment.paid_at.desc(), Payment.created_at.desc())`, where no time comes last.
abbrev by_paid_at : Payment → Payment → Bool
by_paid_at p q =
    ltb (or_else q.paid_at 0) (or_else p.paid_at 0)
    || ((or_else p.paid_at 0 == or_else q.paid_at 0) && leb q.created_at p.created_at)

abbrev is_settled_of : ℕ → ℕ → Payment → Bool
is_settled_of org booking_id p =
    (p.organization_id == org) && (p.booking_id == booking_id) && is_settled p.status

-- The payments that a refund takes back: its own, or all of the booking for a cancellation.
unfoldable pub refunded_payments :
    ℕ → ℕ → Option ℕ → Option ℕ → List Payment → Result (List Payment)
refunded_payments org booking_id (some k) cancellation_id payments = do
  p ← entity org k payments
  ok (p ∷ [])
refunded_payments org booking_id none (some c) payments =
    ok (sort_by by_paid_at (select (is_settled_of org booking_id) payments))
refunded_payments org booking_id none none payments = err (409, refund_not_approved)

abbrev pub is_live_allocation : ℕ → List ℕ → PaymentAllocation → Bool
is_live_allocation org payment_ids a =
    (a.organization_id == org) && elem a.payment_id payment_ids && not (is_some a.reversed_at)

-- `order_by(PaymentAllocation.allocated_at.desc())`
abbrev pub live_allocations : ℕ → List ℕ → List PaymentAllocation → List PaymentAllocation
live_allocations org payment_ids rows =
    sort_by (λ a b. leb b.allocated_at a.allocated_at)
      (select (is_live_allocation org payment_ids) rows)

abbrev pub give_back : ℕ → ℕ → Installment → Installment
give_back today amount i = record i {
  paid_amount = i.paid_amount - amount;
  status =
      if ltb i.due_date today
      then InstallmentStatus.overdue
      else if ltb 0 (i.paid_amount - amount)
      then InstallmentStatus.partially_paid
      else InstallmentStatus.scheduled;
}

-- `if allocation.installment_id: ...`
abbrev pub reverse_installment : ℕ → ℕ → ℕ → Option ℕ → List Installment → Result (List Installment)
reverse_installment org today amount none installments = ok installments
reverse_installment org today amount (some k) installments = do
  i ← entity org k installments
  ok (put (give_back today amount i) installments)

abbrev pub reverse_allocation : ℕ → ℕ → PaymentAllocation → PaymentAllocation
reverse_allocation now amount a =
    if amount == a.amount
    then record a { reversed_at = some now }
    else record a { amount = a.amount - amount }

-- What the loop has: both tables as changed so far, and what remains to be taken back.
pub record Reversed : Type 0 where
  pub installments : List Installment
  pub allocations : List PaymentAllocation
  pub remaining : ℕ

unfoldable pub reverse_one : ℕ → Context → PaymentAllocation → Reversed → Result Reversed
reverse_one org ctx a acc = do
  let amount = min a.amount acc.remaining
  installments ← reverse_installment org ctx.today amount a.installment_id acc.installments
  ok (record {
    installments = installments;
    allocations = put (reverse_allocation ctx.now amount a) acc.allocations;
    remaining = acc.remaining - amount;
  })

unfoldable pub reverse_loop : ℕ → Context → List PaymentAllocation → Reversed → Result Reversed
unfolding reverse_one
reverse_loop org ctx [] acc = ok acc
reverse_loop org ctx (a ∷ as') acc =
    if leb acc.remaining 0 then ok acc else (reverse_one org ctx a acc >>= reverse_loop org ctx as')
