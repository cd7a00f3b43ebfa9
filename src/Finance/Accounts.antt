-- ===== src/Finance/Accounts.antt =====
-- What the other operations of backend/app/services/finance.py read: `_plan`, `_installments` and
-- the amounts of `_account`; and the users that a notice goes to, `recipients_for_permission` of
-- backend/app/services/notifications.py.
use real_estate_crm.Base.{
  ℕ, ◌-◌, Bool, true, false, not, ◌&&◌, ◌||◌, Option, none, some, List, [], ◌∷◌, map, ltb, leb,
  ◌==◌, if◌then◌else◌, is_id,
}
use real_estate_crm.Base.Table.{first_by, select, sort_by, sum_of}
use real_estate_crm.Models.Enums.{
  InstallmentStatus, LedgerEntryType, is_waived, is_debit, is_credit,
}
use real_estate_crm.Models.Money.{PaymentPlan, Installment, CustomerLedger}
use real_estate_crm.Models.Store.{Store, Permission, Grant, collections_approve, collections_manage}
use real_estate_crm.Bookings.Parts.{is_plan_of}
use real_estate_crm.Bookings.Approval.{is_active_user}

-- `_plan`: the newest plan of a booking.
unfoldable pub plan_of : ℕ → ℕ → List PaymentPlan → Option PaymentPlan
plan_of org booking_id plans =
    first_by (λ p q. ltb q.created_at p.created_at) (select (is_plan_of org booking_id) plans)

-- `order_by(Installment.due_date, Installment.sequence)`
abbrev pub by_due_date : Installment → Installment → Bool
by_due_date i j =
    ltb i.due_date j.due_date || ((i.due_date == j.due_date) && leb i.sequence j.sequence)

-- The status that `_installments` gives to a row that it reads.
abbrev pub refreshed_status : ℕ → Installment → InstallmentStatus
refreshed_status today i =
    if is_waived i.status
    then i.status
    else if leb i.amount i.paid_amount
    then InstallmentStatus.paid
    else if ltb 0 i.paid_amount
    then (if leb today i.due_date
        then InstallmentStatus.partially_paid
        else InstallmentStatus.overdue)
    else if ltb i.due_date today
    then InstallmentStatus.overdue
    else if i.due_date == today
    then InstallmentStatus.due
    else InstallmentStatus.scheduled

abbrev pub refresh : ℕ → Installment → Installment
refresh today i = record i { status = refreshed_status today i }

abbrev pub is_installment_of : ℕ → ℕ → Installment → Bool
is_installment_of org plan_id i = (i.organization_id == org) && (i.payment_plan_id == plan_id)

-- `_installments`
unfoldable pub installments_of : ℕ → ℕ → ℕ → List Installment → List Installment
installments_of org plan_id today rows =
    map (refresh today) (sort_by by_due_date (select (is_installment_of org plan_id) rows))

abbrev pub open_amount : Installment → ℕ
open_amount i = i.amount - i.paid_amount

abbrev pub is_entry_of : ℕ → ℕ → (LedgerEntryType → Bool) → CustomerLedger → Bool
is_entry_of org booking_id kind e =
    (e.organization_id == org) && is_id e.booking_id booking_id && kind e.entry_type

-- `debits`, `credits` and `outstanding` of `_account`.
unfoldable pub debits : ℕ → ℕ → List CustomerLedger → ℕ
debits org booking_id = sum_of (is_entry_of org booking_id is_debit) (λ e. e.amount)

unfoldable pub credits : ℕ → ℕ → List CustomerLedger → ℕ
credits org booking_id = sum_of (is_entry_of org booking_id is_credit) (λ e. e.amount)

unfoldable pub outstanding : ℕ → ℕ → List CustomerLedger → ℕ
unfolding debits credits
outstanding org booking_id ledger = debits org booking_id ledger - credits org booking_id ledger

-- `overdue` and `next_due_date` of `_account`, over the installments in their order.
unfoldable pub overdue : ℕ → List Installment → ℕ
overdue today = sum_of (λ i. ltb i.due_date today && not (is_waived i.status)) open_amount

abbrev is_sooner : ℕ → Option ℕ → Bool
is_sooner day none = true
is_sooner day (some d) = ltb day d

next_due_from : Option ℕ → List Installment → Option ℕ
next_due_from next [] = next
next_due_from next (i ∷ is) =
    next_due_from
      (if ltb 0 (open_amount i) && is_sooner i.due_date next then some i.due_date else next) is

unfoldable pub next_due : List Installment → Option ℕ
unfolding next_due_from
next_due is = next_due_from none is

-- `{permission, f"{module}.manage"}` for "collections.approve".
abbrev collects : Permission → Bool
collects collections_approve = true
collects collections_manage = true
collects _ = false

unfoldable pub collection_recipients : ℕ → Store → List (Option ℕ)
collection_recipients org s =
    map (λ (g : Grant). some g.user_id)
      (select (λ g. (g.organization_id == org) && collects g.code && is_active_user org g.user_id s)
        s.grants)
