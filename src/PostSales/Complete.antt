-- ===== src/PostSales/Complete.antt =====
-- The end of a cancellation: `complete_cancellation` of backend/app/services/post_sales.py.
use real_estate_crm.Base.{
  ℕ, Bool, not, ◌&&◌, ◌||◌, none, some, List, [], ◌∷◌, ◌++◌, ltb, ◌==◌, is_id, or_else,
  if◌then◌else◌,
}
use real_estate_crm.Base.Result.{Result, ok, ◌>>=◌, ◌>>◌, raise_if}
use real_estate_crm.Base.Result.Codes.{
  invalid_cancellation_transition, booking_state_changed, payment_state_changed,
}
use real_estate_crm.Base.Table.{update_all, put, entity}
use real_estate_crm.Models.Enums.{
  is_approved_workflow, UnitStatus, BookingStatus, WorkflowStatus, PaymentStatus, LedgerEntryType,
  RecordStatus, AgreementStatus, CommissionStatus, is_active, is_confirmed,
}
use real_estate_crm.Models.Rows.{InventoryUnit, Booking}
use real_estate_crm.Models.Money.{Refund, CustomerLedger, LedgerKey, Commission}
use real_estate_crm.Models.PostSales.{Cancellation, Agreement, cancellation_row}
use real_estate_crm.Models.Store.{Store, Context, AuditLog, log, unit_row, booking_row}
use real_estate_crm.Inventory.Holds.{with_status}
use real_estate_crm.Bookings.Parts.{is_plan_of}
use real_estate_crm.PostSales.Cancel.{paid_amount, is_taken}

abbrev pub ended_booking : ℕ → Booking → Booking
ended_booking now b = record b {
  status = BookingStatus.cancelled;
  active_unit_key = none;
  cancelled_at = some now;
}

abbrev pub completed_cancellation : ℕ → Cancellation → Cancellation
completed_cancellation now c = record c {
  status = WorkflowStatus.completed;
  active_booking_key = none;
  unit_released_at = some now;
  completed_at = some now;
}

-- A line of the ledger of the booking.
abbrev pub ledger_line :
    ℕ → ℕ → LedgerEntryType → ℕ → LedgerKey → Booking → Context → CustomerLedger
ledger_line org k entry_type amount key b ctx = record {
  organization_id = org;
  id = k;
  customer_id = b.customer_id;
  booking_id = some b.id;
  payment_id = none;
  receipt_id = none;
  entry_type = entry_type;
  amount = amount;
  currency = b.currency;
  idempotency_key = key;
  posted_at = ctx.now;
}

-- The contract value is reversed, and what the cancellation keeps is charged.
abbrev pub cancellation_lines : ℕ → Booking → Cancellation → Context → List CustomerLedger
cancellation_lines org b c ctx =
    let reversal =
      ledger_line org (ctx.new_id 0) LedgerEntryType.credit (or_else b.agreed_price 0)
        (LedgerKey.contract_reversal c.id) b ctx in
    let kept =
      ledger_line org (ctx.new_id 1) LedgerEntryType.debit c.deduction_amount
        (LedgerKey.cancellation_deduction c.id) b ctx in
    if ltb 0 c.deduction_amount then kept ∷ reversal ∷ [] else reversal ∷ []

-- The key of the refund is a text that the service makes of the cancellation, and no client's.
abbrev pub cancellation_refund : ℕ → Booking → Cancellation → Context → Refund
cancellation_refund org b c ctx = record {
  organization_id = org;
  id = ctx.new_id 2;
  cancellation_id = some c.id;
  booking_id = some b.id;
  payment_id = none;
  customer_id = b.customer_id;
  requested_by_user_id = some c.requested_by_user_id;
  approved_by_user_id = c.approved_by_user_id;
  status = PaymentStatus.processing;
  amount = c.refund_amount;
  currency = b.currency;
  reference_number = none;
  reason = some "Approved cancellation";
  decision_notes = c.decision_notes;
  idempotency_key = none;
  requested_at = c.requested_at;
  approved_at = c.decided_at;
  rejected_at = none;
  processed_at = none;
}

abbrev pub cancellation_refunds : ℕ → Booking → Cancellation → Context → List Refund
cancellation_refunds org b c ctx =
    if ltb 0 c.refund_amount then cancellation_refund org b c ctx ∷ [] else []

abbrev pub is_commission_of : ℕ → ℕ → Commission → Bool
is_commission_of org booking_id m = (m.organization_id == org) && (m.booking_id == booking_id)

abbrev pub reverse_commission : Commission → Commission
reverse_commission m = record m { status = CommissionStatus.reversed }

abbrev pub is_agreement_of : ℕ → ℕ → Agreement → Bool
is_agreement_of org booking_id a = (a.organization_id == org) && (a.booking_id == booking_id)

-- The audits of the commissions that a cancellation reverses.
unfoldable pub reversal_audits : ℕ → ℕ → Context → List Commission → List AuditLog
reversal_audits org booking_id ctx [] = []
reversal_audits org booking_id ctx (m ∷ ms) =
    let rest = reversal_audits org booking_id ctx ms in
    if is_commission_of org booking_id m
    then log org (some ctx.actor_user_id) ctx.now "commission.reversed_on_cancellation" "commission"
        m.id
      ∷ rest
    else rest

abbrev pub store_completion : ℕ → InventoryUnit → Booking → Cancellation → Context → Store → Store
store_completion org unit b c ctx s =
    let p = s.post_sales in
    record s {
      bookings = put (ended_booking ctx.now b) s.bookings;
      units = put (with_status UnitStatus.cancelled_released unit) s.units;
      ledger = cancellation_lines org b c ctx ++ s.ledger;
      refunds = cancellation_refunds org b c ctx ++ s.refunds;
      plans =
          update_all (λ l. is_plan_of org b.id l && is_active l.status)
            (λ l. record l { status = RecordStatus.archived }) s.plans;
      commissions = update_all (is_commission_of org b.id) reverse_commission s.commissions;
      post_sales = record p {
        cancellations = put (completed_cancellation ctx.now c) p.cancellations;
        agreements =
            update_all (is_agreement_of org b.id)
              (λ a. record a { status = AgreementStatus.terminated }) p.agreements;
      };
      audits =
          log org (some ctx.actor_user_id) ctx.now "cancellation.completed" "cancellation" c.id
            ∷ reversal_audits org b.id ctx s.commissions
          ++ s.audits;
    }

unfoldable pub complete_cancellation : ℕ → ℕ → Context → Store → Result Store
unfolding paid_amount reversal_audits
complete_cancellation org cancellation_id ctx s = do
  c ← entity org cancellation_id s.post_sales.cancellations
  b ← entity org c.booking_id s.bookings
  unit ← entity org b.unit_id s.units
  raise_if (not (is_approved_workflow c.status)) 409 invalid_cancellation_transition
  raise_if
      (not (is_confirmed b.status)
        || not (is_id b.active_unit_key unit.id)
        || not (is_taken unit.status))
      409 booking_state_changed
  raise_if (not (paid_amount org b.id s == c.paid_amount_snapshot)) 409 payment_state_changed
  ok (store_completion org unit b c ctx s)
