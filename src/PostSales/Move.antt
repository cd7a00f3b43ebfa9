-- ===== src/PostSales/Move.antt =====
-- The end of a transfer: `complete_transfer` of backend/app/services/post_sales.py.
use real_estate_crm.Base.{
  ℕ, zero, suc, Bool, true, false, not, ◌||◌, none, some, List, [], ◌∷◌, ◌++◌, ◌==◌, is_id, or_else,
  if◌then◌else◌,
}
use real_estate_crm.Base.Int.{ℤ, pos, negsuc}
use real_estate_crm.Base.Result.{Result, ok, ◌>>=◌, ◌>>◌, raise_if}
use real_estate_crm.Base.Result.Codes.{
  target_unit_unavailable, invalid_transfer_transition, transfer_terms_changed,
  booking_state_changed, payment_state_changed, resource_not_found,
}
use real_estate_crm.Base.Table.{update_all, put, entity}
use real_estate_crm.Models.Enums.{
  is_approved_workflow, UnitStatus, WorkflowStatus, LedgerEntryType, CommissionStatus, is_confirmed,
  is_accepted,
}
use real_estate_crm.Models.Rows.{InventoryUnit, Booking, Quotation}
use real_estate_crm.Models.Money.{CustomerLedger, LedgerKey, Commission}
use real_estate_crm.Models.PostSales.{UnitTransfer, transfer_row}
use real_estate_crm.Models.Store.{
  Store, Context, AuditLog, log, unit_row, booking_row, quotation_row,
}
use real_estate_crm.Inventory.Holds.{with_status}
use real_estate_crm.Partners.{commission_amount}
use real_estate_crm.PostSales.Cancel.{paid_amount, is_taken}
use real_estate_crm.PostSales.Complete.{ledger_line, is_commission_of}
use real_estate_crm.PostSales.Plan.{revise_plan}
use real_estate_crm.PostSales.Transfer.{unit_is_available}

abbrev pub moved_booking : InventoryUnit → Quotation → UnitTransfer → Booking → Booking
moved_booking new_unit quote t b = record b {
  unit_id = new_unit.id;
  active_unit_key = some new_unit.id;
  quotation_id = some quote.id;
  agreed_price = some t.new_agreed_price;
  discount_amount = quote.discount_amount;
  booking_amount = or_else quote.booking_amount 0;
}

-- `if item.price_difference != ZERO: ...`
abbrev pub adjustment_lines : ℕ → Booking → UnitTransfer → ℤ → Context → List CustomerLedger
adjustment_lines org b t (pos zero) ctx = []
adjustment_lines org b t (pos (suc n)) ctx =
    ledger_line org (ctx.new_id 3) LedgerEntryType.debit (suc n)
      (LedgerKey.transfer_adjustment t.id) b ctx
    ∷ []
adjustment_lines org b t (negsuc n) ctx =
    ledger_line org (ctx.new_id 3) LedgerEntryType.credit (suc n)
      (LedgerKey.transfer_adjustment t.id) b ctx
    ∷ []

abbrev pub is_paid_commission : CommissionStatus → Bool
is_paid_commission CommissionStatus.paid = true
is_paid_commission _ = false

-- A commission follows the new price, but for one that is paid out.
abbrev pub adjusted_commission : ℕ → Commission → Commission
adjusted_commission price m = record m {
  amount = if is_paid_commission m.status then m.amount else commission_amount price m.rate;
}

unfoldable pub adjustment_audits : ℕ → ℕ → Context → List Commission → List AuditLog
adjustment_audits org booking_id ctx [] = []
adjustment_audits org booking_id ctx (m ∷ ms) =
    let rest = adjustment_audits org booking_id ctx ms in
    if is_commission_of org booking_id m
    then log org (some ctx.actor_user_id) ctx.now "commission.adjusted_on_unit_transfer"
        "commission" m.id
      ∷ rest
    else rest

abbrev pub completed_transfer : ℕ → UnitTransfer → UnitTransfer
completed_transfer now t = record t {
  status = WorkflowStatus.completed;
  active_booking_key = none;
  completed_at = some now;
}

-- `s` has the revised plan.
abbrev pub store_transfer :
    ℕ → InventoryUnit → InventoryUnit → Quotation → Booking → UnitTransfer → Context → Store → Store
store_transfer org old_unit new_unit quote b t ctx s =
    let p = s.post_sales in
    record s {
      units =
          put (with_status UnitStatus.booked new_unit)
            (put (with_status UnitStatus.cancelled_released old_unit) s.units);
      bookings = put (moved_booking new_unit quote t b) s.bookings;
      ledger = adjustment_lines org b t t.price_difference ctx ++ s.ledger;
      commissions =
          update_all (is_commission_of org b.id) (adjusted_commission t.new_agreed_price)
            s.commissions;
      post_sales = record p { transfers = put (completed_transfer ctx.now t) p.transfers };
      audits =
          log org (some ctx.actor_user_id) ctx.now "unit_transfer.completed" "unit_transfer" t.id
            ∷ adjustment_audits org b.id ctx s.commissions
          ++ s.audits;
    }

-- From the terms of the quotation on.
unfoldable pub settle_transfer :
    ℕ → InventoryUnit → InventoryUnit → Booking → UnitTransfer → Context → Store → Result Store
unfolding paid_amount revise_plan adjustment_audits commission_amount
settle_transfer org old_unit new_unit b t ctx s = do
  quote ← entity org t.quotation_id s.quotations
  raise_if
      (not (is_accepted quote.status)
        || not (is_id quote.unit_id new_unit.id)
        || not (is_id quote.final_agreed_value t.new_agreed_price))
      409 transfer_terms_changed
  raise_if (not (paid_amount org b.id s == t.paid_amount_snapshot)) 409 payment_state_changed
  s1 ← revise_plan org b t ctx s
  ok (store_transfer org old_unit new_unit quote b t ctx s1)

unfoldable pub complete_transfer : ℕ → ℕ → Context → Store → Result Store
unfolding unit_is_available settle_transfer
complete_transfer org transfer_id ctx s = do
  t ← entity org transfer_id s.post_sales.transfers
  old_unit ← entity org t.from_unit_id s.units
  new_unit ← entity org t.to_unit_id s.units
  raise_if (old_unit.id == new_unit.id) 404 resource_not_found
  b ← entity org t.booking_id s.bookings
  raise_if (not (is_approved_workflow t.status)) 409 invalid_transfer_transition
  raise_if
      (not (is_confirmed b.status)
        || not (b.unit_id == old_unit.id)
        || not (is_id b.active_unit_key old_unit.id)
        || not (is_taken old_unit.status))
      409 booking_state_changed
  raise_if (not (unit_is_available org new_unit s)) 409 target_unit_unavailable
  settle_transfer org old_unit new_unit b t ctx s
