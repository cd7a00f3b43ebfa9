-- ===== src/Finance/Charges.antt =====
-- Interest, penalties and their waiver: `create_charge` and `waive_charge` of
-- backend/app/services/finance.py.
use real_estate_crm.Base.{
  ℕ, ◌-◌, ◌*◌, ◌^◌, String, Bool, not, ◌&&◌, Option, none, some, ◌∷◌, leb, ◌==◌, or_else,
}
use real_estate_crm.Base.Money.{round_div}
use real_estate_crm.Base.Decimal.{Unsigned, whole}
use real_estate_crm.Base.Result.{Result, ok, ◌>>=◌, ◌>>◌, raise_if}
use real_estate_crm.Base.Result.Codes.{
  no_chargeable_outstanding, zero_financial_charge, charge_finalized,
}
use real_estate_crm.Base.Table.{first, put, entity}
use real_estate_crm.Models.Enums.{
  FinancialChargeType, FinancialChargeStatus, LedgerEntryType, is_waivable,
}
use real_estate_crm.Models.Rows.{Booking}
use real_estate_crm.Models.Money.{
  Installment, FinancialCharge, CustomerLedger, charge_applied, charge_waived,
}
use real_estate_crm.Models.Store.{
  Store, Context, audit, booking_row, plan_row, installment_row, charge_row,
}
use real_estate_crm.Finance.Accounts.{open_amount}

-- The rate is in percent per year, with any number of decimals.
pub record ChargeCreate : Type 0 where
  pub charge_type : FinancialChargeType
  pub calculation_date : ℕ
  pub annual_rate_percent : Option Unsigned
  pub fixed_amount : Option ℕ
  pub reason : String
  pub idempotency_key : ℕ

-- `max((payload.calculation_date - installment.due_date).days, 0)`
abbrev pub days_late : ℕ → Installment → ℕ
days_late date i = date - i.due_date

-- `payload.annual_rate_percent or ZERO`
abbrev pub annual_rate : ChargeCreate → Unsigned
annual_rate payload = or_else payload.annual_rate_percent (whole 0)

-- A rate in its column, which has four decimals, in ten thousandths of a percent.
abbrev pub stored_rate : Unsigned → ℕ
stored_rate rate = round_div (rate.digits * 10_000) (10 ^ rate.places)

-- The amount of a charge: fixed, or simple interest over a year of 365 days.
unfoldable pub charge_amount : Option ℕ → ℕ → Unsigned → ℕ → ℕ
unfolding round_div
charge_amount (some fixed) principal rate days = fixed
charge_amount none principal rate days =
    round_div (principal * rate.digits * days) (36_500 * 10 ^ rate.places)

abbrev pub has_charge_key : ℕ → ℕ → FinancialCharge → Bool
has_charge_key org key c = (c.organization_id == org) && (c.idempotency_key == key)

abbrev pub charged : Installment → ChargeCreate → ℕ
charged i payload =
    charge_amount payload.fixed_amount (open_amount i) (annual_rate payload)
      (days_late payload.calculation_date i)

abbrev pub new_charge : ℕ → Booking → Installment → ChargeCreate → Context → FinancialCharge
new_charge org b i payload ctx = record {
  organization_id = org;
  id = ctx.new_id 0;
  booking_id = b.id;
  customer_id = b.customer_id;
  installment_id = i.id;
  created_by_user_id = ctx.actor_user_id;
  waived_by_user_id = none;
  charge_type = payload.charge_type;
  status = FinancialChargeStatus.applied;
  principal_amount = open_amount i;
  rate = stored_rate (annual_rate payload);
  days_calculated = days_late payload.calculation_date i;
  amount = charged i payload;
  paid_amount = 0;
  currency = b.currency;
  calculation_date = payload.calculation_date;
  reason = payload.reason;
  idempotency_key = payload.idempotency_key;
  waived_reason = none;
  waived_at = none;
}

abbrev pub charge_debit : ℕ → FinancialCharge → Context → CustomerLedger
charge_debit org c ctx = record {
  organization_id = org;
  id = ctx.new_id 1;
  customer_id = c.customer_id;
  booking_id = some c.booking_id;
  payment_id = none;
  receipt_id = none;
  entry_type = LedgerEntryType.debit;
  amount = c.amount;
  currency = c.currency;
  idempotency_key = charge_applied c.id;
  posted_at = ctx.now;
}

abbrev pub store_charge : ℕ → FinancialCharge → Context → Store → Store
store_charge org c ctx s =
    let s1 =
      audit org (some ctx.actor_user_id) ctx.now "collection.charge.applied" "financial_charge" c.id
        s in
    record s1 { charges = c ∷ s.charges; ledger = charge_debit org c ctx ∷ s.ledger }

unfoldable pub create_charge : ℕ → ℕ → ChargeCreate → Context → Store → Result Store
unfolding charge_amount
create_charge org installment_id payload ctx s = do
  i ← entity org installment_id s.installments
  plan ← entity org i.payment_plan_id s.plans
  b ← entity org plan.booking_id s.bookings
  elim (first (has_charge_key org payload.idempotency_key) s.charges) [
    | some existing ↦ ok s
    | none ↦ do
      raise_if (leb (open_amount i) 0) 409 no_chargeable_outstanding
      raise_if (leb (charged i payload) 0) 422 zero_financial_charge
      ok (store_charge org (new_charge org b i payload ctx) ctx s)
  ]

abbrev pub waived_charge : String → Context → FinancialCharge → FinancialCharge
waived_charge reason ctx c = record c {
  status = FinancialChargeStatus.waived;
  waived_by_user_id = some ctx.actor_user_id;
  waived_reason = some reason;
  waived_at = some ctx.now;
}

-- No operation raises `paid_amount` above zero, so the difference is not negative.
abbrev pub waiver_credit : ℕ → FinancialCharge → Context → CustomerLedger
waiver_credit org c ctx = record {
  organization_id = org;
  id = ctx.new_id 1;
  customer_id = c.customer_id;
  booking_id = some c.booking_id;
  payment_id = none;
  receipt_id = none;
  entry_type = LedgerEntryType.credit;
  amount = c.amount - c.paid_amount;
  currency = c.currency;
  idempotency_key = charge_waived c.id;
  posted_at = ctx.now;
}

abbrev pub store_waiver : ℕ → FinancialCharge → String → Context → Store → Store
store_waiver org c reason ctx s =
    let s1 =
      audit org (some ctx.actor_user_id) ctx.now "collection.charge.waived" "financial_charge" c.id
        s in
    record s1 {
      charges = put (waived_charge reason ctx c) s.charges;
      ledger = waiver_credit org c ctx ∷ s.ledger;
    }

unfoldable pub waive_charge : ℕ → ℕ → String → Context → Store → Result Store
waive_charge org charge_id reason ctx s = do
  c ← entity org charge_id s.charges
  raise_if (not (is_waivable c.status)) 409 charge_finalized
  ok (store_waiver org c reason ctx s)
