-- ===== src/PostSales/Plan.antt =====
-- The payment plan after a transfer: `_revise_plan` of backend/app/services/post_sales.py.
use real_estate_crm.Base.{
  ℕ, suc, ◌+◌, ◌-◌, ◌*◌, min, Bool, false, not, ◌&&◌, Option, none, some, List, [], ◌∷◌, ◌++◌, ltb,
  leb, ◌==◌, is_some, if◌then◌else◌,
}
use real_estate_crm.Base.Result.{Result, ok, ◌>>=◌, ◌>>◌, raise_if}
use real_estate_crm.Base.Result.Codes.{payments_exceed_new_price, integrity_error}
use real_estate_crm.Base.Table.{first, select, sort_by, update_all, put, find}
use real_estate_crm.Models.Enums.{RecordStatus, InstallmentStatus, is_active}
use real_estate_crm.Models.Rows.{Booking}
use real_estate_crm.Models.Money.{PaymentPlan, Installment, PaymentAllocation, AllocationKey}
use real_estate_crm.Models.PostSales.{UnitTransfer, PlannedInstallment}
use real_estate_crm.Models.Store.{Store, Context, plan_row, installment_row}
use real_estate_crm.Bookings.Parts.{is_plan_of}

-- The rows of the new installments.
unfoldable pub planned_rows : ℕ → ℕ → Context → ℕ → List PlannedInstallment → List Installment
planned_rows org plan_id ctx sequence [] = []
planned_rows org plan_id ctx sequence (i ∷ is) =
    record {
      organization_id = org;
      id = ctx.new_id (11 + 2 * sequence);
      payment_plan_id = plan_id;
      sequence = sequence;
      due_date = i.due_date;
      amount = i.amount;
      paid_amount = 0;
      status = InstallmentStatus.scheduled;
    }
    ∷ planned_rows org plan_id ctx (suc sequence) is

abbrev pub paid_up : ℕ → Installment → Installment
paid_up amount i = record i {
  paid_amount = i.paid_amount + amount;
  status = InstallmentStatus.paid;
}

abbrev pub partly_paid : ℕ → Installment → Installment
partly_paid amount i = record i {
  paid_amount = i.paid_amount + amount;
  status = InstallmentStatus.partially_paid;
}

-- What the inner loop has: the installments that it passed and those from its index on, the new
-- allocations, the count of identifiers that are drawn, and what remains.
pub record Spread : Type 0 where
  pub passed : List Installment
  pub left : List Installment
  pub moved : List PaymentAllocation
  pub drawn : ℕ
  pub remaining : ℕ

module _ (org transfer_id : ℕ) (ctx : Context) where
  abbrev pub moved_allocation : ℕ → PaymentAllocation → Installment → ℕ → PaymentAllocation
  moved_allocation drawn old i amount = record {
    organization_id = org;
    id = ctx.new_id (1_000 + drawn);
    payment_id = old.payment_id;
    installment_id = some i.id;
    demand_letter_id = none;
    allocated_by_user_id = ctx.actor_user_id;
    amount = amount;
    idempotency_key = AllocationKey.transfer_allocation transfer_id old.id i.id;
    allocated_at = ctx.now;
    reversed_at = none;
  }

  -- `if transferred > ZERO: db.add(...)`
  abbrev pub add_moved :
      ℕ → PaymentAllocation → Installment → ℕ → List PaymentAllocation → List PaymentAllocation
  add_moved drawn old i amount rows =
      if ltb 0 amount then moved_allocation drawn old i amount ∷ rows else rows

  -- The loop `while remaining > ZERO and index < len(new_installments)` for one old allocation: an
  -- installment that it does not fill ends it.
  unfoldable pub spread : ℕ → PaymentAllocation → ℕ → List Installment → Spread
  spread drawn old remaining [] = record {
    passed = [];
    left = [];
    moved = [];
    drawn = drawn;
    remaining = remaining;
  }
  spread drawn old remaining (i ∷ is) =
      let amount = min (i.amount - i.paid_amount) remaining in
      let rest = spread (suc drawn) old (remaining - amount) is in
      let filled : Spread = record {
        passed = paid_up amount i ∷ rest.passed;
        left = rest.left;
        moved = add_moved drawn old i amount rest.moved;
        drawn = rest.drawn;
        remaining = rest.remaining;
      } in
      let stopped : Spread = record {
        passed = [];
        left = partly_paid amount i ∷ is;
        moved = add_moved drawn old i amount [];
        drawn = suc drawn;
        remaining = remaining - amount;
      } in
      let idle : Spread = record {
        passed = [];
        left = i ∷ is;
        moved = [];
        drawn = drawn;
        remaining = remaining;
      } in
      if leb remaining 0
      then idle
      else if leb i.amount (i.paid_amount + amount)
      then filled
      else stopped

  -- The loop over the old allocations.
  unfoldable pub spread_all :
      ℕ
      → List PaymentAllocation
      → List Installment
      → Result (List Installment × List PaymentAllocation)
  unfolding spread
  spread_all drawn [] is = ok (is, [])
  spread_all drawn (old ∷ olds) is = do
    let m = spread drawn old old.amount is
    raise_if (ltb 0 m.remaining) 409 payments_exceed_new_price
    rest ← spread_all m.drawn olds m.left
    ok (m.passed ++ rest.0, m.moved ++ rest.1)

abbrev pub is_current_plan : ℕ → ℕ → PaymentPlan → Bool
is_current_plan org booking_id p = is_plan_of org booking_id p && is_active p.status

abbrev pub is_installment_of_plan : ℕ → Option PaymentPlan → Option Installment → Bool
is_installment_of_plan org (some p) (some i) = i.payment_plan_id == p.id
is_installment_of_plan org _ _ = false

abbrev pub find_installment : ℕ → Option ℕ → List Installment → Option Installment
find_installment org none is = none
find_installment org (some k) is = find org k is

-- The allocations to the installments of the current plan that are not reversed.
abbrev pub is_moved : ℕ → Option PaymentPlan → List Installment → PaymentAllocation → Bool
is_moved org current is a =
    (a.organization_id == org)
    && is_installment_of_plan org current (find_installment org a.installment_id is)
    && not (is_some a.reversed_at)

abbrev pub by_allocated_at : List PaymentAllocation → List PaymentAllocation
by_allocated_at = sort_by (λ a b. leb a.allocated_at b.allocated_at)

abbrev pub archive_current : Option PaymentPlan → List PaymentPlan → List PaymentPlan
archive_current none plans = plans
archive_current (some p) plans = put (record p { status = RecordStatus.archived }) plans

-- The name of the plan is a text that the service makes of the transfer.
abbrev pub transfer_plan : ℕ → Booking → UnitTransfer → Context → PaymentPlan
transfer_plan org b t ctx = record {
  organization_id = org;
  id = ctx.new_id 1;
  booking_id = b.id;
  name = ctx.new_id 2;
  status = RecordStatus.active;
  currency = b.currency;
  total_amount = t.new_agreed_price;
  effective_from = t.plan_effective_from;
  created_at = ctx.now;
}

unfoldable pub revise_plan : ℕ → Booking → UnitTransfer → Context → Store → Result Store
unfolding planned_rows spread_all
revise_plan org b t ctx s = do
  let current = first (is_current_plan org b.id) s.plans
  let old = by_allocated_at (select (is_moved org current s.installments) s.allocations)
  let rows = planned_rows org (ctx.new_id 1) ctx 1 t.plan_installments
  raise_if (is_some (first (λ p. is_plan_of org b.id p && (p.name == ctx.new_id 2)) s.plans)) 500
      integrity_error
  (installments, moved) ← spread_all org t.id ctx 0 old rows
  ok record s {
    plans = transfer_plan org b t ctx ∷ archive_current current s.plans;
    installments = installments ++ s.installments;
    allocations =
        moved
        ++ update_all (is_moved org current s.installments)
            (λ a. record a { reversed_at = some ctx.now }) s.allocations;
  }
