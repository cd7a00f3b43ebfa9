-- ===== src/Tests/PostSales.antt =====
-- The end of a sale and its transfer at concrete requests.
use real_estate_crm.Base.{ℕ, ◌+◌, ◌≡◌, ◌≢◌, refl, false, none, some, List, [], ◌∷◌, or_else, arith}
use real_estate_crm.Base.Int.{pos}
use real_estate_crm.Base.Result.{Result, ok, err}
use real_estate_crm.Base.Result.Codes.{
  payment_state_changed, invalid_cancellation_transition, active_cancellation_exists,
}
use real_estate_crm.Base.Table.{find}
use real_estate_crm.Models.Enums.{UnitStatus, BookingStatus, PaymentStatus, WorkflowStatus}
use real_estate_crm.Models.Rows.{InventoryUnit, Booking, Quotation}
use real_estate_crm.Models.Money.{PaymentAllocation, AllocationKey, Installment}
use real_estate_crm.Models.PostSales.{Cancellation, UnitTransfer, PlannedInstallment}
use real_estate_crm.Models.Store.{Store, booking_row, unit_row}
use real_estate_crm.Finance.Accounts.{debits, credits}
use real_estate_crm.Finance.Conservation.{IsWithin}
use real_estate_crm.Workflow.Frames.{IsSafe}
use real_estate_crm.PostSales.Cancel.{
  Deduction, deduction_amount, paid_amount, review_cancellation, decide_cancellation,
  request_cancellation,
}
use real_estate_crm.PostSales.Complete.{complete_cancellation}
use real_estate_crm.PostSales.Sound.{
  refunds_due, complete_cancellation-totals, complete_cancellation-stuck,
}
use real_estate_crm.PostSales.Plan.{spread_all, planned_rows}
use real_estate_crm.PostSales.Moved.{paid_total, moved_total, spread_all-planned}
use real_estate_crm.PostSales.Move.{complete_transfer}
use real_estate_crm.PostSales.Relocated.{complete_transfer-moves, IsMoved}
use real_estate_crm.Tests.Sample.{
  after, manager, unit_of, booking_of, payment_of, with_unit, quotation,
}

abbrev sold_booking : Booking
sold_booking = booking_of 40 BookingStatus.confirmed (some 7)

abbrev pub approved_cancellation : ℕ → Cancellation
approved_cancellation paid = record {
  organization_id = 1;
  id = 80;
  booking_id = 40;
  requested_by_user_id = 2;
  reviewed_by_user_id = some 4;
  approved_by_user_id = some 3;
  status = WorkflowStatus.approved;
  reason = "moved abroad";
  review_notes = none;
  decision_notes = none;
  active_booking_key = some 40;
  paid_amount_snapshot = paid;
  deduction_amount = 75;
  refund_amount = 225;
  requested_at = 600;
  reviewed_at = none;
  decided_at = none;
  unit_released_at = none;
  completed_at = none;
}

-- A confirmed booking with 300 paid, and a cancellation whose review found `paid`.
abbrev pub sold : ℕ → Store
sold paid = record (with_unit UnitStatus.booked [] (sold_booking ∷ [])) {
  payments = payment_of PaymentStatus.completed ∷ [];
  post_sales = record {
    cancellations = approved_cancellation paid ∷ [];
    transfers = [];
    agreements = [];
  };
}

-- A quarter of 300.
quarter : deduction_amount (Deduction.percentage 250_000) 300 ≡ 75
unfolding deduction_amount
quarter = refl

abbrev ended_store : Store
ended_store = after (sold 300) (complete_cancellation 1 80 manager (sold 300))

ending : complete_cancellation 1 80 manager (sold 300) ≡ ok ended_store
unfolding complete_cancellation
ending = refl

complete_cancellation-totals_example :
    (b : Booking) × (find 1 40 (sold 300).bookings ≡ some b)
    × (credits 1 b.id ended_store.ledger
        ≡ credits 1 b.id (sold 300).ledger + or_else b.agreed_price 0)
    × (debits 1 b.id ended_store.ledger ≡ debits 1 b.id (sold 300).ledger + 75)
    × (refunds_due 1 b.id ended_store.refunds + 75
        ≡ refunds_due 1 b.id (sold 300).refunds + paid_amount 1 b.id (sold 300))
complete_cancellation-totals_example =
    complete_cancellation-totals 1 80 manager (sold 300) ended_store (approved_cancellation 300)
      ending refl refl

-- The review found 200, and another 100 came in before the completion.
other_amount : paid_amount 1 40 (sold 200) ≢ 200
unfolding paid_amount
other_amount = omega arith

complete_cancellation-stuck_example :
    (complete_cancellation 1 80 manager (sold 200) ≡ err (409, payment_state_changed))
    × (review_cancellation 1 80 (Deduction.fixed 0) "again" manager (sold 200)
        ≡ err (409, invalid_cancellation_transition))
    × (decide_cancellation 1 80 false "again" manager (sold 200)
        ≡ err (409, invalid_cancellation_transition))
    × (request_cancellation 1 40 "again" manager (sold 200) ≡ err (409, active_cancellation_exists))
complete_cancellation-stuck_example =
    complete_cancellation-stuck 1 80 manager (sold 200) (approved_cancellation 200) sold_booking
      (unit_of UnitStatus.booked) (Deduction.fixed 0) false "again" refl refl refl refl refl refl
      refl refl other_amount

abbrev old_allocation : ℕ → ℕ → PaymentAllocation
old_allocation k amount = record {
  organization_id = 1;
  id = k;
  payment_id = 70;
  installment_id = some 50;
  demand_letter_id = none;
  allocated_by_user_id = 3;
  amount = amount;
  idempotency_key = AllocationKey.payment_allocation 70 k;
  allocated_at = 500;
  reversed_at = none;
}

abbrev two_installments : List PlannedInstallment
two_installments =
    record { due_date = 30; amount = 250 } ∷ record { due_date = 60; amount = 950 } ∷ []

abbrev two_allocations : List PaymentAllocation
two_allocations = old_allocation 90 200 ∷ old_allocation 91 100 ∷ []

abbrev pair_or :
    Result (List Installment × List PaymentAllocation) → List Installment × List PaymentAllocation
pair_or (ok p) = p
pair_or (err e) = ([], [])

abbrev spread_out : List Installment × List PaymentAllocation
spread_out =
    pair_or
      (spread_all 1 85 manager 0 two_allocations (planned_rows 1 86 manager 1 two_installments))

spreading :
    spread_all 1 85 manager 0 two_allocations (planned_rows 1 86 manager 1 two_installments)
    ≡ ok (spread_out.0, spread_out.1)
unfolding spread_all planned_rows
spreading = refl

spread_all-planned_example :
    (moved_total spread_out.1 ≡ moved_total two_allocations)
    × (paid_total spread_out.0 ≡ moved_total two_allocations)
    × IsWithin spread_out.0
spread_all-planned_example =
    spread_all-planned 1 85 manager 86 two_installments two_allocations spread_out.0 spread_out.1
      spreading

abbrev target_unit : InventoryUnit
target_unit = record (unit_of UnitStatus.available) { id = 9 }

abbrev target_quotation : Quotation
target_quotation = record quotation {
  unit_id = some 9;
  total = 1_200;
  final_agreed_value = some 1_200;
}

abbrev approved_transfer : UnitTransfer
approved_transfer = record {
  organization_id = 1;
  id = 85;
  booking_id = 40;
  from_unit_id = 7;
  to_unit_id = 9;
  quotation_id = 8;
  requested_by_user_id = 2;
  reviewed_by_user_id = some 4;
  approved_by_user_id = some 3;
  status = WorkflowStatus.approved;
  reason = "a larger flat";
  review_notes = none;
  decision_notes = none;
  active_booking_key = some 40;
  old_agreed_price = 1_000;
  new_agreed_price = 1_200;
  price_difference = pos 200;
  paid_amount_snapshot = 300;
  plan_name = 3;
  plan_effective_from = 20;
  plan_installments = two_installments;
  requested_at = 600;
  reviewed_at = none;
  decided_at = none;
  completed_at = none;
}

abbrev moving : Store
moving = record (with_unit UnitStatus.booked [] (sold_booking ∷ [])) {
  units = unit_of UnitStatus.booked ∷ target_unit ∷ [];
  quotations = target_quotation ∷ [];
  payments = payment_of PaymentStatus.completed ∷ [];
  post_sales = record { cancellations = []; transfers = approved_transfer ∷ []; agreements = [] };
}

abbrev moved_store : Store
moved_store = after moving (complete_transfer 1 85 manager moving)

transferring : complete_transfer 1 85 manager moving ≡ ok moved_store
unfolding complete_transfer
transferring = refl

moving-IsSafe : IsSafe moving
moving-IsSafe = record {
  sound = record {
    holds_keyed = tt;
    bookings_keyed = (refl, tt);
    held_once = λ o k u e. ground arith;
    occupied_once = λ o k u e. ground arith;
  };
  locked = λ o k b e. ground arith;
}

complete_transfer-moves_example : IsSafe moved_store × IsMoved 1 85 moving moved_store
complete_transfer-moves_example =
    complete_transfer-moves 1 85 manager moving moved_store moving-IsSafe transferring
