-- ===== src/Bookings/Parts.antt =====
-- The parts of a booking: applicants, payment plan, financing and the totals of payments, from
-- backend/app/services/bookings.py.
use real_estate_crm.Base.{
  ℕ, suc, ◌+◌, ◌*◌, String, Bool, true, false, not, ◌&&◌, Option, none, some, List, [], ◌∷◌, ◌++◌,
  ◌==◌, is_some, or_else,
}
use real_estate_crm.Base.Result.{Result, ok, ◌>>=◌, ◌>>◌, raise_if}
use real_estate_crm.Base.Result.Codes.{
  integrity_error, duplicate_applicant, payment_plan_total_mismatch,
}
use real_estate_crm.Base.Table.{first, sum_of, update_all, put, entity}
use real_estate_crm.Models.Enums.{
  FinancingStatus, RecordStatus, InstallmentStatus, PaymentStatus, is_active,
}
use real_estate_crm.Models.Rows.{Booking, BookingApplicant, BookingFinancing, Customer}
use real_estate_crm.Models.Money.{PaymentPlan, Installment}
use real_estate_crm.Models.Store.{Store, Context, customer_row, financing_row}

-- `_payment_total`: the payments of a booking in some statuses.
unfoldable pub payment_total : ℕ → ℕ → (PaymentStatus → Bool) → Store → ℕ
payment_total org booking_id status s =
    sum_of (λ p. (p.organization_id == org) && (p.booking_id == booking_id) && status p.status)
      (λ p. p.amount) s.payments

pub record JointApplicantInput : Type 0 where
  pub customer_id : Option ℕ
  pub full_name : String

-- The linked customer of a joint applicant must exist and differ from the primary one.
abbrev check_joint : ℕ → ℕ → Option ℕ → List Customer → Result (Unit {0})
check_joint org primary none customers = ok tt
check_joint org primary (some k) customers = do
  linked ← entity org k customers
  raise_if (linked.id == primary) 422 duplicate_applicant

joint_applicants :
    ℕ
    → ℕ
    → ℕ
    → Context
    → ℕ
    → List JointApplicantInput
    → List Customer
    → Result (List BookingApplicant)
joint_applicants org booking_id primary ctx sequence [] customers = ok []
joint_applicants org booking_id primary ctx sequence (item ∷ items) customers = do
  check_joint org primary item.customer_id customers
  rest ← joint_applicants org booking_id primary ctx (suc sequence) items customers
  ok (
      record {
        organization_id = org;
        id = ctx.new_id (10 + 2 * sequence);
        booking_id = booking_id;
        customer_id = item.customer_id;
        sequence = sequence;
        is_primary = false;
        full_name = item.full_name;
      }
      ∷ rest)

unfoldable pub add_applicants :
    ℕ → ℕ → Customer → List JointApplicantInput → Context → Store → Result Store
unfolding joint_applicants
add_applicants org booking_id customer items ctx s = do
  joint ← joint_applicants org booking_id customer.id ctx 2 items s.customers
  let primary : BookingApplicant = record {
    organization_id = org;
    id = ctx.new_id 12;
    booking_id = booking_id;
    customer_id = some customer.id;
    sequence = 1;
    is_primary = true;
    full_name = customer.full_name;
  }
  ok (record s { applicants = primary ∷ joint ++ s.applicants })

pub record InstallmentInput : Type 0 where
  pub due_date : ℕ
  pub amount : ℕ

pub record PaymentPlanInput : Type 0 where
  pub name : ℕ
  pub effective_from : ℕ
  pub installments : List InstallmentInput

-- `sum((item.amount for item in payload.installments), ZERO)`
abbrev pub plan_total : List InstallmentInput → ℕ
plan_total [] = 0
plan_total (i ∷ is) = i.amount + plan_total is

abbrev pub is_plan_of : ℕ → ℕ → PaymentPlan → Bool
is_plan_of org booking_id p = (p.organization_id == org) && (p.booking_id == booking_id)

unfoldable pub plan_installments : ℕ → ℕ → Context → ℕ → List InstallmentInput → List Installment
plan_installments org plan_id ctx sequence [] = []
plan_installments org plan_id ctx sequence (i ∷ is) =
    record {
      organization_id = org;
      id = ctx.new_id (11 + 2 * sequence);
      payment_plan_id = plan_id;
      sequence = sequence;
      due_date = i.due_date;
      amount = i.amount;
      paid_amount = 0;
      status = InstallmentStatus.scheduled;
    }
    ∷ plan_installments org plan_id ctx (suc sequence) is

abbrev pub new_plan : ℕ → Booking → PaymentPlanInput → Context → PaymentPlan
new_plan org booking payload ctx = record {
  organization_id = org;
  id = ctx.new_id 1;
  booking_id = booking.id;
  name = payload.name;
  status = RecordStatus.active;
  currency = booking.currency;
  total_amount = plan_total payload.installments;
  effective_from = payload.effective_from;
  created_at = ctx.now;
}

-- The unique constraint on the name of a plan fails at the flush, and no handler catches it.
unfoldable pub add_plan : ℕ → Booking → PaymentPlanInput → Context → Store → Result Store
unfolding plan_installments
add_plan org booking payload ctx s = do
  raise_if (not (plan_total payload.installments == or_else booking.agreed_price 0)) 422
      payment_plan_total_mismatch
  raise_if (is_some (first (λ p. is_plan_of org booking.id p && (p.name == payload.name)) s.plans))
      500 integrity_error
  let archived =
      update_all (λ p. is_plan_of org booking.id p && is_active p.status)
        (λ p. record p { status = RecordStatus.archived }) s.plans
  ok (record s {
    plans = new_plan org booking payload ctx ∷ archived;
    installments =
        plan_installments org (ctx.new_id 1) ctx 1 payload.installments ++ s.installments;
  })

pub record FinancingInput : Type 0 where
  pub status : FinancingStatus
  pub loan_amount : Option ℕ

-- `FinancingInput()`
abbrev pub no_financing : FinancingInput
no_financing = record { status = FinancingStatus.not_required; loan_amount = none }

abbrev pub is_financing_of : ℕ → ℕ → BookingFinancing → Bool
is_financing_of org booking_id f = (f.organization_id == org) && (f.booking_id == booking_id)

unfoldable pub upsert_financing : ℕ → ℕ → FinancingInput → Context → Store → Store
upsert_financing org booking_id payload ctx s =
    elim (first (is_financing_of org booking_id) s.financings) [
      | none ↦ record s {
        financings =
            record {
              organization_id = org;
              id = ctx.new_id 2;
              booking_id = booking_id;
              status = payload.status;
              loan_amount = payload.loan_amount;
            }
            ∷ s.financings;
      }
      | some item ↦ record s {
        financings =
            put (record item { status = payload.status; loan_amount = payload.loan_amount })
              s.financings;
      }
    ]
