-- ===== src/Models/PostSales.antt =====
-- The rows of the workflows after a sale: backend/app/models/revenue.py and documents of sales.py.
-- The files that the service renders, and the numbers and keys of these, are left out.
use real_estate_crm.Base.{ℕ, String, Option, List}
use real_estate_crm.Base.Int.{ℤ}
use real_estate_crm.Base.Table.{Row}
use real_estate_crm.Models.Enums.{WorkflowStatus, AgreementStatus}

pub record Cancellation : Type 0 where
  pub organization_id : ℕ
  pub id : ℕ
  pub booking_id : ℕ
  pub requested_by_user_id : ℕ
  pub reviewed_by_user_id : Option ℕ
  pub approved_by_user_id : Option ℕ
  pub status : WorkflowStatus
  pub reason : String
  pub review_notes : Option String
  pub decision_notes : Option String
  pub active_booking_key : Option ℕ
  pub paid_amount_snapshot : ℕ
  pub deduction_amount : ℕ
  pub refund_amount : ℕ
  pub requested_at : ℕ
  pub reviewed_at : Option ℕ
  pub decided_at : Option ℕ
  pub unit_released_at : Option ℕ
  pub completed_at : Option ℕ

-- An installment of the plan that a transfer keeps, by its due date and its amount.
pub record PlannedInstallment : Type 0 where
  pub due_date : ℕ
  pub amount : ℕ

pub record UnitTransfer : Type 0 where
  pub organization_id : ℕ
  pub id : ℕ
  pub booking_id : ℕ
  pub from_unit_id : ℕ
  pub to_unit_id : ℕ
  pub quotation_id : ℕ
  pub requested_by_user_id : ℕ
  pub reviewed_by_user_id : Option ℕ
  pub approved_by_user_id : Option ℕ
  pub status : WorkflowStatus
  pub reason : String
  pub review_notes : Option String
  pub decision_notes : Option String
  pub active_booking_key : Option ℕ
  pub old_agreed_price : ℕ
  pub new_agreed_price : ℕ
  pub price_difference : ℤ
  pub paid_amount_snapshot : ℕ
  pub plan_name : ℕ
  pub plan_effective_from : ℕ
  pub plan_installments : List PlannedInstallment
  pub requested_at : ℕ
  pub reviewed_at : Option ℕ
  pub decided_at : Option ℕ
  pub completed_at : Option ℕ

pub record Agreement : Type 0 where
  pub organization_id : ℕ
  pub id : ℕ
  pub booking_id : ℕ
  pub status : AgreementStatus

pub record PostSales : Type 0 where
  pub cancellations : List Cancellation
  pub transfers : List UnitTransfer
  pub agreements : List Agreement

instance abbrev pub cancellation_row : Row Cancellation
cancellation_row = record { org_of = λ x. x.organization_id; id_of = λ x. x.id }

instance abbrev pub transfer_row : Row UnitTransfer
transfer_row = record { org_of = λ x. x.organization_id; id_of = λ x. x.id }
