-- ===== src/Models/Money.antt =====
-- The rows of finance: backend/app/models/revenue.py and the commissions of partners.py.
use real_estate_crm.Base.{ℕ, String, Bool, Option}
use real_estate_crm.Base.Int.{ℤ}
use real_estate_crm.Models.Enums.{
  RecordStatus, PaymentStatus, InstallmentStatus, LedgerEntryType, ReconciliationStatus,
  FinancialChargeType, FinancialChargeStatus, CommissionStatus,
}

pub record PaymentPlan : Type 0 where
  pub organization_id : ℕ
  pub id : ℕ
  pub booking_id : ℕ
  pub name : ℕ
  pub status : RecordStatus
  pub currency : ℕ
  pub total_amount : ℕ
  pub effective_from : ℕ
  pub created_at : ℕ

pub record Installment : Type 0 where
  pub organization_id : ℕ
  pub id : ℕ
  pub payment_plan_id : ℕ
  pub sequence : ℕ
  pub due_date : ℕ
  pub amount : ℕ
  pub paid_amount : ℕ
  pub status : InstallmentStatus

pub record DemandLetter : Type 0 where
  pub organization_id : ℕ
  pub id : ℕ
  pub booking_id : ℕ
  pub customer_id : ℕ
  pub installment_id : Option ℕ
  pub demand_number : ℕ
  pub status : RecordStatus
  pub issue_date : ℕ
  pub due_date : ℕ
  pub amount : ℕ
  pub currency : ℕ
  pub created_at : ℕ

pub record Payment : Type 0 where
  pub organization_id : ℕ
  pub id : ℕ
  pub booking_id : ℕ
  pub customer_id : ℕ
  pub installment_id : Option ℕ
  pub verified_by_user_id : Option ℕ
  pub amount : ℕ
  pub currency : ℕ
  pub status : PaymentStatus
  pub idempotency_key : ℕ
  pub paid_at : Option ℕ
  pub verified_at : Option ℕ
  pub created_at : ℕ

pub record Receipt : Type 0 where
  pub organization_id : ℕ
  pub id : ℕ
  pub payment_id : ℕ
  pub customer_id : ℕ
  pub status : RecordStatus
  pub issued_at : ℕ

-- The idempotency keys of allocations are texts: `payment:{payment}:allocation:{index}` and
-- `transfer:{transfer}:allocation:{allocation}:{installment}`.
pub data AllocationKey : Type 0 where
  payment_allocation : ℕ → ℕ → AllocationKey
  transfer_allocation : ℕ → ℕ → ℕ → AllocationKey

pub record PaymentAllocation : Type 0 where
  pub organization_id : ℕ
  pub id : ℕ
  pub payment_id : ℕ
  pub installment_id : Option ℕ
  pub demand_letter_id : Option ℕ
  pub allocated_by_user_id : ℕ
  pub amount : ℕ
  pub idempotency_key : AllocationKey
  pub allocated_at : ℕ
  pub reversed_at : Option ℕ

pub record PaymentReconciliation : Type 0 where
  pub organization_id : ℕ
  pub id : ℕ
  pub payment_id : ℕ
  pub reconciled_by_user_id : ℕ
  pub status : ReconciliationStatus
  pub expected_amount : ℕ
  pub received_amount : ℕ
  pub difference_amount : ℤ
  pub idempotency_key : ℕ
  pub reconciled_at : ℕ

pub record FinancialCharge : Type 0 where
  pub organization_id : ℕ
  pub id : ℕ
  pub booking_id : ℕ
  pub customer_id : ℕ
  pub installment_id : ℕ
  pub created_by_user_id : ℕ
  pub waived_by_user_id : Option ℕ
  pub charge_type : FinancialChargeType
  pub status : FinancialChargeStatus
  pub principal_amount : ℕ
  pub rate : ℕ
  pub days_calculated : ℕ
  pub amount : ℕ
  pub paid_amount : ℕ
  pub currency : ℕ
  pub calculation_date : ℕ
  pub reason : String
  pub idempotency_key : ℕ
  pub waived_reason : Option String
  pub waived_at : Option ℕ

-- The idempotency keys of the ledger are texts that the services make of an identifier.
pub data LedgerKey : Type 0 where
  booking_agreed_value payment_ledger payment_verified charge_applied charge_waived refund_processed
        contract_reversal cancellation_deduction transfer_adjustment :
      ℕ → LedgerKey

pub record CustomerLedger : Type 0 where
  pub organization_id : ℕ
  pub id : ℕ
  pub customer_id : ℕ
  pub booking_id : Option ℕ
  pub payment_id : Option ℕ
  pub receipt_id : Option ℕ
  pub entry_type : LedgerEntryType
  pub amount : ℕ
  pub currency : ℕ
  pub idempotency_key : LedgerKey
  pub posted_at : ℕ

pub record Refund : Type 0 where
  pub organization_id : ℕ
  pub id : ℕ
  pub cancellation_id : Option ℕ
  pub booking_id : Option ℕ
  pub payment_id : Option ℕ
  pub customer_id : ℕ
  pub requested_by_user_id : Option ℕ
  pub approved_by_user_id : Option ℕ
  pub status : PaymentStatus
  pub amount : ℕ
  pub currency : ℕ
  pub reference_number : Option String
  pub reason : Option String
  pub decision_notes : Option String
  pub idempotency_key : Option ℕ
  pub requested_at : ℕ
  pub approved_at : Option ℕ
  pub rejected_at : Option ℕ
  pub processed_at : Option ℕ

-- A rate is a count of ten thousandths of a percent.
pub record CommissionStructure : Type 0 where
  pub organization_id : ℕ
  pub id : ℕ
  pub channel_partner_id : ℕ
  pub project_id : Option ℕ
  pub rate : ℕ
  pub effective_from : ℕ
  pub effective_until : Option ℕ
  pub is_active : Bool

pub record Commission : Type 0 where
  pub organization_id : ℕ
  pub id : ℕ
  pub channel_partner_id : ℕ
  pub booking_id : ℕ
  pub commission_structure_id : Option ℕ
  pub commission_payout_id : Option ℕ
  pub approved_by_user_id : Option ℕ
  pub status : CommissionStatus
  pub rate : ℕ
  pub amount : ℕ
  pub currency : ℕ

pub record CommissionPayout : Type 0 where
  pub organization_id : ℕ
  pub id : ℕ
  pub channel_partner_id : ℕ
  pub approved_by_user_id : Option ℕ
  pub requested_by_user_id : ℕ
  pub payout_number : ℕ
  pub status : PaymentStatus
  pub amount : ℕ
  pub currency : ℕ
  pub reference_number : Option String
  pub notes : Option String
  pub decision_notes : Option String
  pub requested_at : ℕ
  pub approved_at : Option ℕ
  pub rejected_at : Option ℕ
  pub paid_at : Option ℕ
