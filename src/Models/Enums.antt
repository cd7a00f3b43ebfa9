-- ===== src/Models/Enums.antt =====
-- The status columns: backend/app/models/enums.py, each with the tests that the services make.
use mathlib.Core.Bool.{Bool, true, false}

pub data UnitStatus : Type 0 where
  available soft_hold hard_hold booking_initiated booked sold cancelled_released : UnitStatus

pub data HoldStatus : Type 0 where
  pending_approval active rejected released expired converted : HoldStatus

pub data HoldType : Type 0 where
  soft_hold hard_hold : HoldType

pub data QuotationStatus : Type 0 where
  draft sent accepted rejected expired superseded : QuotationStatus

pub data BookingStatus : Type 0 where
  draft documentation_pending payment_pending submitted verification approval confirmed rejected
        cancelled :
      BookingStatus

pub data FinancingStatus : Type 0 where
  not_required applied under_review sanctioned rejected disbursed : FinancingStatus

pub data ApprovalStatus : Type 0 where
  pending approved rejected cancelled : ApprovalStatus

pub data CostSheetStatus : Type 0 where
  draft pending_approval approved rejected converted voided : CostSheetStatus

pub data RecordStatus : Type 0 where
  draft active inactive archived : RecordStatus

pub data DocumentStatus : Type 0 where
  pending uploaded under_review verified rejected expired : DocumentStatus

pub data PaymentStatus : Type 0 where
  pending processing completed failed voided refunded : PaymentStatus

pub data InstallmentStatus : Type 0 where
  scheduled due partially_paid paid overdue waived : InstallmentStatus

pub data LedgerEntryType : Type 0 where
  debit credit adjustment : LedgerEntryType

pub data ReconciliationStatus : Type 0 where
  pending matched mismatched resolved : ReconciliationStatus

pub data FinancialChargeType : Type 0 where
  penalty interest : FinancialChargeType

pub data FinancialChargeStatus : Type 0 where
  applied partially_paid paid waived : FinancialChargeStatus

pub data WorkflowStatus : Type 0 where
  requested under_review approved rejected completed cancelled : WorkflowStatus

pub data AgreementStatus : Type 0 where
  draft issued signed registered terminated : AgreementStatus

pub data PartnerStatus : Type 0 where
  pending application document_verification agreement_pending approval_pending approved active
        rejected suspended inactive :
      PartnerStatus

pub data CommissionStatus : Type 0 where
  pending eligible approved paid reversed : CommissionStatus

-- `unit.status == UnitStatus.AVAILABLE`
abbrev pub is_available : UnitStatus → Bool
is_available UnitStatus.available = true
is_available _ = false

-- `unit.status in {UnitStatus.SOFT_HOLD, UnitStatus.HARD_HOLD}`
abbrev pub is_held : UnitStatus → Bool
is_held UnitStatus.soft_hold = true
is_held UnitStatus.hard_hold = true
is_held _ = false

abbrev pub is_booking_initiated : UnitStatus → Bool
is_booking_initiated UnitStatus.booking_initiated = true
is_booking_initiated _ = false

-- `UnitStatus(hold_type)`
abbrev pub of_hold_type : HoldType → UnitStatus
of_hold_type HoldType.soft_hold = UnitStatus.soft_hold
of_hold_type HoldType.hard_hold = UnitStatus.hard_hold

-- `unit.status == UnitStatus(hold_type)`
abbrev pub is_hold_type : HoldType → UnitStatus → Bool
is_hold_type HoldType.soft_hold UnitStatus.soft_hold = true
is_hold_type HoldType.hard_hold UnitStatus.hard_hold = true
is_hold_type _ _ = false

-- `RESERVING_HOLD_STATUSES`
abbrev pub is_reserving : HoldStatus → Bool
is_reserving HoldStatus.pending_approval = true
is_reserving HoldStatus.active = true
is_reserving _ = false

abbrev pub is_pending_approval : HoldStatus → Bool
is_pending_approval HoldStatus.pending_approval = true
is_pending_approval _ = false

abbrev pub is_active_hold : HoldStatus → Bool
is_active_hold HoldStatus.active = true
is_active_hold _ = false

abbrev pub is_accepted : QuotationStatus → Bool
is_accepted QuotationStatus.accepted = true
is_accepted _ = false

-- `FINAL_STATUSES` of backend/app/services/bookings.py
abbrev pub is_final : BookingStatus → Bool
is_final BookingStatus.confirmed = true
is_final BookingStatus.rejected = true
is_final BookingStatus.cancelled = true
is_final _ = false

abbrev pub is_confirmed : BookingStatus → Bool
is_confirmed BookingStatus.confirmed = true
is_confirmed _ = false

abbrev pub is_approval : BookingStatus → Bool
is_approval BookingStatus.approval = true
is_approval _ = false

abbrev pub is_payment_pending : BookingStatus → Bool
is_payment_pending BookingStatus.payment_pending = true
is_payment_pending _ = false

abbrev pub is_verification : BookingStatus → Bool
is_verification BookingStatus.verification = true
is_verification _ = false

abbrev pub is_financed : FinancingStatus → Bool
is_financed FinancingStatus.not_required = true
is_financed FinancingStatus.sanctioned = true
is_financed FinancingStatus.disbursed = true
is_financed _ = false

abbrev pub is_pending : ApprovalStatus → Bool
is_pending ApprovalStatus.pending = true
is_pending _ = false

abbrev pub is_active : RecordStatus → Bool
is_active RecordStatus.active = true
is_active _ = false

abbrev pub is_verified : DocumentStatus → Bool
is_verified DocumentStatus.verified = true
is_verified _ = false

-- `status in (PaymentStatus.PENDING, PaymentStatus.PROCESSING)`
abbrev pub is_open : PaymentStatus → Bool
is_open PaymentStatus.pending = true
is_open PaymentStatus.processing = true
is_open _ = false

abbrev pub is_completed : PaymentStatus → Bool
is_completed PaymentStatus.completed = true
is_completed _ = false

abbrev pub is_pending_payment : PaymentStatus → Bool
is_pending_payment PaymentStatus.pending = true
is_pending_payment _ = false

abbrev pub is_processing : PaymentStatus → Bool
is_processing PaymentStatus.processing = true
is_processing _ = false

-- `status in (PENDING, PROCESSING, COMPLETED)`
abbrev pub is_committed : PaymentStatus → Bool
is_committed PaymentStatus.pending = true
is_committed PaymentStatus.processing = true
is_committed PaymentStatus.completed = true
is_committed _ = false

-- `status in (PaymentStatus.COMPLETED, PaymentStatus.REFUNDED)`
abbrev pub is_settled : PaymentStatus → Bool
is_settled PaymentStatus.completed = true
is_settled PaymentStatus.refunded = true
is_settled _ = false

abbrev pub is_waived : InstallmentStatus → Bool
is_waived InstallmentStatus.waived = true
is_waived _ = false

abbrev pub is_debit : LedgerEntryType → Bool
is_debit LedgerEntryType.debit = true
is_debit _ = false

abbrev pub is_credit : LedgerEntryType → Bool
is_credit LedgerEntryType.credit = true
is_credit _ = false

abbrev pub is_matched : ReconciliationStatus → Bool
is_matched ReconciliationStatus.matched = true
is_matched _ = false

-- `status in (FinancialChargeStatus.APPLIED, FinancialChargeStatus.PARTIALLY_PAID)`
abbrev pub is_waivable : FinancialChargeStatus → Bool
is_waivable FinancialChargeStatus.applied = true
is_waivable FinancialChargeStatus.partially_paid = true
is_waivable _ = false

abbrev pub is_approved_workflow : WorkflowStatus → Bool
is_approved_workflow WorkflowStatus.approved = true
is_approved_workflow _ = false

abbrev pub is_active_partner : PartnerStatus → Bool
is_active_partner PartnerStatus.active = true
is_active_partner _ = false
