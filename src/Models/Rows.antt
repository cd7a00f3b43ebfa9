-- ===== src/Models/Rows.antt =====
-- The rows of inventory and sales: backend/app/models/inventory.py, sales.py, crm.py, partners.py,
-- organization.py. Identifiers, codes and numbers that are only compared are natural numbers, a
-- time is a count of microseconds and a date a count of days, amounts are whole cents. Columns
-- that no modelled operation reads or writes are left out.
use real_estate_crm.Base.{ℕ, String, Bool, Option}
use real_estate_crm.Models.Enums.{
  UnitStatus, HoldStatus, HoldType, QuotationStatus, BookingStatus, FinancingStatus, ApprovalStatus,
  DocumentStatus, WorkflowStatus, PartnerStatus,
}

-- `class Unit`
pub record InventoryUnit : Type 0 where
  pub organization_id : ℕ
  pub id : ℕ
  pub project_id : ℕ
  pub status : UnitStatus
  pub updated_at : ℕ

pub record UnitHold : Type 0 where
  pub organization_id : ℕ
  pub id : ℕ
  pub unit_id : ℕ
  pub customer_id : Option ℕ
  pub lead_id : Option ℕ
  pub held_by_user_id : ℕ
  pub approved_by_user_id : Option ℕ
  pub hold_type : Option HoldType
  pub hold_reason : Option String
  pub status : HoldStatus
  pub starts_at : ℕ
  pub expires_at : ℕ
  pub released_at : Option ℕ
  pub approved_at : Option ℕ
  pub rejected_at : Option ℕ
  pub approval_notes : Option String
  pub release_reason : Option String
  pub active_unit_key : Option ℕ

pub record Booking : Type 0 where
  pub organization_id : ℕ
  pub id : ℕ
  pub unit_id : ℕ
  pub lead_id : Option ℕ
  pub customer_id : ℕ
  pub quotation_id : Option ℕ
  pub unit_hold_id : Option ℕ
  pub booked_by_user_id : ℕ
  pub salesperson_user_id : Option ℕ
  pub channel_partner_id : Option ℕ
  pub verified_by_user_id : Option ℕ
  pub confirmed_by_user_id : Option ℕ
  pub booking_number : ℕ
  pub status : BookingStatus
  pub booking_amount : ℕ
  pub agreed_price : Option ℕ
  pub discount_amount : ℕ
  pub currency : ℕ
  pub active_unit_key : Option ℕ
  pub booked_at : Option ℕ
  pub submitted_at : Option ℕ
  pub verification_completed_at : Option ℕ
  pub approval_requested_at : Option ℕ
  pub rejected_at : Option ℕ
  pub cancelled_at : Option ℕ
  pub rejection_reason : Option String

pub record BookingApproval : Type 0 where
  pub organization_id : ℕ
  pub id : ℕ
  pub booking_id : ℕ
  pub requested_by_user_id : ℕ
  pub approver_user_id : ℕ
  pub step_number : ℕ
  pub status : ApprovalStatus
  pub comments : Option String
  pub decided_at : Option ℕ

pub record BookingApplicant : Type 0 where
  pub organization_id : ℕ
  pub id : ℕ
  pub booking_id : ℕ
  pub customer_id : Option ℕ
  pub sequence : ℕ
  pub is_primary : Bool
  pub full_name : String

pub record BookingFinancing : Type 0 where
  pub organization_id : ℕ
  pub id : ℕ
  pub booking_id : ℕ
  pub status : FinancingStatus
  pub loan_amount : Option ℕ

pub record Quotation : Type 0 where
  pub organization_id : ℕ
  pub id : ℕ
  pub lead_id : Option ℕ
  pub customer_id : Option ℕ
  pub project_id : ℕ
  pub unit_id : Option ℕ
  pub cost_sheet_id : Option ℕ
  pub parent_quotation_id : Option ℕ
  pub quotation_number : ℕ
  pub version : ℕ
  pub status : QuotationStatus
  pub currency : ℕ
  pub subtotal : ℕ
  pub discount_amount : ℕ
  pub tax_amount : ℕ
  pub total : ℕ
  pub final_agreed_value : Option ℕ
  pub created_by_user_id : ℕ
  pub valid_until : ℕ
  pub issued_at : Option ℕ
  pub booking_amount : Option ℕ

pub record Customer : Type 0 where
  pub organization_id : ℕ
  pub id : ℕ
  pub full_name : String

pub record Lead : Type 0 where
  pub organization_id : ℕ
  pub id : ℕ

pub record User : Type 0 where
  pub organization_id : ℕ
  pub id : ℕ
  pub is_active : Bool

pub record CustomerDocument : Type 0 where
  pub organization_id : ℕ
  pub id : ℕ
  pub customer_id : ℕ
  pub is_current : Bool
  pub status : DocumentStatus
  pub expiry_date : Option ℕ
  pub reviewed_at : Option ℕ

pub record ChannelPartner : Type 0 where
  pub organization_id : ℕ
  pub id : ℕ
  pub status : PartnerStatus

pub record PartnerProject : Type 0 where
  pub organization_id : ℕ
  pub id : ℕ
  pub channel_partner_id : ℕ
  pub project_id : ℕ

pub record PartnerLead : Type 0 where
  pub organization_id : ℕ
  pub id : ℕ
  pub channel_partner_id : ℕ
  pub lead_id : ℕ
  pub status : WorkflowStatus
  pub protected_until : Option ℕ
