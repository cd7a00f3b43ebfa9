-- ===== src/Models/Store/Keys.antt =====
-- The permissions that the modelled operations ask for, and the keys of the rows.
use real_estate_crm.Base.Table.{Row}
use real_estate_crm.Models.Rows.{
  InventoryUnit, UnitHold, Booking, BookingApproval, BookingFinancing, Quotation, Customer, Lead,
  User, CustomerDocument, ChannelPartner,
}
use real_estate_crm.Models.Money.{
  PaymentPlan, Installment, Payment, PaymentAllocation, FinancialCharge, Refund, Commission,
  CommissionPayout,
}

pub data Permission : Type 0 where
  bookings_approve bookings_manage collections_approve collections_manage : Permission
  quotations_manage : Permission

instance abbrev pub unit_row : Row InventoryUnit
unit_row = record { org_of = λ x. x.organization_id; id_of = λ x. x.id }

instance abbrev pub hold_row : Row UnitHold
hold_row = record { org_of = λ x. x.organization_id; id_of = λ x. x.id }

instance abbrev pub booking_row : Row Booking
booking_row = record { org_of = λ x. x.organization_id; id_of = λ x. x.id }

instance abbrev pub approval_row : Row BookingApproval
approval_row = record { org_of = λ x. x.organization_id; id_of = λ x. x.id }

instance abbrev pub financing_row : Row BookingFinancing
financing_row = record { org_of = λ x. x.organization_id; id_of = λ x. x.id }

instance abbrev pub quotation_row : Row Quotation
quotation_row = record { org_of = λ x. x.organization_id; id_of = λ x. x.id }

instance abbrev pub customer_row : Row Customer
customer_row = record { org_of = λ x. x.organization_id; id_of = λ x. x.id }

instance abbrev pub lead_row : Row Lead
lead_row = record { org_of = λ x. x.organization_id; id_of = λ x. x.id }

instance abbrev pub user_row : Row User
user_row = record { org_of = λ x. x.organization_id; id_of = λ x. x.id }

instance abbrev pub document_row : Row CustomerDocument
document_row = record { org_of = λ x. x.organization_id; id_of = λ x. x.id }

instance abbrev pub partner_row : Row ChannelPartner
partner_row = record { org_of = λ x. x.organization_id; id_of = λ x. x.id }

instance abbrev pub commission_row : Row Commission
commission_row = record { org_of = λ x. x.organization_id; id_of = λ x. x.id }

instance abbrev pub payout_row : Row CommissionPayout
payout_row = record { org_of = λ x. x.organization_id; id_of = λ x. x.id }

instance abbrev pub plan_row : Row PaymentPlan
plan_row = record { org_of = λ x. x.organization_id; id_of = λ x. x.id }

instance abbrev pub installment_row : Row Installment
installment_row = record { org_of = λ x. x.organization_id; id_of = λ x. x.id }

instance abbrev pub payment_row : Row Payment
payment_row = record { org_of = λ x. x.organization_id; id_of = λ x. x.id }

instance abbrev pub allocation_row : Row PaymentAllocation
allocation_row = record { org_of = λ x. x.organization_id; id_of = λ x. x.id }

instance abbrev pub charge_row : Row FinancialCharge
charge_row = record { org_of = λ x. x.organization_id; id_of = λ x. x.id }

instance abbrev pub refund_row : Row Refund
refund_row = record { org_of = λ x. x.organization_id; id_of = λ x. x.id }
