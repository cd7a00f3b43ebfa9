-- ===== src/Models/Pricing.antt =====
-- The rows of pricing: backend/app/models/inventory.py, sales.py and organization.py.
use real_estate_crm.Base.{ℕ, String, Bool, Option, List}
use real_estate_crm.Base.Int.{ℤ}
use real_estate_crm.Base.Decimal.{Decimal, Unsigned}
use real_estate_crm.Base.Table.{Row}
use real_estate_crm.Models.Enums.{ApprovalStatus, CostSheetStatus, RecordStatus}
use real_estate_crm.Models.Rules.{PricingRules}

-- The columns of `class Unit` that only pricing reads, under the unit's key.
-- A value of `price_components`, which is a JSON object without a schema: a finite number as
-- `_decimal` reads it, or another value.
pub data Component : Type 0 where
  number : Decimal → Component
  malformed : Component

pub record UnitPrice : Type 0 where
  pub organization_id : ℕ
  pub id : ℕ
  pub project_id : ℕ
  pub unit_number : ℕ
  pub tower_id : Option ℕ
  pub floor_id : Option ℕ
  pub unit_type : Option ℕ
  pub facing : Option ℕ
  pub area_sqft : Option Unsigned
  pub carpet_area_sqft : Option Unsigned
  pub built_up_area_sqft : Option Unsigned
  pub base_price : Option Unsigned
  pub unit_specific_adjustment : Option Component

pub record Floor : Type 0 where
  pub organization_id : ℕ
  pub id : ℕ
  pub floor_number : ℤ

pub record PriceList : Type 0 where
  pub organization_id : ℕ
  pub id : ℕ
  pub project_id : ℕ
  pub status : RecordStatus
  pub currency : ℕ
  pub effective_from : ℕ
  pub effective_to : Option ℕ
  pub pricing_rules : PricingRules

-- The checks of the table keep the amounts at zero or above. The snapshot is left out.
pub record CostSheet : Type 0 where
  pub organization_id : ℕ
  pub id : ℕ
  pub customer_id : ℕ
  pub lead_id : Option ℕ
  pub unit_id : ℕ
  pub price_list_id : ℕ
  pub created_by_user_id : ℕ
  pub status : CostSheetStatus
  pub currency : ℕ
  pub base_price : ℕ
  pub gross_value : ℕ
  pub discount_amount : ℕ
  pub tax_amount : ℕ
  pub final_agreed_value : ℕ
  pub booking_amount : ℕ

-- The fields of `CalculatedLine` and of the row that keeps it, without the metadata.
pub record Line : Type 0 where
  pub sequence : ℕ
  pub category : String
  pub label : String
  pub quantity : Decimal
  pub rate : Decimal
  pub amount : ℤ
  pub taxable : Bool

pub record CostSheetItem : Type 0 where
  pub organization_id : ℕ
  pub cost_sheet_id : ℕ
  pub line : Line

pub record DiscountApproval : Type 0 where
  pub organization_id : ℕ
  pub id : ℕ
  pub cost_sheet_id : ℕ
  pub requested_by_user_id : ℕ
  pub approver_user_id : Option ℕ
  pub status : ApprovalStatus
  pub requested_discount_amount : ℕ
  pub requested_discount_percent : ℕ
  pub self_approval_limit_percent : ℕ
  pub approval_level_name : String
  pub required_approver_user_ids : List ℕ
  pub required_approver_role_ids : List ℕ
  pub previous_value : ℕ
  pub final_approved_value : Option ℕ
  pub request_notes : Option String
  pub decision_notes : Option String
  pub decided_at : Option ℕ

pub record QuotationItem : Type 0 where
  pub organization_id : ℕ
  pub quotation_id : ℕ
  pub unit_id : Option ℕ
  pub sequence : ℕ
  pub category : String
  pub description : String
  pub quantity : Decimal
  pub unit_price : Decimal
  pub discount_amount : ℤ
  pub tax_amount : ℤ
  pub total : ℤ

pub record UserRole : Type 0 where
  pub organization_id : ℕ
  pub user_id : ℕ
  pub role_id : ℕ

-- The tables of pricing.
pub record Pricing : Type 0 where
  pub unit_prices : List UnitPrice
  pub floors : List Floor
  pub price_lists : List PriceList
  pub sheets : List CostSheet
  pub items : List CostSheetItem
  pub discounts : List DiscountApproval
  pub quotation_items : List QuotationItem
  pub user_roles : List UserRole

instance abbrev pub unit_price_row : Row UnitPrice
unit_price_row = record { org_of = λ x. x.organization_id; id_of = λ x. x.id }

instance abbrev pub floor_row : Row Floor
floor_row = record { org_of = λ x. x.organization_id; id_of = λ x. x.id }

instance abbrev pub price_list_row : Row PriceList
price_list_row = record { org_of = λ x. x.organization_id; id_of = λ x. x.id }

instance abbrev pub sheet_row : Row CostSheet
sheet_row = record { org_of = λ x. x.organization_id; id_of = λ x. x.id }

instance abbrev pub discount_row : Row DiscountApproval
discount_row = record { org_of = λ x. x.organization_id; id_of = λ x. x.id }
