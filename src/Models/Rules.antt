-- ===== src/Models/Rules.antt =====
-- The pricing rules of a price list: backend/app/schemas/quotations.py. A code, a unit's number or
-- a value to match is a natural number, and values that are equal without regard to case are one
-- number.
use real_estate_crm.Base.{ℕ, String, Bool, Option, List}
use real_estate_crm.Base.Int.{ℤ}
use real_estate_crm.Base.Decimal.{Decimal, Unsigned}
use real_estate_crm.Quotations.Levels.{DiscountApprovalLevel}

pub data CalculationType : Type 0 where
  fixed per_sqft percentage : CalculationType

pub data MatchField : Type 0 where
  unit_type facing tower_id floor_id : MatchField

-- The field and the value to match, which come together.
pub record PricingLineRule : Type 0 where
  pub code : ℕ
  pub label : String
  pub calculation : CalculationType
  pub value : Unsigned
  pub taxable : Bool
  pub optional : Bool
  pub match : Option (MatchField × ℕ)

pub record UnitPriceOverride : Type 0 where
  pub base_price : Option Unsigned
  pub adjustment : Decimal
  pub label : String

-- Exactly one of the two ways to charge for a floor.
pub data FloorRate : Type 0 where
  amount_per_floor : Unsigned → FloorRate
  rate_per_sqft_per_floor : Unsigned → FloorRate

pub record FloorRiseRule : Type 0 where
  pub label : String
  pub start_floor : ℤ
  pub rate : FloorRate
  pub taxable : Bool

pub record TaxRule : Type 0 where
  pub label : String
  pub rate_percent : Unsigned
  pub applies_to : List String

-- The percentages of a policy and of its levels have any number of decimals, of which `decimals`,
-- beyond the fourth, are enough for all of them: they count that unit.
pub record DiscountPolicy : Type 0 where
  pub decimals : ℕ
  pub self_approval_limit_percent : ℕ
  pub maximum_discount_percent : Option ℕ
  pub approval_matrix : List DiscountApprovalLevel

pub data BookingAmountRule : Type 0 where
  fixed_amount : Unsigned → BookingAmountRule
  percentage_of_value : Unsigned → BookingAmountRule

pub record PricingRules : Type 0 where
  pub base_rate_per_sqft : Option Unsigned
  pub unit_overrides : List (ℕ × UnitPriceOverride)
  pub floor_rise : Option FloorRiseRule
  pub premiums : List PricingLineRule
  pub parking_options : List PricingLineRule
  pub amenity_charges : List PricingLineRule
  pub charges : List PricingLineRule
  pub taxes : List TaxRule
  pub discount_policy : DiscountPolicy
  pub booking_amount : Option BookingAmountRule

pub record ParkingSelection : Type 0 where
  pub code : ℕ
  pub quantity : ℕ

pub record CostSheetCreate : Type 0 where
  pub customer_id : ℕ
  pub lead_id : Option ℕ
  pub unit_id : ℕ
  pub price_list_id : ℕ
  pub parking : List ParkingSelection
  pub amenity_codes : List ℕ
  pub optional_premium_codes : List ℕ
  pub requested_discount_amount : Unsigned
  pub final_agreed_value : Option Unsigned
  pub booking_amount_override : Option Unsigned
  pub request_notes : Option String
