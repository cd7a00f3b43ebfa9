-- ===== src/Tests/Pricing.antt =====
-- A cost sheet, its approval and its quotations at concrete requests.
use real_estate_crm.Base.{ℕ, ◌<◌, ◌≤◌, ◌≡◌, refl, ◌⊎◌, true, false, none, some, [], ◌∷◌}
use real_estate_crm.Base.Int.{pos, pos_part, neg_part, ◌+ℤ◌, ◌-ℤ◌, ◌≤ℤ◌}
use real_estate_crm.Base.Decimal.{whole, money, scaled, percent_of, plus, minus_cents}
use real_estate_crm.Base.Result.{Result, ok, err}
use real_estate_crm.Models.Enums.{CostSheetStatus, RecordStatus, UnitStatus}
use real_estate_crm.Models.Rules.{CalculationType, PricingRules, CostSheetCreate, BookingAmountRule}
use real_estate_crm.Models.Pricing.{UnitPrice, PriceList}
use real_estate_crm.Models.Store.{Store}
use real_estate_crm.Quotations.Levels.{DiscountApprovalLevel, covers, IsIn}
use real_estate_crm.Quotations.Lines.{total_of}
use real_estate_crm.Quotations.CostSheet.{
  Calculated, calculate_cost_sheet, Terms, has_text, policy_percent,
}
use real_estate_crm.Quotations.Sheets.{
  calculate_cost_sheet-totals, calculate_cost_sheet-approval, discount_policy_of,
}
use real_estate_crm.Quotations.Discounts.{create_cost_sheet}
use real_estate_crm.Tests.Sample.{after, sales, empty, unit_of}

abbrev lead_level : DiscountApprovalLevel
lead_level = record {
  name = "lead";
  minimum_discount_percent = 1;
  maximum_discount_percent = some 100_000;
  approver_user_ids = 3 ∷ [];
  approver_role_ids = [];
}

-- A rate of 50.00 by the square foot, a corner premium of 5 percent for units that face 1, a fixed
-- parking place, a tax of 5 percent, and a discount policy from 1 percent on.
abbrev rules : PricingRules
rules = record {
  base_rate_per_sqft = some (record { digits = 5_000; places = 2 });
  unit_overrides = [];
  floor_rise = none;
  premiums =
      record {
        code = 1;
        label = "Corner";
        calculation = CalculationType.percentage;
        value = whole 5;
        taxable = true;
        optional = false;
        match = none;
      }
      ∷ [];
  parking_options =
      record {
        code = 2;
        label = "Covered";
        calculation = CalculationType.fixed;
        value = whole 300;
        taxable = false;
        optional = false;
        match = none;
      }
      ∷ [];
  amenity_charges = [];
  charges = [];
  taxes = record { label = "GST"; rate_percent = whole 5; applies_to = [] } ∷ [];
  discount_policy = record {
    decimals = 0;
    self_approval_limit_percent = 10_000;
    maximum_discount_percent = some 100_000;
    approval_matrix = lead_level ∷ [];
  };
  booking_amount = some (BookingAmountRule.percentage_of_value (whole 10));
}

abbrev unit_price : UnitPrice
unit_price = record {
  organization_id = 1;
  id = 7;
  project_id = 4;
  unit_number = 701;
  tower_id = none;
  floor_id = none;
  unit_type = none;
  facing = some 1;
  area_sqft = some (whole 100);
  carpet_area_sqft = none;
  built_up_area_sqft = none;
  base_price = none;
  unit_specific_adjustment = none;
}

abbrev price_list : PriceList
price_list = record {
  organization_id = 1;
  id = 12;
  project_id = 4;
  status = RecordStatus.active;
  currency = 1;
  effective_from = 10;
  effective_to = none;
  pricing_rules = rules;
}

abbrev priced : Store
priced =
    let p = empty.pricing in
    record empty {
      units = unit_of UnitStatus.available ∷ [];
      quotations = [];
      pricing = record p { unit_prices = unit_price ∷ []; price_lists = price_list ∷ [] };
    }

abbrev sheet_request : CostSheetCreate
sheet_request = record {
  customer_id = 5;
  lead_id = none;
  unit_id = 7;
  price_list_id = 12;
  parking = record { code = 2; quantity = 1 } ∷ [];
  amenity_codes = [];
  optional_premium_codes = [];
  requested_discount_amount = whole 150;
  final_agreed_value = none;
  booking_amount_override = none;
  request_notes = some "Second unit of the family";
}

abbrev calculated_or : Result Calculated → ℕ
calculated_or (ok c) = pos_part c.terms.final_agreed_value
calculated_or (err e) = 0

-- 5000.00 and 5 percent of it, parking of 300.00, and 262.50 of tax: 5812.50, less 150.00.
calculated_once : calculated_or (calculate_cost_sheet 1 sheet_request sales priced) ≡ 566_250
unfolding calculate_cost_sheet ◌+ℤ◌ ◌-ℤ◌ money scaled percent_of plus minus_cents
calculated_once = refl

abbrev no_terms : Terms
no_terms = record {
  discount_amount = pos 0;
  percent = 0;
  final_agreed_value = pos 0;
  booking_amount = pos 0;
}

abbrev blank : Calculated
blank = record {
  price_list = price_list;
  base = pos 0;
  gross_value = pos 0;
  tax_amount = pos 0;
  previous_value = pos 0;
  terms = no_terms;
  status = CostSheetStatus.draft;
  level = none;
  items = [];
}

abbrev sheet_made : Calculated
sheet_made = after blank (calculate_cost_sheet 1 sheet_request sales priced)

calculating : calculate_cost_sheet 1 sheet_request sales priced ≡ ok sheet_made
unfolding calculate_cost_sheet ◌+ℤ◌ ◌-ℤ◌ money scaled percent_of plus minus_cents
calculating = refl

calculate_cost_sheet-totals_example :
    (total_of sheet_made.items ≡ sheet_made.terms.final_agreed_value)
    × (sheet_made.terms.final_agreed_value +ℤ sheet_made.terms.discount_amount
        ≡ sheet_made.gross_value +ℤ sheet_made.tax_amount)
    × (neg_part sheet_made.terms.discount_amount ≡ 0)
    × (sheet_made.terms.booking_amount ≤ℤ sheet_made.terms.final_agreed_value)
calculate_cost_sheet-totals_example =
    calculate_cost_sheet-totals 1 sheet_request sales priced sheet_made calculating

calculate_cost_sheet-approval_example :
    ((sheet_made.status ≡ CostSheetStatus.approved)
      × (sheet_made.level ≡ none)
      × ((sheet_made.terms.discount_amount ≡ pos 0)
          ⊎ (policy_percent (discount_policy_of sheet_made) sheet_made.terms.percent
              ≤ (discount_policy_of sheet_made).self_approval_limit_percent)))
    ⊎ ((l : DiscountApprovalLevel) × (sheet_made.status ≡ CostSheetStatus.pending_approval)
        × (sheet_made.level ≡ some l)
        × (0 < pos_part sheet_made.terms.discount_amount)
        × ((discount_policy_of sheet_made).self_approval_limit_percent
            < policy_percent (discount_policy_of sheet_made) sheet_made.terms.percent)
        × IsIn l (discount_policy_of sheet_made).approval_matrix
        × (covers (policy_percent (discount_policy_of sheet_made) sheet_made.terms.percent) l
            ≡ true)
        × (has_text sheet_request.request_notes ≡ true))
calculate_cost_sheet-approval_example =
    calculate_cost_sheet-approval 1 sheet_request sales priced sheet_made calculating

abbrev waiting_store : Store
waiting_store = after priced (create_cost_sheet 1 sheet_request sales priced)

creating : create_cost_sheet 1 sheet_request sales priced ≡ ok waiting_store
unfolding create_cost_sheet ◌+ℤ◌ ◌-ℤ◌ money scaled percent_of plus minus_cents
creating = refl
