-- ===== src/Quotations/Gross.antt =====
-- The base price of a unit and the lines before the taxes, which `calculate_cost_sheet` of
-- backend/app/services/quotations.py makes first.
use real_estate_crm.Base.{
  ℕ, String, true, Option, none, some, List, [], ◌∷◌, ◌==◌, if◌then◌else◌, or_option,
}
use real_estate_crm.Base.Int.{ℤ, pos}
use real_estate_crm.Base.Decimal.{Decimal, Unsigned, signed, of_cents, plus, scaled, money}
use real_estate_crm.Base.Result.{Result, ok, err, ◌>>=◌}
use real_estate_crm.Base.Result.Codes.{base_price_not_configured, invalid_pricing_rule}
use real_estate_crm.Models.Rules.{UnitPriceOverride, PricingRules, CostSheetCreate}
use real_estate_crm.Models.Pricing.{
  Component, number, malformed, UnitPrice, Floor, Line, unit_price_row, floor_row, price_list_row,
}
use real_estate_crm.Models.Store.{customer_row, lead_row, user_row}
use real_estate_crm.Quotations.Lines.{
  one, add_line, apply_rules, skips_premium, skips_charge, apply_parking, apply_amenities,
  apply_floor_rise,
}

-- An area that counts in `a or b or c`.
abbrev pub truthy : Option Unsigned → Option Unsigned
truthy none = none
truthy (some a) = if a.digits == 0 then none else some a

abbrev pub area_of : UnitPrice → Option Unsigned
area_of unit =
    or_option (truthy unit.area_sqft)
      (or_option (truthy unit.built_up_area_sqft) unit.carpet_area_sqft)

abbrev pub override_of : ℕ → List (ℕ × UnitPriceOverride) → Option UnitPriceOverride
override_of k [] = none
override_of k ((j, o) ∷ os) = if j == k then some o else override_of k os

-- The override of the unit, by its identifier or by its number.
abbrev pub override_for : UnitPrice → PricingRules → Option UnitPriceOverride
override_for unit rules =
    or_option (override_of unit.id rules.unit_overrides)
      (override_of unit.unit_number rules.unit_overrides)

abbrev pub overridden : Option UnitPriceOverride → Option Unsigned
overridden none = none
overridden (some o) = o.base_price

-- The rate of the price list, where it and the area are known.
abbrev pub by_area : Option Unsigned → Option Unsigned → Result ℤ
by_area (some rate) (some area) = ok (money (scaled (signed rate) area))
by_area _ _ = err (400, base_price_not_configured)

abbrev pub base_or : Option Unsigned → Result ℤ → Result ℤ
base_or (some price) other = ok (money (signed price))
base_or none other = other

unfoldable pub base_price : PricingRules → UnitPrice → Result ℤ
base_price rules unit =
    base_or (overridden (override_for unit rules))
      (base_or unit.base_price (by_area rules.base_rate_per_sqft (area_of unit)))

abbrev pub zero_decimal : Decimal
zero_decimal = of_cents (pos 0)

abbrev pub adjustment_of : Option UnitPriceOverride → Decimal
adjustment_of none = zero_decimal
adjustment_of (some o) = o.adjustment

abbrev pub adjustment_label : Option UnitPriceOverride → String
adjustment_label none = "Unit-specific adjustment"
adjustment_label (some o) = o.label

-- `_decimal` on the value of the component.
abbrev pub component_amount : Option Component → Result Decimal
component_amount none = ok zero_decimal
component_amount (some (number amount)) = ok amount
component_amount (some malformed) = err (400, invalid_pricing_rule)

unfoldable pub unit_adjustment : PricingRules → UnitPrice → Result Decimal
unit_adjustment rules unit = do
  amount ← component_amount unit.unit_specific_adjustment
  ok (plus amount (adjustment_of (override_for unit rules)))

abbrev pub base_line : ℤ → Line
base_line price = record {
  sequence = 1;
  category = "BASE_PRICE";
  label = "Base price";
  quantity = one;
  rate = of_cents price;
  amount = price;
  taxable = true;
}

-- The lines before the taxes.
unfoldable pub gross_lines :
    PricingRules → UnitPrice → Decimal → Option Floor → CostSheetCreate → ℤ → Result (List Line)
unfolding add_line apply_floor_rise apply_rules apply_parking apply_amenities
gross_lines rules unit adjustment floor payload price = do
  let area = area_of unit
  let first_lines =
      add_line "UNIT_ADJUSTMENT" (adjustment_label (override_for unit rules)) one adjustment
        adjustment true (base_line price ∷ [])
  risen ← apply_floor_rise rules.floor_rise floor area first_lines
  premiums ←
      apply_rules "PREMIUM" (skips_premium unit payload.optional_premium_codes) area rules.premiums
        risen
  parked ← apply_parking area rules.parking_options payload.parking premiums
  served ← apply_amenities area rules.amenity_charges payload.amenity_codes parked
  apply_rules "CHARGE" (skips_charge unit) area rules.charges served
