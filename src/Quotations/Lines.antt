-- ===== src/Quotations/Lines.antt =====
-- The lines of a cost sheet: `_rule_matches`, `_line_amount`, `add_line` and the loops over the
-- pricing rules in `calculate_cost_sheet` of backend/app/services/quotations.py.
use text.Mathlib.Text.{◌==◌ as str_eq}
use real_estate_crm.Base.{
  ℕ, ◌+◌, String, Bool, true, false, not, ◌&&◌, ◌||◌, Option, none, some, List, [], ◌∷◌, ◌++◌, ◌==◌,
  elem, if◌then◌else◌,
}
use real_estate_crm.Base.Int.{ℤ, pos, pos_part, ◌+ℤ◌, ◌-ℤ◌, ltb_ℤ}
use real_estate_crm.Base.Decimal.{
  Decimal, Unsigned, signed, whole, of_cents, scaled, percent_of, is_zero, money,
}
use real_estate_crm.Base.Result.{Result, ok, ◌>>=◌, or_raise}
use real_estate_crm.Base.Result.Codes.{
  unit_area_required, invalid_parking_option, invalid_amenity_charge,
}
use real_estate_crm.Models.Rules.{
  CalculationType, MatchField, PricingLineRule, FloorRate, FloorRiseRule, TaxRule, ParkingSelection,
}
use real_estate_crm.Models.Pricing.{UnitPrice, Floor, Line}

-- `getattr(unit, rule.match_field)`
abbrev pub field_of : MatchField → UnitPrice → Option ℕ
field_of MatchField.unit_type unit = unit.unit_type
field_of MatchField.facing unit = unit.facing
field_of MatchField.tower_id unit = unit.tower_id
field_of MatchField.floor_id unit = unit.floor_id

abbrev pub is_value : Option ℕ → ℕ → Bool
is_value none v = false
is_value (some w) v = w == v

abbrev pub rule_matches : Option (MatchField × ℕ) → UnitPrice → Bool
rule_matches none unit = true
rule_matches (some (field, v)) unit = is_value (field_of field unit) v

-- A quantity, a rate and an amount.
abbrev pub Charge : Type 0
Charge = Decimal × Decimal × ℤ

abbrev pub one : Decimal
one = signed (whole 1)

-- The result of `_line_amount` for each way to calculate.
abbrev pub amount_by : CalculationType → Unsigned → Option Unsigned → ℤ → Result Charge
amount_by CalculationType.fixed rate area basis = ok (one, signed rate, money (signed rate))
amount_by CalculationType.per_sqft rate area basis = do
  a ← or_raise area 400 unit_area_required
  ok (signed a, signed rate, money (scaled (signed a) rate))
amount_by CalculationType.percentage rate area basis =
    ok (one, signed rate, money (percent_of (of_cents basis) rate))

abbrev pub line_amount : PricingLineRule → Option Unsigned → ℤ → Result Charge
line_amount rule = amount_by rule.calculation rule.value

abbrev pub line_count : List Line → ℕ
line_count [] = 0
line_count (l ∷ ls) = 1 + line_count ls

-- `sum((line.amount for line in lines), ZERO)`
unfoldable pub total_of : List Line → ℤ
total_of [] = pos 0
total_of (l ∷ ls) = l.amount +ℤ total_of ls

-- A line whose exact amount is zero is left out.
unfoldable pub add_line :
    String → String → Decimal → Decimal → Decimal → Bool → List Line → List Line
add_line category label quantity rate amount taxable lines =
    if is_zero amount
    then lines
    else lines
      ++ record {
        sequence = line_count lines + 1;
        category = category;
        label = label;
        quantity = quantity;
        rate = rate;
        amount = money amount;
        taxable = taxable;
      }
        ∷ []

abbrev pub add_charge : String → PricingLineRule → Charge → List Line → List Line
add_charge category rule (quantity, rate, amount) =
    add_line category rule.label quantity rate (of_cents amount) rule.taxable

-- The line of one rule, on the sum of the lines before it.
unfoldable pub apply_rule :
    String → Option Unsigned → PricingLineRule → List Line → Result (List Line)
unfolding add_line total_of
apply_rule category area rule lines = do
  charge ← line_amount rule area (total_of lines)
  ok (add_charge category rule charge lines)

-- The loop over `rules.premiums`, and the one over `rules.charges`: the rules that a test skips.
unfoldable pub apply_rules :
    String
    → (PricingLineRule → Bool)
    → Option Unsigned
    → List PricingLineRule
    → List Line
    → Result (List Line)
apply_rules category skipped area [] lines = ok lines
apply_rules category skipped area (rule ∷ rules) lines = do
  lines' ← if skipped rule then ok lines else apply_rule category area rule lines
  apply_rules category skipped area rules lines'

abbrev pub skips_premium : UnitPrice → List ℕ → PricingLineRule → Bool
skips_premium unit selected rule =
    not (rule_matches rule.match unit) || (rule.optional && not (elem rule.code selected))

abbrev pub skips_charge : UnitPrice → PricingLineRule → Bool
skips_charge unit rule = rule.optional || not (rule_matches rule.match unit)

-- `{item.code: item for item in ...}.get(code)`: the codes of the rules are unique.
abbrev pub rule_of : ℕ → List PricingLineRule → Option PricingLineRule
rule_of code [] = none
rule_of code (rule ∷ rules) = if rule.code == code then some rule else rule_of code rules

-- A parking place charged as a share counts the lines so far, any other counts nothing.
abbrev pub parking_basis : CalculationType → List Line → ℤ
parking_basis CalculationType.percentage lines = total_of lines
parking_basis _ lines = pos 0

abbrev pub add_parking : PricingLineRule → ℕ → Charge → List Line → List Line
add_parking rule quantity (_, rate, per_unit) =
    add_line "PARKING" rule.label (signed (whole quantity)) rate
      (scaled (of_cents per_unit) (whole quantity)) rule.taxable

unfoldable pub apply_parking :
    Option Unsigned → List PricingLineRule → List ParkingSelection → List Line → Result (List Line)
unfolding add_line total_of
apply_parking area options [] lines = ok lines
apply_parking area options (selection ∷ selections) lines = do
  rule ← or_raise (rule_of selection.code options) 400 invalid_parking_option
  charge ← line_amount rule area (parking_basis rule.calculation lines)
  apply_parking area options selections (add_parking rule selection.quantity charge lines)

unfoldable pub apply_amenities :
    Option Unsigned → List PricingLineRule → List ℕ → List Line → Result (List Line)
unfolding apply_rule
apply_amenities area charges [] lines = ok lines
apply_amenities area charges (code ∷ codes) lines = do
  rule ← or_raise (rule_of code charges) 400 invalid_amenity_charge
  lines' ← apply_rule "AMENITY" area rule lines
  apply_amenities area charges codes lines'

-- The quantity of a floor rise.
abbrev pub floor_charge : FloorRate → Option Unsigned → ℕ → Result (Decimal × Decimal × Decimal)
floor_charge (FloorRate.amount_per_floor rate) area floors =
    ok (signed (whole floors), signed rate, scaled (signed rate) (whole floors))
floor_charge (FloorRate.rate_per_sqft_per_floor rate) area floors = do
  a ← or_raise area 400 unit_area_required
  let quantity = scaled (signed a) (whole floors)
  ok (quantity, signed rate, scaled quantity rate)

abbrev pub add_floor : FloorRiseRule → Decimal × Decimal × Decimal → List Line → List Line
add_floor rise (quantity, rate, amount) =
    add_line "FLOOR_RISE" rise.label quantity rate amount rise.taxable

-- `if rules.floor_rise and floor and floor.floor_number >= rules.floor_rise.start_floor: ...`
unfoldable pub apply_floor_rise :
    Option FloorRiseRule → Option Floor → Option Unsigned → List Line → Result (List Line)
unfolding add_line
apply_floor_rise (some rise) (some floor) area lines =
    if ltb_ℤ floor.floor_number rise.start_floor then ok lines else do
      charge ← floor_charge rise.rate area (pos_part (floor.floor_number -ℤ rise.start_floor) + 1)
      ok (add_floor rise charge lines)
apply_floor_rise _ _ area lines = ok lines

-- `line.category in tax.applies_to`
abbrev pub names : String → List String → Bool
names category [] = false
names category (c ∷ cs) = str_eq category c || names category cs

abbrev pub applies : List String → Line → Bool
applies [] line = line.taxable
applies (c ∷ cs) line = line.taxable && names line.category (c ∷ cs)

unfoldable pub taxable_total : List String → List Line → ℤ
taxable_total categories [] = pos 0
taxable_total categories (l ∷ ls) =
    if applies categories l
    then l.amount +ℤ taxable_total categories ls
    else taxable_total categories ls

abbrev pub tax_on : TaxRule → List Line → ℤ
tax_on tax lines =
    money (percent_of (of_cents (taxable_total tax.applies_to lines)) tax.rate_percent)

-- The loop over `rules.taxes`, which adds up the tax beside the lines.
unfoldable pub apply_taxes : List TaxRule → ℤ → List Line → ℤ × List Line
unfolding add_line taxable_total
apply_taxes [] tax_amount lines = (tax_amount, lines)
apply_taxes (tax ∷ taxes) tax_amount lines =
    let amount = tax_on tax lines in
    apply_taxes taxes (tax_amount +ℤ amount)
      (add_line "TAX" tax.label one (signed tax.rate_percent) (of_cents amount) false lines)
