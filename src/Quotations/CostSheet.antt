-- ===== src/Quotations/CostSheet.antt =====
-- The price of a unit: `calculate_cost_sheet` of backend/app/services/quotations.py. The project of
-- a unit exists by its foreign key. A percentage is the exact quotient rounded once, where the
-- source divides to 28 digits first.
use text.Mathlib.Text.{◌==◌ as str_eq}
use real_estate_crm.Base.{
  ℕ, zero, suc, ◌*◌, ◌^◌, String, Bool, true, false, not, ◌&&◌, Option, none, some, List, ltb, ◌==◌,
  if◌then◌else◌, is_some,
}
use real_estate_crm.Base.Int.{ℤ, pos, pos_part, ◌+ℤ◌, ◌-ℤ◌, ltb_ℤ}
use real_estate_crm.Base.Money.{round_div}
use real_estate_crm.Base.Decimal.{
  Unsigned, signed, of_cents, negate, percent_of, minus_cents, is_zero_ℤ, exceeds_cents, money,
}
use real_estate_crm.Base.Result.{Result, ok, err, ◌>>=◌, ◌>>◌, raise_if}
use real_estate_crm.Base.Result.Codes.{
  price_list_project_mismatch, price_list_not_effective, invalid_final_value, invalid_discount,
  discount_limit_exceeded, booking_amount_not_configured, invalid_booking_amount,
  approval_matrix_not_configured, discount_reason_required,
}
use real_estate_crm.Base.Table.{entity}
use real_estate_crm.Models.Enums.{CostSheetStatus, is_active}
use real_estate_crm.Models.Rules.{DiscountPolicy, BookingAmountRule, PricingRules, CostSheetCreate}
use real_estate_crm.Models.Pricing.{
  UnitPrice, Floor, PriceList, Line, unit_price_row, floor_row, price_list_row,
}
use real_estate_crm.Models.Store.{Store, Context, customer_row, lead_row, user_row}
use real_estate_crm.Quotations.Levels.{DiscountApprovalLevel, is_up_to, approval_level}
use real_estate_crm.Quotations.Gross.{base_price, unit_adjustment, gross_lines}
use real_estate_crm.Quotations.Lines.{one, total_of, add_line, apply_taxes}

-- `price_list.effective_to and price_list.effective_to < today`
abbrev pub has_ended : Option ℕ → ℕ → Bool
has_ended none today = false
has_ended (some last) today = ltb last today

abbrev pub is_effective : PriceList → ℕ → Bool
is_effective l today =
    is_active l.status && not (ltb today l.effective_from) && not (has_ended l.effective_to today)

-- `_money` of an amount that already is in cents.
abbrev pub cents : ℤ → ℤ
cents a = money (of_cents a)

-- The discount that the request names, directly or by the final value.
unfoldable pub discount_of : CostSheetCreate → ℤ → Option Unsigned → Result ℤ
discount_of payload before none = ok (money (signed payload.requested_discount_amount))
discount_of payload before (some value) = do
  raise_if (exceeds_cents before value) 400 invalid_final_value
  ok (money (minus_cents before value))

-- `(discount_amount * HUNDRED / pre_discount_total).quantize(RATE)`, in ten-thousandths of a
-- percent: the discount is at most the total here, and neither is below zero.
unfoldable pub discount_percent : ℕ → ℕ → ℕ
discount_percent discount zero = 0
discount_percent discount (suc n) = round_div (discount * 1_000_000) (suc n)

abbrev pub booking_by : Option BookingAmountRule → ℤ → Result ℤ
booking_by none final_value = err (400, booking_amount_not_configured)
booking_by (some (BookingAmountRule.fixed_amount value)) final_value = ok (money (signed value))
booking_by (some (BookingAmountRule.percentage_of_value rate)) final_value =
    ok (money (percent_of (of_cents final_value) rate))

unfoldable pub booking_amount_of : Option Unsigned → Option BookingAmountRule → ℤ → Result ℤ
booking_amount_of (some value) rule final_value = ok (money (signed value))
booking_amount_of none rule final_value = booking_by rule final_value

-- Whether a text is there and not empty.
abbrev pub has_text : Option String → Bool
has_text none = false
has_text (some t) = not (str_eq t "")

-- A percentage in ten-thousandths, in the unit of a policy.
unfoldable pub policy_percent : DiscountPolicy → ℕ → ℕ
policy_percent policy percent = percent * 10 ^ policy.decimals

abbrev pub is_approval_required : DiscountPolicy → ℤ → ℕ → Bool
is_approval_required policy discount percent =
    ltb_ℤ (pos 0) discount && ltb policy.self_approval_limit_percent (policy_percent policy percent)

abbrev pub sheet_status : Bool → CostSheetStatus
sheet_status true = CostSheetStatus.pending_approval
sheet_status false = CostSheetStatus.approved

pub record Terms : Type 0 where
  pub discount_amount : ℤ
  pub percent : ℕ
  pub final_agreed_value : ℤ
  pub booking_amount : ℤ

-- From the total before the discount to the amount of a booking.
unfoldable pub terms_of : PricingRules → CostSheetCreate → ℤ → Result Terms
unfolding discount_of discount_percent booking_amount_of policy_percent
terms_of rules payload before = do
  discount ← discount_of payload before payload.final_agreed_value
  raise_if (ltb_ℤ before discount) 400 invalid_discount
  let percent = discount_percent (pos_part discount) (pos_part before)
  let policy = rules.discount_policy
  raise_if (not (is_up_to (policy_percent policy percent) policy.maximum_discount_percent)) 400
      discount_limit_exceeded
  let final_value = cents (before -ℤ discount)
  booking_amount ←
      booking_amount_of payload.booking_amount_override rules.booking_amount final_value
  raise_if (ltb_ℤ final_value booking_amount) 400 invalid_booking_amount
  ok record {
    discount_amount = discount;
    percent = percent;
    final_agreed_value = final_value;
    booking_amount = booking_amount;
  }

-- `selected_approval_level`
abbrev pub selected_level : DiscountPolicy → Bool → ℕ → Option DiscountApprovalLevel
selected_level policy true percent =
    approval_level policy.approval_matrix (policy_percent policy percent)
selected_level policy false percent = none

-- The status of the sheet and the level that its discount needs.
unfoldable pub route_discount :
    DiscountPolicy → Terms → Option String → Result (CostSheetStatus × Option DiscountApprovalLevel)
unfolding approval_level policy_percent
route_discount policy t notes = do
  let required = is_approval_required policy t.discount_amount t.percent
  let level = selected_level policy required t.percent
  raise_if (required && not (is_some level)) 409 approval_matrix_not_configured
  raise_if (required && not (has_text notes)) 400 discount_reason_required
  ok (sheet_status required, level)

abbrev pub add_discount : ℤ → List Line → List Line
add_discount discount lines =
    if is_zero_ℤ discount
    then lines
    else add_line "DISCOUNT" "Discount" one (of_cents discount) (of_cents (negate discount)) false
        lines

-- The computed `CostSheetView`; of its snapshot, the value before the discount, its percentage and the level.
pub record Calculated : Type 0 where
  pub price_list : PriceList
  pub base : ℤ
  pub gross_value : ℤ
  pub tax_amount : ℤ
  pub previous_value : ℤ
  pub terms : Terms
  pub status : CostSheetStatus
  pub level : Option DiscountApprovalLevel
  pub items : List Line

-- From the lines before the taxes on.
unfoldable pub conclude : PriceList → CostSheetCreate → ℤ → List Line → Result Calculated
unfolding total_of apply_taxes terms_of route_discount add_line
conclude price_list payload price lines = do
  let rules = price_list.pricing_rules
  let gross = cents (total_of lines)
  let taxed = apply_taxes rules.taxes (pos 0) lines
  let before = gross +ℤ cents taxed.0
  terms ← terms_of rules payload before
  routed ← route_discount rules.discount_policy terms payload.request_notes
  ok record {
    price_list = price_list;
    base = price;
    gross_value = gross;
    tax_amount = cents taxed.0;
    previous_value = before;
    terms = terms;
    status = routed.0;
    level = routed.1;
    items = add_discount terms.discount_amount taxed.1;
  }

-- The amounts, once the rows are found.
unfoldable pub calculate :
    PriceList → UnitPrice → Result (Option Floor) → CostSheetCreate → Result Calculated
unfolding base_price unit_adjustment gross_lines conclude
calculate price_list unit find_floor payload = do
  price ← base_price price_list.pricing_rules unit
  adjustment ← unit_adjustment price_list.pricing_rules unit
  floor ← find_floor
  lines ← gross_lines price_list.pricing_rules unit adjustment floor payload price
  conclude price_list payload price lines

-- `await _entity(db, Floor, ...) if unit.floor_id else None`
abbrev pub floor_of : ℕ → Option ℕ → List Floor → Result (Option Floor)
floor_of org none floors = ok none
floor_of org (some k) floors = entity org k floors >>= λ f. ok (some f)

abbrev pub check_lead : ℕ → Option ℕ → Store → Result (Unit {0})
check_lead org none s = ok tt
check_lead org (some k) s = entity org k s.leads >>= λ l. ok tt

unfoldable pub calculate_cost_sheet : ℕ → CostSheetCreate → Context → Store → Result Calculated
unfolding calculate
calculate_cost_sheet org payload ctx s = do
  customer ← entity org payload.customer_id s.customers
  check_lead org payload.lead_id s
  unit ← entity org payload.unit_id s.pricing.unit_prices
  price_list ← entity org payload.price_list_id s.pricing.price_lists
  creator ← entity org ctx.actor_user_id s.users
  raise_if (not (price_list.project_id == unit.project_id)) 400 price_list_project_mismatch
  raise_if (not (is_effective price_list ctx.today)) 409 price_list_not_effective
  calculate price_list unit (floor_of org unit.floor_id s.pricing.floors) payload
