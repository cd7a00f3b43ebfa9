-- ===== src/Quotations/Settled.antt =====
-- What the end of a calculation decides: the discount, the final value, the amount of a booking,
-- and whether the discount needs an approval.
use real_estate_crm.Base.{
  ℕ, ◌≡◌, refl, true, false, ◌⊎◌, Option, none, some, String, is_some, arith,
}
use real_estate_crm.Base.Int.{ℤ, pos, pos_part, neg_part, ◌-ℤ◌, ltb_ℤ}
use real_estate_crm.Base.Decimal.{Unsigned, minus_cents, exceeds_cents, money, to_cents}
use real_estate_crm.Base.Result.{ok}
use real_estate_crm.Models.Enums.{CostSheetStatus}
use real_estate_crm.Models.Rules.{DiscountPolicy, PricingRules, CostSheetCreate}
use real_estate_crm.Quotations.Levels.{DiscountApprovalLevel, is_up_to}
use real_estate_crm.Quotations.CostSheet.{
  Terms, terms_of, route_discount, selected_level, discount_of, discount_percent,
  is_approval_required, policy_percent, sheet_status, has_text, cents,
}

pub terms_of-inv :
    (rules : PricingRules) (payload : CostSheetCreate) (before : ℤ) (t : Terms)
    → terms_of rules payload before ≡ ok t
    → (discount_of payload before payload.final_agreed_value ≡ ok t.discount_amount)
      × (ltb_ℤ before t.discount_amount ≡ false)
      × (t.percent ≡ discount_percent (pos_part t.discount_amount) (pos_part before))
      × (is_up_to
            (policy_percent rules.discount_policy t.percent)
            rules.discount_policy.maximum_discount_percent
          ≡ true)
      × (t.final_agreed_value ≡ cents (before -ℤ t.discount_amount))
      × (ltb_ℤ t.final_agreed_value t.booking_amount ≡ false)
unfolding terms_of
terms_of-inv rules payload before t h = ground arith

-- A sheet waits for an approval exactly where its discount needs one, and has then its level.
pub route_discount-inv :
    (policy : DiscountPolicy) (t : Terms) (notes : Option String) (status : CostSheetStatus)
    (level : Option DiscountApprovalLevel)
    → route_discount policy t notes ≡ ok (status, level)
    → (status ≡ sheet_status (is_approval_required policy t.discount_amount t.percent))
      × (level
          ≡ selected_level policy
              (is_approval_required policy t.discount_amount t.percent)
              t.percent)
      × ((is_approval_required policy t.discount_amount t.percent ≡ false)
          ⊎ ((is_approval_required policy t.discount_amount t.percent ≡ true)
              × (is_some level ≡ true)
              × (has_text notes ≡ true)))
unfolding route_discount
route_discount-inv policy t notes status level h = ground arith

money-nonneg : (n unit : ℕ) → neg_part (to_cents (pos n) unit) ≡ 0
unfolding to_cents
money-nonneg n unit = refl

minus_cents-nonneg :
    (before : ℤ) (value : Unsigned)
    → exceeds_cents before value ≡ false
    → neg_part (money (minus_cents before value)) ≡ 0
unfolding money minus_cents to_cents
minus_cents-nonneg before value h = ground arith

pub discount_of-nonneg :
    (payload : CostSheetCreate) (before : ℤ) (value : Option Unsigned) (d : ℤ)
    → discount_of payload before value ≡ ok d
    → neg_part d ≡ 0
unfolding discount_of money to_cents
discount_of-nonneg payload before none d h = ground arith
discount_of-nonneg payload before (some value) d h = ground (arith, minus_cents-nonneg before value)
