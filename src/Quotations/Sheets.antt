-- ===== src/Quotations/Sheets.antt =====
-- What a cost sheet that is calculated or stored promises.
use real_estate_crm.Base.{
  leb, ℕ, ◌≤◌, ◌<◌, ◌≡◌, String, true, ◌⊎◌, inl, inr, Option, none, some, List, [], ◌∷◌, arith,
  Option-cases,
}
use real_estate_crm.Base.Int.{pos, pos_part, neg_part, ◌+ℤ◌, ◌≤ℤ◌}
use real_estate_crm.Base.Result.{ok}
use real_estate_crm.Base.Table.{find}
use real_estate_crm.Models.Enums.{CostSheetStatus}
use real_estate_crm.Models.Rules.{CostSheetCreate, DiscountPolicy}
use real_estate_crm.Models.Pricing.{PriceList, UnitPrice, unit_price_row, price_list_row, sheet_row}
use real_estate_crm.Models.Store.{Store, Context}
use real_estate_crm.Quotations.Levels.{
  DiscountApprovalLevel, approval_level, covers, level_from, IsIn, member_of_sorted, by_minimum,
}
use real_estate_crm.Quotations.Lines.{total_of}
use real_estate_crm.Quotations.Settled.{route_discount-inv}
use real_estate_crm.Quotations.Totals.{conclude-inv, calculate-inv, conclude-totals}
use real_estate_crm.Quotations.CostSheet.{
  Calculated, calculate_cost_sheet, calculate, floor_of, has_text, Terms, route_discount,
  policy_percent,
}

calculate_cost_sheet-inv :
    (org : ℕ) (payload : CostSheetCreate) (ctx : Context) (s : Store) (c : Calculated)
    → calculate_cost_sheet org payload ctx s ≡ ok c
    → (unit : UnitPrice) × (l : PriceList) × (find org payload.unit_id s.pricing.unit_prices
        ≡ some unit)
      × (find org payload.price_list_id s.pricing.price_lists ≡ some l)
      × (calculate l unit (floor_of org unit.floor_id s.pricing.floors) payload ≡ ok c)
unfolding calculate_cost_sheet
calculate_cost_sheet-inv org payload ctx s c h = ground arith

-- Where a cost sheet is calculated, the amounts of its lines add up to the final value, the final
-- value and the discount add up to the gross value and the tax, the discount is not negative, and
-- the amount of a booking is at most the final value.
pub calculate_cost_sheet-totals :
    (org : ℕ) (payload : CostSheetCreate) (ctx : Context) (s : Store) (c : Calculated)
    → calculate_cost_sheet org payload ctx s ≡ ok c
    → (total_of c.items ≡ c.terms.final_agreed_value)
      × (c.terms.final_agreed_value +ℤ c.terms.discount_amount ≡ c.gross_value +ℤ c.tax_amount)
      × (neg_part c.terms.discount_amount ≡ 0)
      × (c.terms.booking_amount ≤ℤ c.terms.final_agreed_value)
calculate_cost_sheet-totals org payload ctx s c h =
    let (unit, l, at_unit, at_list, made) = calculate_cost_sheet-inv org payload ctx s c h in
    let (price, adjustment, floor, lines, priced, adjusted, found, lined, concluded) =
      calculate-inv l unit (floor_of org unit.floor_id s.pricing.floors) payload c made in
    conclude-totals l payload price lines c concluded

level_from_sound :
    (percent : ℕ) (ls : List DiscountApprovalLevel) (l : DiscountApprovalLevel)
    → level_from percent ls ≡ some l
    → IsIn l ls × (covers percent l ≡ true)
unfolding level_from
level_from_sound percent [] l h = ground arith
level_from_sound percent (k ∷ ks) l h = ground (arith, level_from_sound percent ks l)

approval_level_sound :
    (matrix : List DiscountApprovalLevel) (percent : ℕ) (l : DiscountApprovalLevel)
    → approval_level matrix percent ≡ some l
    → IsIn l matrix × (covers percent l ≡ true)
unfolding approval_level
approval_level_sound matrix percent l h =
    let (sorted, covered) = level_from_sound percent (by_minimum matrix) l h in
    (
      member_of_sorted (λ k m. leb k.minimum_discount_percent m.minimum_discount_percent) l matrix
          sorted,
      covered,
    )

route_discount-cases :
    (policy : DiscountPolicy) (t : Terms) (notes : Option String) (status : CostSheetStatus)
    (level : Option DiscountApprovalLevel)
    → neg_part t.discount_amount ≡ 0
    → route_discount policy t notes ≡ ok (status, level)
    → ((status ≡ CostSheetStatus.approved)
        × (level ≡ none)
        × ((t.discount_amount ≡ pos 0)
            ⊎ (policy_percent policy t.percent ≤ policy.self_approval_limit_percent)))
      ⊎ ((l : DiscountApprovalLevel) × (status ≡ CostSheetStatus.pending_approval)
          × (level ≡ some l)
          × (0 < pos_part t.discount_amount)
          × (policy.self_approval_limit_percent < policy_percent policy t.percent)
          × IsIn l policy.approval_matrix
          × (covers (policy_percent policy t.percent) l ≡ true)
          × (has_text notes ≡ true))
route_discount-cases policy t notes status level nonneg h =
    let (state, chosen, needed) = route_discount-inv policy t notes status level h in
    elim needed [
      | inl free ↦ inl (ground arith, ground arith, ground arith)
      | inr (required, has_level, reason) ↦ elim (Option-cases level) [
        | inl absent ↦ absurd (ground arith)
        | inr (l, given) ↦
            let (inside, covered) =
              approval_level_sound policy.approval_matrix (policy_percent policy t.percent) l
                (ground arith) in
            inr (l, ground arith, given, ground arith, ground arith, inside, covered, reason)
      ]
    ]

abbrev pub discount_policy_of : Calculated → DiscountPolicy
discount_policy_of c = c.price_list.pricing_rules.discount_policy

-- A calculated cost sheet is approved at once exactly where it has no discount or its percentage
-- is within the limit; otherwise it waits for an approval, by a level of the matrix that covers
-- the percentage, and the request has a reason.
pub calculate_cost_sheet-approval :
    (org : ℕ) (payload : CostSheetCreate) (ctx : Context) (s : Store) (c : Calculated)
    → calculate_cost_sheet org payload ctx s ≡ ok c
    → ((c.status ≡ CostSheetStatus.approved)
        × (c.level ≡ none)
        × ((c.terms.discount_amount ≡ pos 0)
            ⊎ (policy_percent (discount_policy_of c) c.terms.percent
                ≤ (discount_policy_of c).self_approval_limit_percent)))
      ⊎ ((l : DiscountApprovalLevel) × (c.status ≡ CostSheetStatus.pending_approval)
          × (c.level ≡ some l)
          × (0 < pos_part c.terms.discount_amount)
          × ((discount_policy_of c).self_approval_limit_percent
              < policy_percent (discount_policy_of c) c.terms.percent)
          × IsIn l (discount_policy_of c).approval_matrix
          × (covers (policy_percent (discount_policy_of c) c.terms.percent) l ≡ true)
          × (has_text payload.request_notes ≡ true))
calculate_cost_sheet-approval org payload ctx s c h =
    let (unit, l, at_unit, at_list, made) = calculate_cost_sheet-inv org payload ctx s c h in
    let (price, adjustment, floor, lines, priced, adjusted, found, lined, concluded) =
      calculate-inv l unit (floor_of org unit.floor_id s.pricing.floors) payload c made in
    let (same, gross, tax, before, termed, routed, listed) =
      conclude-inv l payload price lines c concluded in
    let (total, split, nonneg, below) = conclude-totals l payload price lines c concluded in
    rw same (
      route_discount-cases l.pricing_rules.discount_policy c.terms payload.request_notes c.status
        c.level nonneg routed)
