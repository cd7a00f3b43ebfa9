-- ===== src/Quotations/Totals.antt =====
-- What the amounts of a cost sheet add up to.
use real_estate_crm.Base.{
  ◌≡◌, refl, sym, ap, ◌∙◌, String, Bool, true, false, Option, List, [], ◌∷◌, ◌++◌, arith, inl, inr,
  Bool-cases,
}
use real_estate_crm.Base.Int.{
  ℤ, pos, pos_part, neg_part, ltb_ℤ, ◌+ℤ◌, ◌-ℤ◌, ◌≤ℤ◌, +ℤ_parts, eq_of_parts, int_laws, +ℤ_assoc,
  +ℤ_comm, +ℤ_zero,
}
use real_estate_crm.Base.Decimal.{
  Decimal, signed, of_cents, negate, is_zero, is_zero_ℤ, money, money-of_cents, money-zero,
}
use real_estate_crm.Base.Result.{Result, ok, >>=-eq-ok}
use real_estate_crm.Models.Rules.{TaxRule, CostSheetCreate}
use real_estate_crm.Models.Pricing.{Line, PriceList, UnitPrice, Floor}
use real_estate_crm.Quotations.Lines.{total_of, add_line, apply_taxes, tax_on, one}
use real_estate_crm.Quotations.Settled.{terms_of-inv, discount_of-nonneg}
use real_estate_crm.Quotations.Gross.{base_price, unit_adjustment, gross_lines}
use real_estate_crm.Quotations.CostSheet.{
  Calculated, calculate, terms_of, route_discount, conclude, cents, add_discount,
}

total_of-append : (ls : List Line) (l : Line) → total_of (ls ++ l ∷ []) ≡ total_of ls +ℤ l.amount
unfolding total_of
total_of-append [] l = +ℤ_comm l.amount (pos 0)
total_of-append (k ∷ ls) l =
    rw (total_of-append ls l) (sym (+ℤ_assoc k.amount (total_of ls) l.amount))

-- A line adds its amount in cents, also where it is left out.
total_of-add_line :
    (category label : String) (quantity rate amount : Decimal) (taxable : Bool) (ls : List Line)
    → total_of (add_line category label quantity rate amount taxable ls)
      ≡ total_of ls +ℤ money amount
unfolding add_line
total_of-add_line category label quantity rate amount taxable ls =
    elim (Bool-cases (is_zero amount)) [
      | inl nothing ↦
          rw (nothing, add_line) (rw (money-zero amount nothing) (sym (+ℤ_zero (total_of ls))))
      | inr something ↦ rw (something, add_line) (total_of-append ls _)
    ]

total_of-tax :
    (tax : TaxRule) (amount : ℤ) (ls : List Line) (label : String) (rate : Decimal)
    → total_of (add_line "TAX" label one rate (of_cents amount) false ls) ≡ total_of ls +ℤ amount
total_of-tax tax amount ls label rate =
    rw (money-of_cents amount) at
      (total_of-add_line "TAX" label one rate (of_cents amount) false ls)

add_up :
    (all tax before after so_far amount : ℤ)
    → all +ℤ (so_far +ℤ amount) ≡ after +ℤ tax
    → after ≡ before +ℤ amount
    → all +ℤ so_far ≡ before +ℤ tax
add_up all tax before after so_far amount h e =
    omega (int_laws, ap pos_part h, ap neg_part h, ap pos_part e, ap neg_part e)

-- The taxes add to the lines what they add to the sum of the taxes.
total_of-apply_taxes :
    (taxes : List TaxRule) (tax_amount : ℤ) (ls : List Line)
    → total_of (apply_taxes taxes tax_amount ls).1 +ℤ tax_amount
      ≡ total_of ls +ℤ (apply_taxes taxes tax_amount ls).0
unfolding apply_taxes
total_of-apply_taxes [] tax_amount ls = refl
total_of-apply_taxes (tax ∷ taxes) tax_amount ls =
    let amount = tax_on tax ls in
    let taxed = add_line "TAX" tax.label one (signed tax.rate_percent) (of_cents amount) false ls in
    add_up (total_of (apply_taxes taxes (tax_amount +ℤ amount) taxed).1)
      (apply_taxes taxes (tax_amount +ℤ amount) taxed).0 (total_of ls) (total_of taxed) tax_amount
      amount (total_of-apply_taxes taxes (tax_amount +ℤ amount) taxed)
      (total_of-tax tax amount ls tax.label (signed tax.rate_percent))

abbrev taxed_of : PriceList → List Line → ℤ × List Line
taxed_of price_list = apply_taxes price_list.pricing_rules.taxes (pos 0)

pub conclude-inv :
    (price_list : PriceList) (payload : CostSheetCreate) (price : ℤ) (lines : List Line)
    (c : Calculated)
    → conclude price_list payload price lines ≡ ok c
    → (c.price_list ≡ price_list)
      × (c.gross_value ≡ cents (total_of lines))
      × (c.tax_amount ≡ cents (taxed_of price_list lines).0)
      × (c.previous_value ≡ c.gross_value +ℤ c.tax_amount)
      × (terms_of price_list.pricing_rules payload c.previous_value ≡ ok c.terms)
      × (route_discount price_list.pricing_rules.discount_policy c.terms payload.request_notes
          ≡ ok (c.status, c.level))
      × (c.items ≡ add_discount c.terms.discount_amount (taxed_of price_list lines).1)
unfolding conclude
conclude-inv price_list payload price lines c h = ground arith

pub calculate-inv :
    (price_list : PriceList) (unit : UnitPrice) (find_floor : Result (Option Floor))
    (payload : CostSheetCreate) (c : Calculated)
    → calculate price_list unit find_floor payload ≡ ok c
    → (price : ℤ) × (adjustment : Decimal) × (floor : Option Floor) × (lines : List Line)
      × (base_price price_list.pricing_rules unit ≡ ok price)
      × (unit_adjustment price_list.pricing_rules unit ≡ ok adjustment)
      × (find_floor ≡ ok floor)
      × (gross_lines price_list.pricing_rules unit adjustment floor payload price ≡ ok lines)
      × (conclude price_list payload price lines ≡ ok c)
unfolding calculate
calculate-inv price_list unit find_floor payload c h =
    let (price, priced, h1) = >>=-eq-ok (base_price price_list.pricing_rules unit) _ h in
    let (adjustment, adjusted, h1') =
      >>=-eq-ok (unit_adjustment price_list.pricing_rules unit) _ h1 in
    let (floor, found, h2) = >>=-eq-ok find_floor _ h1' in
    let (lines, lined, h3) =
      >>=-eq-ok (gross_lines price_list.pricing_rules unit adjustment floor payload price) _ h2 in
    (price, adjustment, floor, lines, priced, adjusted, found, lined, h3)

zero_or_not : (a b : ℤ) → is_zero_ℤ b ≡ true → a +ℤ b ≡ a
unfolding ◌+ℤ◌
zero_or_not a b h = ground arith

negate_again : (a b : ℤ) → (a +ℤ negate b) +ℤ b ≡ a
negate_again a b =
    ground (
      arith,
      +ℤ_parts a (negate b),
      +ℤ_parts (a +ℤ negate b) b,
      eq_of_parts ((a +ℤ negate b) +ℤ b) a,
    )

total_of-add_discount :
    (discount : ℤ) (ls : List Line) → total_of (add_discount discount ls) +ℤ discount ≡ total_of ls
total_of-add_discount discount ls = elim (Bool-cases (is_zero_ℤ discount)) [
  | inl nothing ↦ rw nothing (zero_or_not (total_of ls) discount nothing)
  | inr something ↦
      rw
        (
          something,
          total_of-add_line "DISCOUNT" "Discount" one (of_cents discount)
              (of_cents (negate discount)) false ls,
          money-of_cents (negate discount),
        )
        (negate_again (total_of ls) discount)
]

settle_up :
    (items taxed lines tax before discount final : ℤ)
    → items +ℤ discount ≡ taxed
    → taxed +ℤ pos 0 ≡ lines +ℤ tax
    → before ≡ lines +ℤ tax
    → final ≡ before -ℤ discount
    → (items ≡ final) × (final +ℤ discount ≡ lines +ℤ tax)
settle_up items taxed lines tax before discount final e1 e2 e3 e4 = (
  omega (
    int_laws,
    ap pos_part e1,
    ap neg_part e1,
    ap pos_part e2,
    ap neg_part e2,
    ap pos_part e3,
    ap neg_part e3,
    ap pos_part e4,
    ap neg_part e4,
  ),
  omega (int_laws, ap pos_part e3, ap neg_part e3, ap pos_part e4, ap neg_part e4),
)

not_below : (a b : ℤ) → ltb_ℤ a b ≡ false → b ≤ℤ a
not_below a b h = ground arith

pub conclude-totals :
    (price_list : PriceList) (payload : CostSheetCreate) (price : ℤ) (lines : List Line)
    (c : Calculated)
    → conclude price_list payload price lines ≡ ok c
    → (total_of c.items ≡ c.terms.final_agreed_value)
      × (c.terms.final_agreed_value +ℤ c.terms.discount_amount ≡ c.gross_value +ℤ c.tax_amount)
      × (neg_part c.terms.discount_amount ≡ 0)
      × (c.terms.booking_amount ≤ℤ c.terms.final_agreed_value)
conclude-totals price_list payload price lines c h =
    let (same_list, gross, tax, before, termed, routed, listed) =
      conclude-inv price_list payload price lines c h in
    let taxed = taxed_of price_list lines in
    let discount = c.terms.discount_amount in
    let (asked, at_most, share, below, final, booking) =
      terms_of-inv price_list.pricing_rules payload c.previous_value c.terms termed in
    let whole_gross : c.gross_value ≡ total_of lines = gross ∙ money-of_cents (total_of lines) in
    let whole_tax : c.tax_amount ≡ taxed.0 = tax ∙ money-of_cents taxed.0 in
    let (same, split) =
      settle_up (total_of c.items) (total_of taxed.1) c.gross_value c.tax_amount c.previous_value
        discount c.terms.final_agreed_value (rw listed (total_of-add_discount discount taxed.1))
        (rw (whole_gross, whole_tax)
          (total_of-apply_taxes price_list.pricing_rules.taxes (pos 0) lines))
        before (final ∙ money-of_cents (c.previous_value -ℤ discount)) in
    (
      same,
      split,
      discount_of-nonneg payload c.previous_value payload.final_agreed_value discount asked,
      not_below c.terms.final_agreed_value c.terms.booking_amount booking,
    )
