-- ===== src/Quotations/Progress.antt =====
-- A cost sheet that waits for an approval can become a quotation.
use real_estate_crm.Base.{
  ℕ, ◌≡◌, ◌≢◌, ◌≤◌, refl, ap, String, true, false, ◌||◌, Option, none, some, arith,
}
use real_estate_crm.Base.Result.{ok}
use real_estate_crm.Base.Table.{first, find, put}
use real_estate_crm.Base.Table.Laws.{find-key, find-put}
use real_estate_crm.Models.Enums.{CostSheetStatus, QuotationStatus, is_pending}
use real_estate_crm.Models.Rows.{InventoryUnit, Quotation}
use real_estate_crm.Models.Pricing.{CostSheet, DiscountApproval, sheet_row, discount_row}
use real_estate_crm.Models.Store.{Store, Context, unit_row, quotation_row}
use real_estate_crm.Quotations.Discounts.{
  decide_discount, is_discount_of, is_matrix_approver, has_override, store_discount, decided_sheet,
  decided_discount,
}
use real_estate_crm.Quotations.Versions.{
  QuotationCreate, create_quotation, create_quotation_record, first_edition, conflicts, has_version,
  store_quotation, new_quotation, announce_quotation, converted,
}
use real_estate_crm.Quotations.Life.{Stage, stage_of, view}

decide_discount-succeeds :
    (org sheet_id : ℕ) (notes : Option String) (ctx : Context) (s : Store) (sheet : CostSheet)
    (a : DiscountApproval)
    → find org sheet_id s.pricing.sheets ≡ some sheet
    → first (is_discount_of org sheet.id) s.pricing.discounts ≡ some a
    → is_pending a.status ≡ true
    → a.requested_by_user_id ≢ ctx.actor_user_id
    → (is_matrix_approver org ctx.actor_user_id a s.pricing.user_roles
        || has_override org ctx.actor_user_id s.grants)
      ≡ true
    → decide_discount org sheet_id true notes ctx s
      ≡ ok (
          store_discount org
            (decided_sheet true sheet)
            (decided_discount true notes sheet ctx a)
            ctx
            s)
unfolding decide_discount
decide_discount-succeeds org sheet_id notes ctx s sheet a at at_a pending other eligible =
    ground arith

create_quotation-succeeds :
    (org : ℕ) (payload : QuotationCreate) (ctx : Context) (s : Store) (sheet : CostSheet)
    (unit : InventoryUnit)
    → find org payload.cost_sheet_id s.pricing.sheets ≡ some sheet
    → sheet.status ≡ CostSheetStatus.approved
    → ctx.today ≤ payload.valid_until
    → find org sheet.unit_id s.units ≡ some unit
    → first (has_version org (first_edition (ctx.new_id 1))) s.quotations ≡ none
    → conflicts org sheet ctx s ≡ false
    → create_quotation org payload ctx s
      ≡ ok (
          announce_quotation org ctx (
            store_quotation org sheet
              (new_quotation org sheet unit (first_edition (ctx.new_id 1)) payload.valid_until ctx)
              unit.id
              s))
unfolding create_quotation create_quotation_record
create_quotation-succeeds org payload ctx s sheet unit at approved valid at_unit new_number free =
    ground arith

-- Where a cost sheet has a pending request for an approval, another user who may decide it can
-- approve it, and then the sheet can be made a quotation that is valid from today on, where the
-- database refuses neither its number nor an item of it: neither request fails, the sheet is then
-- a quotation, and the new quotation is a draft of its final value. The unit of the sheet exists.
pub waiting_progress :
    (org : ℕ) (payload : QuotationCreate) (notes : Option String) (ctx ctx' : Context) (s : Store)
    (sheet : CostSheet) (a : DiscountApproval) (unit : InventoryUnit)
    → find org payload.cost_sheet_id s.pricing.sheets ≡ some sheet
    → first (is_discount_of org sheet.id) s.pricing.discounts ≡ some a
    → is_pending a.status ≡ true
    → a.requested_by_user_id ≢ ctx.actor_user_id
    → (is_matrix_approver org ctx.actor_user_id a s.pricing.user_roles
        || has_override org ctx.actor_user_id s.grants)
      ≡ true
    → find org sheet.unit_id s.units ≡ some unit
    → ctx'.today ≤ payload.valid_until
    → first (has_version org (first_edition (ctx'.new_id 1))) s.quotations ≡ none
    → conflicts org sheet ctx' s ≡ false
    → (t : Store) × (u : Store) × (q : Quotation) × (decide_discount org payload.cost_sheet_id true
          notes ctx s
        ≡ ok t)
      × (create_quotation org payload ctx' t ≡ ok u)
      × (view u org payload.cost_sheet_id ≡ Stage.quoted)
      × (find org (ctx'.new_id 0) u.quotations ≡ some q)
      × (q.status ≡ QuotationStatus.draft)
      × (q.total ≡ sheet.final_agreed_value)
unfolding conflicts
waiting_progress org payload notes ctx ctx' s sheet a unit at at_a pending other eligible at_unit
      valid new_number free =
    let (same_org, same_id) = find-key org payload.cost_sheet_id s.pricing.sheets sheet at in
    let cleared = decided_sheet true sheet in
    let t = store_discount org cleared (decided_discount true notes sheet ctx a) ctx s in
    let q =
      new_quotation org cleared unit (first_edition (ctx'.new_id 1)) payload.valid_until ctx' in
    let mine : find cleared.organization_id cleared.id s.pricing.sheets ≡ some sheet =
      ground arith in
    let at_t : find org payload.cost_sheet_id t.pricing.sheets ≡ some cleared =
      ground (arith, find-put org payload.cost_sheet_id cleared s.pricing.sheets sheet mine) in
    let again : find cleared.organization_id cleared.id t.pricing.sheets ≡ some cleared =
      ground arith in
    let at_u : find org payload.cost_sheet_id (put (converted cleared) t.pricing.sheets)
        ≡ some (converted cleared) =
      ground (
        arith,
        find-put org payload.cost_sheet_id (converted cleared) t.pricing.sheets cleared again,
      ) in
    (
      t,
      announce_quotation org ctx' (store_quotation org cleared q unit.id t),
      q,
      decide_discount-succeeds org payload.cost_sheet_id notes ctx s sheet a at at_a pending other
          eligible,
      create_quotation-succeeds org payload ctx' t cleared unit at_t refl valid at_unit new_number
          free,
      ap (λ (x : Option CostSheet). stage_of x) at_u,
      ground arith,
      refl,
      refl,
    )
