-- ===== src/Quotations/Life.antt =====
-- The life of a cost sheet as an abstract machine, and the requests of the service as its moves.
use real_estate_crm.Base.{
  ℕ, ◌≡◌, ◌≢◌, refl, ap, ◌⊎◌, inl, inr, String, Bool, true, ◌||◌, Option, none, some, List, ◌∷◌,
  arith, Bool-cases,
}
use real_estate_crm.Base.Result.{ok}
use real_estate_crm.Base.Table.{first, find, put, is_key}
use real_estate_crm.Base.Table.Laws.{find-put}
use real_estate_crm.Models.Enums.{CostSheetStatus, QuotationStatus, is_pending}
use real_estate_crm.Models.Rules.{CostSheetCreate}
use real_estate_crm.Models.Pricing.{CostSheet, DiscountApproval, sheet_row, discount_row}
use real_estate_crm.Models.Store.{Store, Context}
use real_estate_crm.Quotations.Levels.{DiscountApprovalLevel}
use real_estate_crm.Quotations.CostSheet.{Calculated}
use real_estate_crm.Quotations.Discounts.{
  create_cost_sheet, new_discount, limit_of, request_discount, decide_discount, decided_sheet,
  decided_discount, is_discount_of, is_matrix_approver, has_override,
}
use real_estate_crm.Quotations.Status.{change_quotation_status}
use real_estate_crm.Quotations.Versions.{
  QuotationCreate, create_quotation, create_quotation_version, create_quotation_record, converted,
}
use real_estate_crm.Quotations.Requests.{IsLinked}

-- What a cost sheet is to the business: `waiting` names the user who asked.
pub data Stage : Type 0 where
  absent : Stage
  waiting : ℕ → Stage
  cleared refused quoted idle : Stage

-- One request of a user, seen by one cost sheet.
pub data Move (actor : ℕ) : Stage → Stage → Type 0 where
  stay : {x y : Stage} → x ≡ y → Move actor x y
  price : Move actor absent cleared
  ask : Move actor absent (waiting actor)
  clear : {r : ℕ} → r ≢ actor → Move actor (waiting r) cleared
  refuse : {r : ℕ} → r ≢ actor → Move actor (waiting r) refused
  quote : Move actor cleared quoted

abbrev pub stage_by : CostSheetStatus → ℕ → Stage
stage_by CostSheetStatus.pending_approval creator = Stage.waiting creator
stage_by CostSheetStatus.approved creator = Stage.cleared
stage_by CostSheetStatus.rejected creator = Stage.refused
stage_by CostSheetStatus.converted creator = Stage.quoted
stage_by _ creator = Stage.idle

abbrev pub stage_of : Option CostSheet → Stage
stage_of none = Stage.absent
stage_of (some sheet) = stage_by sheet.status sheet.created_by_user_id

-- The abstract view of a store.
abbrev pub view : Store → ℕ → ℕ → Stage
view s o k = stage_of (find o k s.pricing.sheets)

-- A request of the user `actor` that the service accepts. The database draws new identifiers.
pub data Request (s : Store) (actor : ℕ) : Store → Type 0 where
  create :
      {s' : Store} (org : ℕ) (payload : CostSheetCreate) (ctx : Context)
      → ctx.actor_user_id ≡ actor
      → find org (ctx.new_id 0) s.pricing.sheets ≡ none
      → find org (ctx.new_id 1) s.pricing.discounts ≡ none
      → create_cost_sheet org payload ctx s ≡ ok s'
      → Request s actor s'
  decide :
      {s' : Store} (org sheet_id : ℕ) (approved : Bool) (notes : Option String) (ctx : Context)
      → ctx.actor_user_id ≡ actor
      → decide_discount org sheet_id approved notes ctx s ≡ ok s'
      → Request s actor s'
  issue :
      {s' : Store} (org : ℕ) (payload : QuotationCreate) (ctx : Context)
      → ctx.actor_user_id ≡ actor
      → create_quotation org payload ctx s ≡ ok s'
      → Request s actor s'
  revise :
      {s' : Store} (org quotation_id : ℕ) (payload : QuotationCreate) (ctx : Context)
      → ctx.actor_user_id ≡ actor
      → create_quotation_version org quotation_id payload ctx s ≡ ok s'
      → Request s actor s'
  change :
      {s' : Store} (org quotation_id : ℕ) (target : QuotationStatus) (ctx : Context)
      → ctx.actor_user_id ≡ actor
      → change_quotation_status org quotation_id target ctx s ≡ ok s'
      → Request s actor s'

abbrev pub IsRequested : Store → Type 0
IsRequested s = IsLinked s.pricing.sheets s.pricing.discounts

-- A stored sheet whose row changes in place.
pub put-view :
    (actor : ℕ) (sheet sheet' : CostSheet) (sheets : List CostSheet) (o k : ℕ)
    → find sheet'.organization_id sheet'.id sheets ≡ some sheet
    → Move actor (stage_of (some sheet)) (stage_of (some sheet'))
    → Move actor (stage_of (find o k sheets)) (stage_of (find o k (put sheet' sheets)))
put-view actor sheet sheet' sheets o k at move = elim (Bool-cases (is_key o k sheet')) [
  | inl mine ↦
      let here : find o k sheets ≡ some sheet = ground arith in
      let there : find o k (put sheet' sheets) ≡ some sheet' =
        ground (arith, find-put o k sheet' sheets sheet at) in
      rw (here, there) move
  | inr other ↦
      let same : find o k (put sheet' sheets) ≡ find o k sheets =
        ground (arith, find-put o k sheet' sheets sheet at) in
      Move.stay (ap stage_of (rw same refl))
]

pub create_quotation-sheets :
    (org : ℕ) (payload : QuotationCreate) (ctx : Context) (s s' : Store)
    → create_quotation org payload ctx s ≡ ok s'
    → (sheet : CostSheet) × (find org payload.cost_sheet_id s.pricing.sheets ≡ some sheet)
      × (sheet.status ≡ CostSheetStatus.approved)
      × (s'.pricing.sheets ≡ put (converted sheet) s.pricing.sheets)
      × (s'.pricing.discounts ≡ s.pricing.discounts)
unfolding create_quotation create_quotation_record
create_quotation-sheets org payload ctx s s' h = ground arith

pub create_quotation_version-sheets :
    (org quotation_id : ℕ) (payload : QuotationCreate) (ctx : Context) (s s' : Store)
    → create_quotation_version org quotation_id payload ctx s ≡ ok s'
    → (sheet : CostSheet) × (find org payload.cost_sheet_id s.pricing.sheets ≡ some sheet)
      × (sheet.status ≡ CostSheetStatus.approved)
      × (s'.pricing.sheets ≡ put (converted sheet) s.pricing.sheets)
      × (s'.pricing.discounts ≡ s.pricing.discounts)
unfolding create_quotation_version create_quotation_record
create_quotation_version-sheets org quotation_id payload ctx s s' h = ground arith

pub change_quotation_status-pricing :
    (org quotation_id : ℕ) (target : QuotationStatus) (ctx : Context) (s s' : Store)
    → change_quotation_status org quotation_id target ctx s ≡ ok s'
    → s'.pricing ≡ s.pricing
unfolding change_quotation_status
change_quotation_status-pricing org quotation_id target ctx s s' h = ground arith

pub decide_discount-inv :
    (org sheet_id : ℕ) (approved : Bool) (notes : Option String) (ctx : Context) (s s' : Store)
    → decide_discount org sheet_id approved notes ctx s ≡ ok s'
    → (sheet : CostSheet) × (a : DiscountApproval) × (find org sheet_id s.pricing.sheets
        ≡ some sheet)
      × (first (is_discount_of org sheet.id) s.pricing.discounts ≡ some a)
      × (is_pending a.status ≡ true)
      × (a.requested_by_user_id ≢ ctx.actor_user_id)
      × ((is_matrix_approver org ctx.actor_user_id a s.pricing.user_roles
            || has_override org ctx.actor_user_id s.grants)
          ≡ true)
      × (s'.pricing.sheets ≡ put (decided_sheet approved sheet) s.pricing.sheets)
      × (s'.pricing.discounts
          ≡ put (decided_discount approved notes sheet ctx a) s.pricing.discounts)
unfolding decide_discount
decide_discount-inv org sheet_id approved notes ctx s s' h = ground arith

pub request_discount-inv :
    (status : CostSheetStatus) (level : Option DiscountApprovalLevel) (org : ℕ)
    (payload : CostSheetCreate) (ctx : Context) (c : Calculated) (s s' : Store)
    → request_discount status level org payload ctx c s ≡ ok s'
    → (s'.pricing.sheets ≡ s.pricing.sheets)
      × (((s'.pricing.discounts ≡ s.pricing.discounts)
            × (status ≢ CostSheetStatus.pending_approval))
          ⊎ ((l : DiscountApprovalLevel) × (level ≡ some l)
              × (s'.pricing.discounts
                  ≡ new_discount org payload ctx c l
                      (limit_of c.price_list.pricing_rules.discount_policy)
                    ∷ s.pricing.discounts)
              × (status ≡ CostSheetStatus.pending_approval)))
unfolding request_discount
request_discount-inv status level org payload ctx c s s' h = ground arith
