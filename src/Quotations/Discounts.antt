-- ===== src/Quotations/Discounts.antt =====
-- Cost sheets that are stored, and the approval of their discounts: `create_cost_sheet` and
-- `decide_discount` of backend/app/services/quotations.py.
use real_estate_crm.Base.{
  ℕ, ◌^◌, String, Bool, true, false, not, ◌&&◌, ◌||◌, Option, none, some, List, [], ◌∷◌, ◌++◌, ◌==◌,
  elem, is_id, if◌then◌else◌, is_some,
}
use real_estate_crm.Base.Int.{ℤ, pos, pos_part, ltb_ℤ}
use real_estate_crm.Base.Money.{round_div}
use real_estate_crm.Base.Result.{Result, ok, ◌>>=◌, ◌>>◌, raise_if, or_raise}
use real_estate_crm.Base.Result.Codes.{
  integrity_error, approval_not_pending, self_approval_not_allowed, approver_not_in_matrix,
  approval_matrix_not_configured,
}
use real_estate_crm.Base.Table.{first, put, entity}
use real_estate_crm.Models.Enums.{ApprovalStatus, CostSheetStatus, is_pending}
use real_estate_crm.Models.Rows.{User}
use real_estate_crm.Models.Rules.{DiscountPolicy, CostSheetCreate}
use real_estate_crm.Models.Pricing.{
  CostSheet, CostSheetItem, Line, DiscountApproval, UserRole, sheet_row, discount_row,
}
use real_estate_crm.Models.Store.{
  Store, Context, Grant, Permission, quotations_manage, audit, queue_in_app,
}
use real_estate_crm.Quotations.Levels.{DiscountApprovalLevel}
use real_estate_crm.Quotations.CostSheet.{Calculated, calculate_cost_sheet}

abbrev pub is_negative : ℤ → Bool
is_negative a = ltb_ℤ a (pos 0)

-- The checks of the table of cost sheets at the flush.
abbrev pub breaks_checks : Calculated → Bool
breaks_checks c =
    is_negative c.base
    || is_negative c.gross_value
    || is_negative c.terms.discount_amount
    || is_negative c.tax_amount
    || is_negative c.terms.final_agreed_value
    || is_negative c.terms.booking_amount

abbrev pub new_sheet : ℕ → CostSheetCreate → Context → Calculated → CostSheet
new_sheet org payload ctx c = record {
  organization_id = org;
  id = ctx.new_id 0;
  customer_id = payload.customer_id;
  lead_id = payload.lead_id;
  unit_id = payload.unit_id;
  price_list_id = payload.price_list_id;
  created_by_user_id = ctx.actor_user_id;
  status = c.status;
  currency = c.price_list.currency;
  base_price = pos_part c.base;
  gross_value = pos_part c.gross_value;
  discount_amount = pos_part c.terms.discount_amount;
  tax_amount = pos_part c.tax_amount;
  final_agreed_value = pos_part c.terms.final_agreed_value;
  booking_amount = pos_part c.terms.booking_amount;
}

unfoldable pub new_items : ℕ → ℕ → List Line → List CostSheetItem
new_items org sheet_id [] = []
new_items org sheet_id (l ∷ ls) =
    record { organization_id = org; cost_sheet_id = sheet_id; line = l } ∷ new_items org sheet_id ls

-- The limit of a policy in its column, which has four decimals.
abbrev pub limit_of : DiscountPolicy → ℕ
limit_of policy = round_div policy.self_approval_limit_percent (10 ^ policy.decimals)

abbrev pub new_discount :
    ℕ → CostSheetCreate → Context → Calculated → DiscountApprovalLevel → ℕ → DiscountApproval
new_discount org payload ctx c level limit = record {
  organization_id = org;
  id = ctx.new_id 1;
  cost_sheet_id = ctx.new_id 0;
  requested_by_user_id = ctx.actor_user_id;
  approver_user_id = none;
  status = ApprovalStatus.pending;
  requested_discount_amount = pos_part c.terms.discount_amount;
  requested_discount_percent = c.terms.percent;
  self_approval_limit_percent = limit;
  approval_level_name = level.name;
  required_approver_user_ids = level.approver_user_ids;
  required_approver_role_ids = level.approver_role_ids;
  previous_value = pos_part c.previous_value;
  final_approved_value = none;
  request_notes = payload.request_notes;
  decision_notes = none;
  decided_at = none;
}

abbrev pub has_role : ℕ → ℕ → List ℕ → UserRole → Bool
has_role org user_id role_ids r =
    (r.organization_id == org) && (r.user_id == user_id) && elem r.role_id role_ids

-- `recipients_for_roles`
unfoldable pub recipients_for_roles : ℕ → List ℕ → List UserRole → List User → List (Option ℕ)
recipients_for_roles org role_ids roles [] = []
recipients_for_roles org role_ids roles (u ∷ us) =
    if (u.organization_id == org)
      && u.is_active
      && is_some (first (has_role org u.id role_ids) roles)
    then some u.id ∷ recipients_for_roles org role_ids roles us
    else recipients_for_roles org role_ids roles us

abbrev pub as_recipients : List ℕ → List (Option ℕ)
as_recipients [] = []
as_recipients (k ∷ ks) = some k ∷ as_recipients ks

-- `approver_ids.discard(context.actor_user_id)`
abbrev pub discard : ℕ → List (Option ℕ) → List (Option ℕ)
discard k [] = []
discard k (j ∷ js) = if is_id j k then discard k js else j ∷ discard k js

unfoldable pub approver_recipients : ℕ → DiscountApprovalLevel → Context → Store → List (Option ℕ)
unfolding recipients_for_roles
approver_recipients org level ctx s = discard ctx.actor_user_id (
    as_recipients level.approver_user_ids
    ++ recipients_for_roles org level.approver_role_ids s.pricing.user_roles s.users)

-- The sheet with its items.
abbrev pub store_sheet : ℕ → CostSheet → List Line → Store → Store
store_sheet org sheet lines s =
    let p = s.pricing in
    record s {
      pricing = record p {
        sheets = sheet ∷ p.sheets;
        items = new_items org sheet.id lines ++ p.items;
      };
    }

-- The request for an approval of the discount.
abbrev pub store_discount_request : ℕ → DiscountApproval → List (Option ℕ) → Context → Store → Store
store_discount_request org request approvers ctx s =
    let p = s.pricing in
    let s1 = record s { pricing = record p { discounts = request ∷ p.discounts } } in
    let s2 =
      audit org (some ctx.actor_user_id) ctx.now "discount_approval.requested" "discount_approval"
        request.id s1 in
    record s2 {
      notifications =
          queue_in_app org approvers "DISCOUNT_APPROVAL_REQUESTED" "discount_approval" request.id
            ctx.now s.notifications;
    }

-- `if sheet.status == CostSheetStatus.PENDING_APPROVAL: ...`
unfoldable pub request_discount :
    CostSheetStatus
    → Option DiscountApprovalLevel
    → ℕ
    → CostSheetCreate
    → Context
    → Calculated
    → Store
    → Result Store
unfolding approver_recipients
request_discount CostSheetStatus.pending_approval level org payload ctx c s = do
  l ← or_raise level 409 approval_matrix_not_configured
  let limit = limit_of c.price_list.pricing_rules.discount_policy
  ok (
      store_discount_request org (new_discount org payload ctx c l limit)
        (approver_recipients org l ctx s) ctx s)
request_discount _ level org payload ctx c s = ok s

unfoldable pub create_cost_sheet : ℕ → CostSheetCreate → Context → Store → Result Store
unfolding calculate_cost_sheet new_items request_discount
create_cost_sheet org payload ctx s = do
  c ← calculate_cost_sheet org payload ctx s
  raise_if (breaks_checks c) 500 integrity_error
  s1 ←
      request_discount c.status c.level org payload ctx c
        (store_sheet org (new_sheet org payload ctx c) c.items s)
  ok (
      audit org (some ctx.actor_user_id) ctx.now "cost_sheet.created" "cost_sheet" (ctx.new_id 0)
        s1)

abbrev pub is_discount_of : ℕ → ℕ → DiscountApproval → Bool
is_discount_of org sheet_id a = (a.organization_id == org) && (a.cost_sheet_id == sheet_id)

-- `context.actor_user_id in required_approver_user_ids`, or one of the roles of the user is.
unfoldable pub is_matrix_approver : ℕ → ℕ → DiscountApproval → List UserRole → Bool
is_matrix_approver org user_id a roles =
    elem user_id a.required_approver_user_ids
    || is_some (first (has_role org user_id a.required_approver_role_ids) roles)

abbrev pub is_manage : Permission → Bool
is_manage quotations_manage = true
is_manage _ = false

-- `permission_is_granted(context.permissions, "quotations.manage")`
unfoldable pub has_override : ℕ → ℕ → List Grant → Bool
has_override org user_id grants =
    is_some
      (first (λ g. (g.organization_id == org) && (g.user_id == user_id) && is_manage g.code) grants)

abbrev pub decided_status : Bool → ApprovalStatus
decided_status true = ApprovalStatus.approved
decided_status false = ApprovalStatus.rejected

abbrev pub decided_sheet : Bool → CostSheet → CostSheet
decided_sheet approved sheet = record sheet {
  status = if approved then CostSheetStatus.approved else CostSheetStatus.rejected;
}

abbrev pub decided_discount :
    Bool → Option String → CostSheet → Context → DiscountApproval → DiscountApproval
decided_discount approved notes sheet ctx a = record a {
  status = decided_status approved;
  approver_user_id = some ctx.actor_user_id;
  decision_notes = notes;
  decided_at = some ctx.now;
  final_approved_value = if approved then some sheet.final_agreed_value else none;
}

abbrev pub store_discount : ℕ → CostSheet → DiscountApproval → Context → Store → Store
store_discount org sheet a ctx s =
    let s1 =
      audit org (some ctx.actor_user_id) ctx.now "discount_approval.decided" "discount_approval"
        a.id s in
    let p = s.pricing in
    record s1 {
      pricing = record p { sheets = put sheet p.sheets; discounts = put a p.discounts };
      notifications =
          queue_in_app org (some a.requested_by_user_id ∷ []) "DISCOUNT_APPROVAL_DECIDED"
            "discount_approval" a.id ctx.now s.notifications;
    }

unfoldable pub decide_discount : ℕ → ℕ → Bool → Option String → Context → Store → Result Store
unfolding is_matrix_approver has_override
decide_discount org sheet_id approved notes ctx s = do
  sheet ← entity org sheet_id s.pricing.sheets
  a ← or_raise (first (is_discount_of org sheet.id) s.pricing.discounts) 409 approval_not_pending
  raise_if (not (is_pending a.status)) 409 approval_not_pending
  raise_if (a.requested_by_user_id == ctx.actor_user_id) 403 self_approval_not_allowed
  raise_if
      (not (
        is_matrix_approver org ctx.actor_user_id a s.pricing.user_roles
        || has_override org ctx.actor_user_id s.grants))
      403 approver_not_in_matrix
  ok (
      store_discount org (decided_sheet approved sheet)
        (decided_discount approved notes sheet ctx a) ctx s)
