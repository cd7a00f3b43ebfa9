-- ===== src/Quotations/Versions.antt =====
-- Quotations and their revisions: `_create_quotation_record`, `create_quotation` and
-- `create_quotation_version` of backend/app/services/quotations.py.
use text.Mathlib.Text.{◌==◌ as str_eq}
use real_estate_crm.Base.{
  ℕ, ◌+◌, Bool, true, false, not, ◌&&◌, ◌||◌, Option, none, some, List, [], ◌∷◌, ◌++◌, leb, ltb,
  ◌==◌, is_id, is_some, if◌then◌else◌, max,
}
use real_estate_crm.Base.Int.{pos, ltb_ℤ}
use real_estate_crm.Base.Decimal.{Decimal, of_cents, negate}
use real_estate_crm.Base.Result.{Result, ok, ◌>>=◌, ◌>>◌, raise_if}
use real_estate_crm.Base.Result.Codes.{
  cost_sheet_not_approved, invalid_validity, duplicate_quotation, accepted_quotation_immutable,
  revision_scope_mismatch, version_conflict, integrity_error,
}
use real_estate_crm.Base.Table.{select, first, update_all, put, entity, sort_by}
use real_estate_crm.Models.Enums.{CostSheetStatus, QuotationStatus, is_accepted}
use real_estate_crm.Models.Rows.{Quotation, InventoryUnit}
use real_estate_crm.Models.Pricing.{CostSheet, CostSheetItem, QuotationItem, sheet_row}
use real_estate_crm.Models.Store.{Store, Context, audit, queue_in_app, quotation_row, unit_row}

pub record QuotationCreate : Type 0 where
  pub cost_sheet_id : ℕ
  pub valid_until : ℕ

abbrev pub is_approved_sheet : CostSheetStatus → Bool
is_approved_sheet CostSheetStatus.approved = true
is_approved_sheet _ = false

-- `Quotation.status.not_in([ACCEPTED, REJECTED])`
abbrev pub is_supersedable : QuotationStatus → Bool
is_supersedable QuotationStatus.accepted = false
is_supersedable QuotationStatus.rejected = false
is_supersedable _ = true

-- The number, the version and the parent of a new quotation.
pub record Edition : Type 0 where
  pub quotation_number : ℕ
  pub version : ℕ
  pub parent_quotation_id : Option ℕ

abbrev pub new_quotation : ℕ → CostSheet → InventoryUnit → Edition → ℕ → Context → Quotation
new_quotation org sheet unit edition valid_until ctx = record {
  organization_id = org;
  id = ctx.new_id 0;
  lead_id = sheet.lead_id;
  customer_id = some sheet.customer_id;
  project_id = unit.project_id;
  unit_id = some unit.id;
  cost_sheet_id = some sheet.id;
  parent_quotation_id = edition.parent_quotation_id;
  quotation_number = edition.quotation_number;
  version = edition.version;
  status = QuotationStatus.draft;
  currency = sheet.currency;
  subtotal = sheet.gross_value;
  discount_amount = sheet.discount_amount;
  tax_amount = sheet.tax_amount;
  total = sheet.final_agreed_value;
  final_agreed_value = some sheet.final_agreed_value;
  created_by_user_id = ctx.actor_user_id;
  valid_until = valid_until;
  issued_at = none;
  booking_amount = some sheet.booking_amount;
}

abbrev pub is_item_of : ℕ → ℕ → CostSheetItem → Bool
is_item_of org sheet_id i = (i.organization_id == org) && (i.cost_sheet_id == sheet_id)

abbrev pub by_sequence : List CostSheetItem → List CostSheetItem
by_sequence = sort_by (λ i j. leb i.line.sequence j.line.sequence)

abbrev pub nothing : Decimal
nothing = of_cents (pos 0)

-- A line of the sheet as an item of the quotation.
abbrev pub quoted : ℕ → ℕ → ℕ → CostSheetItem → QuotationItem
quoted org quotation_id unit_id i =
    let l = i.line in
    let is_discount = str_eq l.category "DISCOUNT" in
    let is_tax = str_eq l.category "TAX" in
    record {
      organization_id = org;
      quotation_id = quotation_id;
      unit_id = if str_eq l.category "BASE_PRICE" then some unit_id else none;
      sequence = l.sequence;
      category = l.category;
      description = l.label;
      quantity = l.quantity;
      unit_price = if is_discount || is_tax then nothing else l.rate;
      discount_amount = if is_discount then negate l.amount else pos 0;
      tax_amount = if is_tax then l.amount else pos 0;
      total = if is_discount then pos 0 else l.amount;
    }

unfoldable pub quoted_items : ℕ → ℕ → ℕ → List CostSheetItem → List QuotationItem
quoted_items org quotation_id unit_id [] = []
quoted_items org quotation_id unit_id (i ∷ is) =
    quoted org quotation_id unit_id i ∷ quoted_items org quotation_id unit_id is

abbrev pub converted : CostSheet → CostSheet
converted sheet = record sheet { status = CostSheetStatus.converted }

abbrev pub items_of : ℕ → CostSheet → Store → List CostSheetItem
items_of org sheet s = by_sequence (select (is_item_of org sheet.id) s.pricing.items)

abbrev pub store_quotation : ℕ → CostSheet → Quotation → ℕ → Store → Store
store_quotation org sheet q unit_id s =
    let p = s.pricing in
    record s {
      quotations = q ∷ s.quotations;
      pricing = record p {
        sheets = put (converted sheet) p.sheets;
        quotation_items = quoted_items org q.id unit_id (items_of org sheet s) ++ p.quotation_items;
      };
    }

abbrev pub is_version_of : ℕ → ℕ → Quotation → Bool
is_version_of org number q = (q.organization_id == org) && (q.quotation_number == number)

-- The unique constraint on the number and the version of a quotation.
abbrev pub has_version : ℕ → Edition → Quotation → Bool
has_version org edition q =
    is_version_of org edition.quotation_number q && (q.version == edition.version)

-- `_create_quotation_record`: a number and version that are taken fail at its flush.
unfoldable pub create_quotation_record :
    ℕ → CostSheet → Edition → ℕ → Context → Store → Result Store
unfolding quoted_items
create_quotation_record org sheet edition valid_until ctx s = do
  unit ← entity org sheet.unit_id s.units
  raise_if (is_some (first (has_version org edition) s.quotations)) 500 integrity_error
  ok (store_quotation org sheet (new_quotation org sheet unit edition valid_until ctx) unit.id s)

-- The check on the amounts of an item of a quotation.
abbrev pub breaks_amounts : QuotationItem → Bool
breaks_amounts i =
    not (ltb_ℤ (pos 0) i.quantity.digits)
    || ltb_ℤ i.unit_price.digits (pos 0)
    || ltb_ℤ i.total (pos 0)

-- The database refuses an item of a new quotation at the commit.
unfoldable pub conflicts : ℕ → CostSheet → Context → Store → Bool
unfolding quoted_items
conflicts org sheet ctx s =
    is_some
      (first breaks_amounts (quoted_items org (ctx.new_id 0) sheet.unit_id (items_of org sheet s)))

abbrev pub first_edition : ℕ → Edition
first_edition number = record { quotation_number = number; version = 1; parent_quotation_id = none }

abbrev pub announce_quotation : ℕ → Context → Store → Store
announce_quotation org ctx s =
    let s1 =
      audit org (some ctx.actor_user_id) ctx.now "quotation.created" "quotation" (ctx.new_id 0) s in
    record s1 {
      notifications =
          queue_in_app org (some ctx.actor_user_id ∷ []) "QUOTATION_CREATED" "quotation"
            (ctx.new_id 0) ctx.now s.notifications;
    }

unfoldable pub create_quotation : ℕ → QuotationCreate → Context → Store → Result Store
unfolding create_quotation_record conflicts
create_quotation org payload ctx s = do
  sheet ← entity org payload.cost_sheet_id s.pricing.sheets
  raise_if (not (is_approved_sheet sheet.status)) 409 cost_sheet_not_approved
  raise_if (ltb payload.valid_until ctx.today) 400 invalid_validity
  let edition = first_edition (ctx.new_id 1)
  s1 ← create_quotation_record org sheet edition payload.valid_until ctx s
  raise_if (conflicts org sheet ctx s) 409 duplicate_quotation
  ok (announce_quotation org ctx s1)

-- `max(item.version for item in locked_versions)`
unfoldable pub latest_version : ℕ → ℕ → List Quotation → ℕ
latest_version org number [] = 0
latest_version org number (q ∷ qs) =
    if is_version_of org number q
    then max q.version (latest_version org number qs)
    else latest_version org number qs

abbrev pub superseded : Quotation → Quotation
superseded q = record q { status = QuotationStatus.superseded }

-- `update(Quotation).where(...).values(status=QuotationStatus.SUPERSEDED)`
abbrev pub supersede : ℕ → ℕ → List Quotation → List Quotation
supersede org number =
    update_all (λ q. is_version_of org number q && is_supersedable q.status) superseded

-- The rows of the number hold the source, so there is a latest version.
unfoldable pub next_edition : ℕ → Quotation → List Quotation → Edition
unfolding latest_version
next_edition org source qs = record {
  quotation_number = source.quotation_number;
  version = latest_version org source.quotation_number qs + 1;
  parent_quotation_id = some source.id;
}

unfoldable pub create_quotation_version : ℕ → ℕ → QuotationCreate → Context → Store → Result Store
unfolding create_quotation_record next_edition conflicts
create_quotation_version org quotation_id payload ctx s = do
  source ← entity org quotation_id s.quotations
  raise_if (is_accepted source.status) 409 accepted_quotation_immutable
  sheet ← entity org payload.cost_sheet_id s.pricing.sheets
  raise_if (not (is_approved_sheet sheet.status)) 409 cost_sheet_not_approved
  raise_if (not (is_id source.customer_id sheet.customer_id && is_id source.unit_id sheet.unit_id))
      400 revision_scope_mismatch
  let number = source.quotation_number
  let edition = next_edition org source s.quotations
  s1 ←
      create_quotation_record org sheet edition payload.valid_until ctx
        record s { quotations = supersede org number s.quotations }
  raise_if (conflicts org sheet ctx s) 409 version_conflict
  ok (
      audit org (some ctx.actor_user_id) ctx.now "quotation.version.created" "quotation"
        (ctx.new_id 0) s1)
