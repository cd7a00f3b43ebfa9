-- ===== src/Tests/Revisions.antt =====
-- The approval of a discount, and the quotations of a sheet, at concrete requests.
use real_estate_crm.Base.{ℕ, ◌+◌, ◌≡◌, refl, inr, true, false, ◌||◌, none, some, [], ◌∷◌, arith}
use real_estate_crm.Base.Result.{ok}
use real_estate_crm.Base.Table.{find}
use real_estate_crm.Models.Enums.{ApprovalStatus, CostSheetStatus, QuotationStatus, UnitStatus}
use real_estate_crm.Models.Rows.{Quotation}
use real_estate_crm.Models.Pricing.{CostSheet, DiscountApproval, sheet_row}
use real_estate_crm.Models.Store.{Store, quotation_row}
use real_estate_crm.Quotations.Discounts.{decide_discount, is_matrix_approver, has_override}
use real_estate_crm.Quotations.Versions.{
  conflicts, QuotationCreate, create_quotation, create_quotation_version, latest_version,
}
use real_estate_crm.Quotations.Life.{Stage, Move, view, decide, issue, IsRequested}
use real_estate_crm.Quotations.Refines.{request_refines}
use real_estate_crm.Quotations.Trace.{Trace, begin, request, HasOtherDecision, Trace-four_eyes}
use real_estate_crm.Quotations.Progress.{waiting_progress}
use real_estate_crm.Quotations.Latest.{
  live_versions, accepted_versions, create_quotation_version-latest,
}
use real_estate_crm.Tests.Sample.{after, sales, manager, empty, unit_of}

abbrev sheet_of : ℕ → CostSheetStatus → CostSheet
sheet_of k status = record {
  organization_id = 1;
  id = k;
  customer_id = 5;
  lead_id = none;
  unit_id = 7;
  price_list_id = 12;
  created_by_user_id = 2;
  status = status;
  currency = 1;
  base_price = 1_000;
  gross_value = 1_000;
  discount_amount = 50;
  tax_amount = 0;
  final_agreed_value = 950;
  booking_amount = 95;
}

abbrev asked : DiscountApproval
asked = record {
  organization_id = 1;
  id = 60;
  cost_sheet_id = 50;
  requested_by_user_id = 2;
  approver_user_id = none;
  status = ApprovalStatus.pending;
  requested_discount_amount = 50;
  requested_discount_percent = 50_000;
  self_approval_limit_percent = 10_000;
  approval_level_name = "lead";
  required_approver_user_ids = 3 ∷ [];
  required_approver_role_ids = [];
  previous_value = 1_000;
  final_approved_value = none;
  request_notes = some "Second unit of the family";
  decision_notes = none;
  decided_at = none;
}

-- One sheet that waits and one that is approved, of the same customer and unit.
abbrev two_sheets : Store
two_sheets =
    let p = empty.pricing in
    record empty {
      units = unit_of UnitStatus.available ∷ [];
      quotations = [];
      pricing = record p {
        sheets =
            sheet_of 50 CostSheetStatus.pending_approval
            ∷ sheet_of 51 CostSheetStatus.approved
            ∷ [];
        discounts = asked ∷ [];
      };
    }

requested : IsRequested two_sheets
requested = (refl, refl, (sheet_of 50 CostSheetStatus.pending_approval, refl, refl, inr refl), tt)

abbrev first_offer : QuotationCreate
first_offer = record { cost_sheet_id = 50; valid_until = 25 }

abbrev second_offer : QuotationCreate
second_offer = record { cost_sheet_id = 51; valid_until = 25 }

abbrev cleared_store : Store
cleared_store = after two_sheets (decide_discount 1 50 true none manager two_sheets)

clearing : decide_discount 1 50 true none manager two_sheets ≡ ok cleared_store
unfolding decide_discount
clearing = refl

abbrev quoted_store : Store
quoted_store = after cleared_store (create_quotation 1 first_offer sales cleared_store)

quoting : create_quotation 1 first_offer sales cleared_store ≡ ok quoted_store
unfolding decide_discount create_quotation
quoting = refl

request_refines_example :
    IsRequested cleared_store × ((o k : ℕ) → Move 3 (view two_sheets o k) (view cleared_store o k))
request_refines_example =
    request_refines {s = two_sheets} 3 requested (decide 1 50 true none manager refl clearing)

abbrev whole_trace : Trace two_sheets (2 ∷ 3 ∷ []) quoted_store
whole_trace =
    request 2 (request 3 begin (decide 1 50 true none manager refl clearing))
      (issue 1 first_offer sales refl quoting)

now_quoted : view quoted_store 1 50 ≡ Stage.quoted
unfolding decide_discount create_quotation
now_quoted = refl

Trace-four_eyes_example : HasOtherDecision 1 50 2 whole_trace
Trace-four_eyes_example = Trace-four_eyes 1 50 2 requested refl whole_trace now_quoted

may_decide :
    (is_matrix_approver 1 3 asked two_sheets.pricing.user_roles
      || has_override 1 3 two_sheets.grants)
    ≡ true
unfolding is_matrix_approver
may_decide = refl

no_conflict : conflicts 1 (sheet_of 50 CostSheetStatus.pending_approval) sales two_sheets ≡ false
unfolding conflicts
no_conflict = refl

waiting_progress_example :
    (t : Store) × (u : Store) × (q : Quotation) × (decide_discount 1 50 true none manager two_sheets
      ≡ ok t)
    × (create_quotation 1 first_offer sales t ≡ ok u)
    × (view u 1 50 ≡ Stage.quoted)
    × (find 1 100 u.quotations ≡ some q)
    × (q.status ≡ QuotationStatus.draft)
    × (q.total ≡ 950)
waiting_progress_example =
    waiting_progress 1 first_offer none manager sales two_sheets
      (sheet_of 50 CostSheetStatus.pending_approval) asked (unit_of UnitStatus.available) refl refl
      refl (ground arith) may_decide refl (omega arith) refl no_conflict

abbrev revised_store : Store
revised_store =
    after quoted_store (create_quotation_version 1 100 second_offer manager quoted_store)

revising : create_quotation_version 1 100 second_offer manager quoted_store ≡ ok revised_store
unfolding decide_discount create_quotation create_quotation_version
revising = refl

create_quotation_version-latest_example :
    (q : Quotation) × (q' : Quotation) × (find 1 100 quoted_store.quotations ≡ some q)
    × (find 1 200 revised_store.quotations ≡ some q')
    × (q'.quotation_number ≡ q.quotation_number)
    × (q'.status ≡ QuotationStatus.draft)
    × (q'.version ≡ latest_version 1 q.quotation_number quoted_store.quotations + 1)
    × (latest_version 1 q.quotation_number revised_store.quotations ≡ q'.version)
    × (live_versions 1 q.quotation_number revised_store.quotations ≡ 1)
    × (accepted_versions 1 q.quotation_number revised_store.quotations
        ≡ accepted_versions 1 q.quotation_number quoted_store.quotations)
create_quotation_version-latest_example =
    create_quotation_version-latest 1 100 second_offer manager quoted_store revised_store revising
