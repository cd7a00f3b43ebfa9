-- ===== src/Tests/Quotations.antt =====
-- Discounts and quotations at concrete requests.
use real_estate_crm.Base.{ℕ, ◌<◌, ◌≡◌, refl, true, none, some, [], ◌∷◌, inl, inr, if◌then◌else◌}
use real_estate_crm.Base.Result.{ok}
use real_estate_crm.Base.Table.{find, is_key}
use real_estate_crm.Models.Enums.{QuotationStatus}
use real_estate_crm.Models.Rows.{Quotation}
use real_estate_crm.Models.Store.{Store, quotation_row}
use real_estate_crm.Quotations.Levels.{
  DiscountApprovalLevel, is_valid_matrix, is_valid_from, is_valid_after, approval_level, level_from,
  approval_level-covers,
}
use real_estate_crm.Quotations.Status.{
  change_quotation_status, stage, change_quotation_status-forward,
}
use real_estate_crm.Tests.Sample.{after, sales, empty, quotation}

abbrev lead_level : DiscountApprovalLevel
lead_level = record {
  name = "lead";
  minimum_discount_percent = 1;
  maximum_discount_percent = some 5;
  approver_user_ids = 3 ∷ [];
  approver_role_ids = [];
}

abbrev head_level : DiscountApprovalLevel
head_level = record {
  name = "head";
  minimum_discount_percent = 6;
  maximum_discount_percent = none;
  approver_user_ids = 4 ∷ [];
  approver_role_ids = [];
}

valid : is_valid_matrix (head_level ∷ lead_level ∷ []) ≡ true
unfolding is_valid_matrix is_valid_from is_valid_after
valid = refl

approval_level-covers_example : approval_level (head_level ∷ lead_level ∷ []) 4 ≡ some lead_level
approval_level-covers_example =
    approval_level-covers (head_level ∷ lead_level ∷ []) 4 lead_level valid (inr (inl refl)) refl

-- No level begins at zero.
no_level : approval_level (head_level ∷ lead_level ∷ []) 0 ≡ none
unfolding approval_level level_from
no_level = refl

abbrev drafted : Store
drafted = record empty { quotations = record quotation { status = QuotationStatus.draft } ∷ [] }

abbrev sent_store : Store
sent_store = after drafted (change_quotation_status 1 8 QuotationStatus.sent sales drafted)

sending : change_quotation_status 1 8 QuotationStatus.sent sales drafted ≡ ok sent_store
unfolding change_quotation_status
sending = refl

change_quotation_status-forward_example :
    (q : Quotation) × (q' : Quotation) × (find 1 8 drafted.quotations ≡ some q)
    × (find 1 8 sent_store.quotations ≡ some q')
    × (q'.status ≡ QuotationStatus.sent)
    × (stage q.status < stage q'.status)
    × ((o k : ℕ)
        → find o k sent_store.quotations
          ≡ (if is_key o k q' then some q' else find o k drafted.quotations))
change_quotation_status-forward_example =
    change_quotation_status-forward 1 8 QuotationStatus.sent sales drafted sent_store sending
