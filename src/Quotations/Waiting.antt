-- ===== src/Quotations/Waiting.antt =====
-- A cost sheet that waits for an approval waits until another user decides on it.
use real_estate_crm.Base.{
  false, ℕ, ◌≡◌, ◌≢◌, refl, sym, ap, ◌∙◌, ◌⊎◌, inl, inr, ◌&&◌, ◌==◌, none, some, List, ◌∷◌, arith,
  Bool-cases,
}
use real_estate_crm.Base.Table.{find, put, is_key}
use real_estate_crm.Base.Table.Laws.{find-key, find-put}
use real_estate_crm.Models.Enums.{CostSheetStatus}
use real_estate_crm.Models.Pricing.{CostSheet, Pricing, sheet_row}
use real_estate_crm.Models.Store.{Store}
use real_estate_crm.Quotations.Discounts.{decided_sheet, new_sheet}
use real_estate_crm.Quotations.Versions.{converted}
use real_estate_crm.Quotations.Life.{
  Stage, Move, stay, price, ask, clear, refuse, quote, stage_of, view, Request, create, decide,
  issue, revise, change, IsRequested, create_quotation-sheets, create_quotation_version-sheets,
  change_quotation_status-pricing, decide_discount-inv,
}
use real_estate_crm.Quotations.Refines.{request_refines, created-tables}

-- The request decides on the discount of the cost sheet.
abbrev pub IsDecision : {s s' : Store} {actor : ℕ} → ℕ → ℕ → Request s actor s' → Type 0
IsDecision o k (decide org sheet_id approved notes ctx mine done) = (org ≡ o) × (sheet_id ≡ k)
IsDecision o k _ = ⊥

Move-waiting :
    {x y : Stage} (actor r : ℕ)
    → Move actor x y
    → x ≡ Stage.waiting r
    → (y ≡ Stage.waiting r) ⊎ (r ≢ actor)
Move-waiting actor r (stay same) e = inl (sym same ∙ e)
Move-waiting actor r price e = absurd (cc)
Move-waiting actor r ask e = absurd (cc)
Move-waiting actor r (clear {r = r'} other) e = inr (ground arith)
Move-waiting actor r (refuse {r = r'} other) e = inr (ground arith)
Move-waiting actor r quote e = absurd (cc)

added-kept :
    (new : CostSheet) (sheets : List CostSheet) (o k r : ℕ)
    → find new.organization_id new.id sheets ≡ none
    → stage_of (find o k sheets) ≡ Stage.waiting r
    → stage_of (find o k (new ∷ sheets)) ≡ Stage.waiting r
added-kept new sheets o k r fresh waits = elim (Bool-cases (is_key o k new)) [
  | inl mine ↦
      let before : find o k sheets ≡ none = ground arith in
      absurd (let e : Stage.absent ≡ Stage.waiting r = ap stage_of (sym before) ∙ waits in cc)
  | inr other ↦ rw other waits
]

converted-kept :
    (sheet : CostSheet) (sheets : List CostSheet) (o k r : ℕ)
    → find sheet.organization_id sheet.id sheets ≡ some sheet
    → sheet.status ≡ CostSheetStatus.approved
    → stage_of (find o k sheets) ≡ Stage.waiting r
    → stage_of (find o k (put (converted sheet) sheets)) ≡ Stage.waiting r
converted-kept sheet sheets o k r at approved waits = elim (Bool-cases (is_key o k sheet)) [
  | inl mine ↦
      let before : find o k sheets ≡ some sheet = ground arith in
      let cleared : stage_of (some sheet) ≡ Stage.cleared = rw approved refl in
      absurd (
        let e : Stage.cleared ≡ Stage.waiting r = sym cleared ∙ ap stage_of (sym before) ∙ waits in
        cc)
  | inr other ↦
      let same : find o k (put (converted sheet) sheets) ≡ find o k sheets =
        ground (arith, find-put o k (converted sheet) sheets sheet at) in
      ap stage_of same ∙ waits
]

other-kept :
    (sheet' sheet : CostSheet) (sheets : List CostSheet) (o k : ℕ)
    → find sheet'.organization_id sheet'.id sheets ≡ some sheet
    → ((sheet'.organization_id == o) && (sheet'.id == k)) ≡ false
    → find o k (put sheet' sheets) ≡ find o k sheets
other-kept sheet' sheet sheets o k at other = ground (arith, find-put o k sheet' sheets sheet at)

pub waiting_step :
    {s s' : Store} {actor : ℕ} (o k r : ℕ)
    → IsRequested s
    → view s o k ≡ Stage.waiting r
    → (q : Request s actor s') → (view s' o k ≡ Stage.waiting r) ⊎ (IsDecision o k q × (r ≢ actor))
waiting_step {s} {s'} o k r linked waits (create org payload ctx mine fresh new_request done) =
    let (c, sheets, added) = created-tables org payload ctx s s' fresh done in
    inl (
      ap (λ (x : List CostSheet). stage_of (find o k x)) sheets
      ∙ added-kept (new_sheet org payload ctx c) s.pricing.sheets o k r fresh waits)
waiting_step {s} {s'} {actor} o k r linked waits
      (decide org sheet_id approved notes ctx mine done) =
    let q : Request s actor s' = decide org sheet_id approved notes ctx mine done in
    let (linked', move) = request_refines actor linked q in
    let (sheet, a, at, at_a, pending, other_user, eligible, sheets, discounts) =
      decide_discount-inv org sheet_id approved notes ctx s s' done in
    let (same_org, same_id) = find-key org sheet_id s.pricing.sheets sheet at in
    elim (Move-waiting actor r (move o k) waits) [
      | inl still ↦ inl still
      | inr other ↦ elim (Bool-cases ((org == o) && (sheet_id == k))) [
        | inl this ↦ inr ((ground arith, ground arith), other)
        | inr elsewhere ↦ inl (
            ap (λ (x : List CostSheet). stage_of (find o k x)) sheets
            ∙ ap stage_of (
                other-kept (decided_sheet approved sheet) sheet s.pricing.sheets o k (ground arith)
                  (ground arith))
            ∙ waits)
      ]
    ]
waiting_step {s} {s'} o k r linked waits (issue org payload ctx mine done) =
    let (sheet, at, approved, sheets, discounts) =
      create_quotation-sheets org payload ctx s s' done in
    let (same_org, same_id) = find-key org payload.cost_sheet_id s.pricing.sheets sheet at in
    inl (
      ap (λ (x : List CostSheet). stage_of (find o k x)) sheets
      ∙ converted-kept sheet s.pricing.sheets o k r (ground arith) approved waits)
waiting_step {s} {s'} o k r linked waits (revise org quotation_id payload ctx mine done) =
    let (sheet, at, approved, sheets, discounts) =
      create_quotation_version-sheets org quotation_id payload ctx s s' done in
    let (same_org, same_id) = find-key org payload.cost_sheet_id s.pricing.sheets sheet at in
    inl (
      ap (λ (x : List CostSheet). stage_of (find o k x)) sheets
      ∙ converted-kept sheet s.pricing.sheets o k r (ground arith) approved waits)
waiting_step {s} {s'} o k r linked waits (change org quotation_id target ctx mine done) = inl (
    ap (λ (p : Pricing). stage_of (find o k p.sheets))
      (change_quotation_status-pricing org quotation_id target ctx s s' done)
    ∙ waits)
