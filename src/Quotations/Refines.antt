-- ===== src/Quotations/Refines.antt =====
-- The requests of the service refine the abstract life of a cost sheet.
use real_estate_crm.Base.{
  ℕ, ◌≡◌, ◌≢◌, refl, sym, ◌∙◌, ap, ◌⊎◌, inl, inr, String, Bool, true, false, Option, none, some,
  ◌∷◌, if◌then◌else◌, arith, Bool-cases,
}
use real_estate_crm.Base.Result.{ok, >>=-eq-ok, passed}
use real_estate_crm.Base.Result.Codes.{integrity_error}
use real_estate_crm.Base.Table.{find, put, is_key}
use real_estate_crm.Base.Table.Laws.{find-key}
use real_estate_crm.Models.Enums.{CostSheetStatus}
use real_estate_crm.Models.Rules.{CostSheetCreate}
use real_estate_crm.Models.Pricing.{CostSheet, Pricing, sheet_row, discount_row}
use real_estate_crm.Models.Store.{Store, Context}
use real_estate_crm.Quotations.Levels.{DiscountApprovalLevel}
use real_estate_crm.Quotations.CostSheet.{Calculated, calculate_cost_sheet}
use real_estate_crm.Quotations.Discounts.{
  create_cost_sheet, new_sheet, new_discount, request_discount, decide_discount, decided_sheet,
  decided_discount, store_sheet, breaks_checks,
}
use real_estate_crm.Quotations.Sheets.{calculate_cost_sheet-approval}
use real_estate_crm.Quotations.Versions.{converted}
use real_estate_crm.Quotations.Requests.{
  absent-first, first-IsLinkedRow, ∷-IsLinked, put-IsLinked, decided-IsLinked,
}
use real_estate_crm.Quotations.Life.{
  Move, create, decide, issue, revise, change, stage_by, stage_of, view, Request, IsRequested,
  put-view, create_quotation-sheets, create_quotation_version-sheets,
  change_quotation_status-pricing, decide_discount-inv, request_discount-inv,
}

create_cost_sheet-inv :
    (org : ℕ) (payload : CostSheetCreate) (ctx : Context) (s s' : Store)
    → create_cost_sheet org payload ctx s ≡ ok s'
    → (c : Calculated) × (s1 : Store) × (calculate_cost_sheet org payload ctx s ≡ ok c)
      × (request_discount c.status c.level org payload ctx c
            (store_sheet org (new_sheet org payload ctx c) c.items s)
          ≡ ok s1)
      × (s'.pricing ≡ s1.pricing)
unfolding create_cost_sheet
create_cost_sheet-inv org payload ctx s s' h =
    let (c, calculated, h1) = >>=-eq-ok (calculate_cost_sheet org payload ctx s) _ h in
    let (within, h2) = passed (breaks_checks c) 500 integrity_error _ h1 in
    let (s1, requested, h3) =
      >>=-eq-ok
        (request_discount c.status c.level org payload ctx c
          (store_sheet org (new_sheet org payload ctx c) c.items s))
        _ h2 in
    (c, s1, calculated, requested, ground arith)

module _ (org : ℕ) (payload : CostSheetCreate) (ctx : Context) (s s' : Store)
    (fresh : find org (ctx.new_id 0) s.pricing.sheets ≡ none)
    (created : create_cost_sheet org payload ctx s ≡ ok s') where
  -- The new sheet, with its request where it waits.
  pub created-tables :
      (c : Calculated) × (s'.pricing.sheets ≡ new_sheet org payload ctx c ∷ s.pricing.sheets)
      × (((s'.pricing.discounts ≡ s.pricing.discounts) × (c.status ≡ CostSheetStatus.approved))
          ⊎ ((l : DiscountApprovalLevel) × (limit : ℕ) × (s'.pricing.discounts
                ≡ new_discount org payload ctx c l limit ∷ s.pricing.discounts)
              × (c.status ≡ CostSheetStatus.pending_approval)))
  created-tables =
      let (c, s1, calculated, requested, same) =
        create_cost_sheet-inv org payload ctx s s' created in
      let (sheets, discounts) =
        request_discount-inv c.status c.level org payload ctx c
          (store_sheet org (new_sheet org payload ctx c) c.items s) s1 requested in
      (
        c,
        ap (λ (p : Pricing). p.sheets) same ∙ sheets,
        elim discounts [
          | inl (unchanged, settled) ↦ inl (
            ap (λ (p : Pricing). p.discounts) same ∙ unchanged,
            elim (calculate_cost_sheet-approval org payload ctx s c calculated) [
              | inl (approved, none_needed, small) ↦ approved
              | inr (l, pending, level, large, above, inside, covered, reason) ↦
                  absurd (settled pending)
            ],
          )
          | inr (l, level, added, pending) ↦
              inr (l, _, ap (λ (p : Pricing). p.discounts) same ∙ added, pending)
        ],
      )

  create-view : (o k : ℕ) → Move ctx.actor_user_id (view s o k) (view s' o k)
  create-view o k =
      let (c, sheets, added) = created-tables in
      elim (Bool-cases (is_key o k (new_sheet org payload ctx c))) [
        | inl mine ↦
            let before : find o k s.pricing.sheets ≡ none = ground arith in
            let here : find o k s'.pricing.sheets ≡ some (new_sheet org payload ctx c) =
              rw (sheets, mine) refl in
            elim added [
              | inl (unchanged, approved) ↦ rw (before, here, approved) Move.price
              | inr (l, limit, requested, pending) ↦ rw (before, here, pending) Move.ask
            ]
        | inr other ↦
            let same : find o k s'.pricing.sheets ≡ find o k s.pricing.sheets =
              rw (sheets, other) refl in
            Move.stay (ap stage_of (sym same))
      ]

  create-IsRequested :
      find org (ctx.new_id 1) s.pricing.discounts ≡ none → IsRequested s → IsRequested s'
  create-IsRequested new_request linked =
      let (c, sheets, added) = created-tables in
      let sheet = new_sheet org payload ctx c in
      let grown = ∷-IsLinked sheet s.pricing.sheets s.pricing.discounts linked fresh in
      elim added [
        | inl (unchanged, approved) ↦ rw (sheets, unchanged) grown
        | inr (l, limit, requested, pending) ↦
            rw (sheets, requested)
              (
                absent-first s.pricing.sheets s.pricing.discounts org (ctx.new_id 0) linked fresh,
                new_request,
                (sheet, ground arith, refl, inr pending),
                grown,
              )
      ]

decided-Move :
    (approved : Bool) (actor creator : ℕ) (status : CostSheetStatus)
    → status ≡ CostSheetStatus.pending_approval
    → creator ≢ actor
    → Move actor
        (stage_by status creator)
        (stage_by (if approved then CostSheetStatus.approved else CostSheetStatus.rejected) creator)
decided-Move true actor creator status waits other = rw waits (Move.clear other)
decided-Move false actor creator status waits other = rw waits (Move.refuse other)

module _ (org sheet_id : ℕ) (approved : Bool) (notes : Option String) (ctx : Context) (s s' : Store)
    (linked : IsRequested s)
    (decided : decide_discount org sheet_id approved notes ctx s ≡ ok s') where
  decide-view : (o k : ℕ) → Move ctx.actor_user_id (view s o k) (view s' o k)
  decide-view o k =
      let (sheet, a, at, at_a, pending, other_user, eligible, sheets, discounts) =
        decide_discount-inv org sheet_id approved notes ctx s s' decided in
      let (same_org, same_id) = find-key org sheet_id s.pricing.sheets sheet at in
      let ((owner, at_owner, asked, wait), org_a, sheet_a) =
        first-IsLinkedRow s.pricing.sheets s.pricing.discounts org sheet.id a linked at_a in
      let same : owner ≡ sheet = ground arith in
      let waits : sheet.status ≡ CostSheetStatus.pending_approval = ground arith in
      let other : sheet.created_by_user_id ≢ ctx.actor_user_id = ground arith in
      rw sheets (
        put-view ctx.actor_user_id sheet (decided_sheet approved sheet) s.pricing.sheets o k
          (ground arith)
          (decided-Move approved ctx.actor_user_id sheet.created_by_user_id sheet.status waits
            other))

  decide-IsRequested : IsRequested s'
  decide-IsRequested =
      let (sheet, a, at, at_a, pending, other_user, eligible, sheets, discounts) =
        decide_discount-inv org sheet_id approved notes ctx s s' decided in
      let (same_org, same_id) = find-key org sheet_id s.pricing.sheets sheet at in
      rw (sheets, discounts)
        (decided-IsLinked sheet (decided_sheet approved sheet) a
          (decided_discount approved notes sheet ctx a) s.pricing.sheets s.pricing.discounts linked
          (ground arith) refl (rw same_org at_a) refl refl refl refl (ground arith))

-- A sheet that becomes a quotation was cleared.
module _ (org sheet_id : ℕ) (sheet : CostSheet) (s s' : Store) (linked : IsRequested s)
    (at : find org sheet_id s.pricing.sheets ≡ some sheet)
    (approved : sheet.status ≡ CostSheetStatus.approved)
    (sheets : s'.pricing.sheets ≡ put (converted sheet) s.pricing.sheets)
    (discounts : s'.pricing.discounts ≡ s.pricing.discounts) where
  quote-view : (actor o k : ℕ) → Move actor (view s o k) (view s' o k)
  quote-view actor o k =
      let (same_org, same_id) = find-key org sheet_id s.pricing.sheets sheet at in
      rw sheets (
        put-view actor sheet (converted sheet) s.pricing.sheets o k (ground arith)
          (rw approved Move.quote))

  quote-IsRequested : IsRequested s'
  quote-IsRequested =
      let (same_org, same_id) = find-key org sheet_id s.pricing.sheets sheet at in
      rw (sheets, discounts)
        (put-IsLinked sheet (converted sheet) s.pricing.sheets s.pricing.discounts linked
          (ground arith) refl (ground arith))

-- Where each request for an approval of a discount is of the user who made its sheet, no sheet
-- has two, and a pending one has a sheet that waits, an accepted request of a user is, for every
-- cost sheet, a move of the abstract life by that user, and the requests are still so.
pub request_refines :
    {s s' : Store} (actor : ℕ)
    → IsRequested s
    → Request s actor s'
    → IsRequested s' × ((o k : ℕ) → Move actor (view s o k) (view s' o k))
request_refines {s} {s'} actor linked (create org payload ctx mine fresh new_request done) = (
  create-IsRequested org payload ctx s s' fresh done new_request linked,
  λ o k. rw (← mine) (create-view org payload ctx s s' fresh done o k),
)
request_refines {s} {s'} actor linked (decide org sheet_id approved notes ctx mine done) = (
  decide-IsRequested org sheet_id approved notes ctx s s' linked done,
  λ o k. rw (← mine) (decide-view org sheet_id approved notes ctx s s' linked done o k),
)
request_refines {s} {s'} actor linked (issue org payload ctx mine done) =
    let (sheet, at, approved, sheets, discounts) =
      create_quotation-sheets org payload ctx s s' done in
    (
      quote-IsRequested org payload.cost_sheet_id sheet s s' linked at approved sheets discounts,
      quote-view org payload.cost_sheet_id sheet s s' linked at approved sheets discounts actor,
    )
request_refines {s} {s'} actor linked (revise org quotation_id payload ctx mine done) =
    let (sheet, at, approved, sheets, discounts) =
      create_quotation_version-sheets org quotation_id payload ctx s s' done in
    (
      quote-IsRequested org payload.cost_sheet_id sheet s s' linked at approved sheets discounts,
      quote-view org payload.cost_sheet_id sheet s s' linked at approved sheets discounts actor,
    )
request_refines {s} {s'} actor linked (change org quotation_id target ctx mine done) =
    let same = change_quotation_status-pricing org quotation_id target ctx s s' done in
    (
      rw same linked,
      λ o k. Move.stay (ap (λ (p : Pricing). stage_of (find o k p.sheets)) (sym same)),
    )
