-- ===== src/Quotations/Requests.antt =====
-- The requests for an approval of a discount: each belongs to the sheet of the user who asked, no
-- sheet has two, and a pending one has a sheet that waits.
use real_estate_crm.Base.{
  ℕ, ◌≡◌, ◌≢◌, refl, ◌⊎◌, inl, inr, true, false, none, some, subst, List, [], ◌∷◌, arith,
  Bool-cases,
}
use real_estate_crm.Base.Table.{first, find, put, is_key}
use real_estate_crm.Base.Table.Laws.{find-put, first-test}
use real_estate_crm.Models.Enums.{CostSheetStatus, is_pending}
use real_estate_crm.Models.Pricing.{CostSheet, DiscountApproval, sheet_row, discount_row}
use real_estate_crm.Quotations.Discounts.{is_discount_of}

abbrev pub IsLinkedRow : List CostSheet → DiscountApproval → Type 0
IsLinkedRow sheets a =
    (sheet : CostSheet) × (find a.organization_id a.cost_sheet_id sheets ≡ some sheet)
    × (sheet.created_by_user_id ≡ a.requested_by_user_id)
    × ((is_pending a.status ≡ false) ⊎ (sheet.status ≡ CostSheetStatus.pending_approval))

abbrev pub IsLinked : List CostSheet → List DiscountApproval → Type 0
IsLinked sheets [] = Unit
IsLinked sheets (a ∷ rs) =
    (first (is_discount_of a.organization_id a.cost_sheet_id) rs ≡ none)
    × (find a.organization_id a.id rs ≡ none)
    × IsLinkedRow sheets a
    × IsLinked sheets rs

pub absent-first :
    (sheets : List CostSheet) (rs : List DiscountApproval) (o k : ℕ)
    → IsLinked sheets rs
    → find o k sheets ≡ none
    → first (is_discount_of o k) rs ≡ none
absent-first sheets [] o k linked absent = refl
absent-first sheets (a ∷ rs) o k (single, keyed, (sheet, at, same, wait), rest) absent =
    ground (arith, absent-first sheets rs o k rest absent)

-- The request of a sheet is linked.
pub first-IsLinkedRow :
    (sheets : List CostSheet) (rs : List DiscountApproval) (o k : ℕ) (a : DiscountApproval)
    → IsLinked sheets rs
    → first (is_discount_of o k) rs ≡ some a
    → IsLinkedRow sheets a × (a.organization_id ≡ o) × (a.cost_sheet_id ≡ k)
first-IsLinkedRow sheets [] o k a linked at = absurd (ground arith)
first-IsLinkedRow sheets (b ∷ rs) o k a (single, keyed, row, rest) at =
    elim (Bool-cases (is_discount_of o k b)) [
      | inl here ↦ let same : b ≡ a = ground arith in rw (← same) (row, ground arith, ground arith)
      | inr there ↦ first-IsLinkedRow sheets rs o k a rest (ground arith)
    ]

pub ∷-IsLinked :
    (sheet : CostSheet) (sheets : List CostSheet) (rs : List DiscountApproval)
    → IsLinked sheets rs
    → find sheet.organization_id sheet.id sheets ≡ none
    → IsLinked (sheet ∷ sheets) rs
∷-IsLinked sheet sheets [] linked absent = tt
∷-IsLinked sheet sheets (a ∷ rs) (single, keyed, (old, at, same, wait), rest) absent =
    (single, keyed, (old, ground arith, same, wait), ∷-IsLinked sheet sheets rs rest absent)

-- A sheet that does not wait may change its status.
pub put-IsLinked :
    (sheet sheet' : CostSheet) (sheets : List CostSheet) (rs : List DiscountApproval)
    → IsLinked sheets rs
    → find sheet'.organization_id sheet'.id sheets ≡ some sheet
    → sheet'.created_by_user_id ≡ sheet.created_by_user_id
    → sheet.status ≢ CostSheetStatus.pending_approval
    → IsLinked (put sheet' sheets) rs
put-IsLinked sheet sheet' sheets [] linked at same_user settled = tt
put-IsLinked sheet sheet' sheets (a ∷ rs) (single, keyed, (old, at_old, same, wait), rest) at
      same_user settled =
    let after = find-put a.organization_id a.cost_sheet_id sheet' sheets sheet at in
    (
      single,
      keyed,
      elim (Bool-cases (is_key a.organization_id a.cost_sheet_id sheet')) [
        | inl mine ↦ (sheet', ground arith, ground arith, ground arith)
        | inr other ↦ (old, ground arith, same, wait)
      ],
      put-IsLinked sheet sheet' sheets rs rest at same_user settled,
    )

-- Without a request of the sheet, any status of the sheet is linked.
put-untouched :
    (sheet sheet' : CostSheet) (sheets : List CostSheet) (rs : List DiscountApproval)
    → IsLinked sheets rs
    → find sheet'.organization_id sheet'.id sheets ≡ some sheet
    → first (is_discount_of sheet'.organization_id sheet'.id) rs ≡ none
    → IsLinked (put sheet' sheets) rs
put-untouched sheet sheet' sheets [] linked at none_here = tt
put-untouched sheet sheet' sheets (a ∷ rs) (single, keyed, (old, at_old, same, wait), rest) at
      none_here =
    let after = find-put a.organization_id a.cost_sheet_id sheet' sheets sheet at in
    (
      single,
      keyed,
      (old, ground arith, same, wait),
      put-untouched sheet sheet' sheets rs rest at (ground arith),
    )

first-put :
    (o k : ℕ) (a a' : DiscountApproval) (rs : List DiscountApproval)
    → first (is_discount_of o k) rs ≡ none
    → is_discount_of o k a' ≡ false
    → first (is_discount_of o k) (put a' rs) ≡ none
first-put o k a a' [] absent other = refl
first-put o k a a' (b ∷ rs) absent other = ground (arith, first-put o k a a' rs)

-- The row that a query finds has a key that is found.
first-find :
    (o k : ℕ) (a : DiscountApproval) (rs : List DiscountApproval)
    → first (is_discount_of o k) rs ≡ some a
    → find a.organization_id a.id rs ≢ none
first-find o k a [] at = absurd (ground arith)
first-find o k a (b ∷ rs) at = ground (arith, first-find o k a rs)

first-is_discount_of :
    (o k : ℕ) (a : DiscountApproval) (rs : List DiscountApproval)
    → first (is_discount_of o k) rs ≡ some a
    → (a.organization_id ≡ o) × (a.cost_sheet_id ≡ k)
first-is_discount_of o k a rs at = ground (arith, first-test (is_discount_of o k) rs a at)

find-put-other :
    (o k : ℕ) (a' : DiscountApproval) (rs : List DiscountApproval)
    → find o k rs ≡ none
    → is_key o k a' ≡ false
    → find o k (put a' rs) ≡ none
find-put-other o k a' [] absent other = refl
find-put-other o k a' (b ∷ rs) absent other = ground (arith, find-put-other o k a' rs)

-- A decision settles the request and its sheet at once.
pub decided-IsLinked :
    (sheet sheet' : CostSheet) (a a' : DiscountApproval) (sheets : List CostSheet)
    (rs : List DiscountApproval)
    → IsLinked sheets rs
    → find sheet'.organization_id sheet'.id sheets ≡ some sheet
    → sheet'.created_by_user_id ≡ sheet.created_by_user_id
    → first (is_discount_of sheet'.organization_id sheet'.id) rs ≡ some a
    → a'.organization_id ≡ a.organization_id
    → a'.id ≡ a.id
    → a'.cost_sheet_id ≡ a.cost_sheet_id
    → a'.requested_by_user_id ≡ a.requested_by_user_id
    → is_pending a'.status ≡ false
    → IsLinked (put sheet' sheets) (put a' rs)
decided-IsLinked sheet sheet' a a' sheets [] linked at same_user at_a e1 e2 e3 e4 settled =
    absurd (ground arith)
decided-IsLinked sheet sheet' a a' sheets (b ∷ rs) (single, keyed, (old, at_old, same, wait), rest)
      at same_user at_a e1 e2 e3 e4 settled =
    let k = sheet'.id in
    let o = sheet'.organization_id in
    let after = find-put b.organization_id b.cost_sheet_id sheet' sheets sheet at in
    elim (Bool-cases (is_discount_of o k b)) [
      | inl here ↦
          let found : b ≡ a = ground arith in
          let org_b : b.organization_id ≡ o = ground arith in
          let id_b : b.cost_sheet_id ≡ k = ground arith in
          let mine : is_key a'.organization_id a'.id b ≡ true = ground arith in
          rw (mine, put)
            (
              ground arith,
              ground arith,
              (
                sheet',
                ground (arith, find-put a'.organization_id a'.cost_sheet_id sheet' sheets sheet at),
                ground arith,
                inl settled,
              ),
              put-untouched sheet sheet' sheets rs rest at (
                  subst (λ n. first (is_discount_of n k) rs ≡ none) org_b
                    (subst (λ n. first (is_discount_of b.organization_id n) rs ≡ none) id_b
                      single)),
            )
      | inr there ↦
          let later : first (is_discount_of o k) rs ≡ some a = ground arith in
          let present = first-find o k a rs later in
          let (test_o, test_k) = first-is_discount_of o k a rs later in
          let other : is_key a'.organization_id a'.id b ≡ false = ground arith in
          rw (other, put)
            (
              first-put b.organization_id b.cost_sheet_id a a' rs single (ground arith),
              find-put-other b.organization_id b.id a' rs keyed (ground arith),
              (old, ground arith, same, wait),
              decided-IsLinked sheet sheet' a a' sheets rs rest at same_user later e1 e2 e3 e4
                  settled,
            )
    ]
