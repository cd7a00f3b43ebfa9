-- ===== src/Quotations/Latest.antt =====
-- What a revision does to the versions of a quotation.
use real_estate_crm.Base.{ℕ, ◌+◌, ◌≡◌, refl, Bool, true, false, ◌&&◌, some, List, [], ◌∷◌, arith}
use real_estate_crm.Base.Result.{ok}
use real_estate_crm.Base.Table.{find, count_of}
use real_estate_crm.Models.Enums.{QuotationStatus, is_accepted}
use real_estate_crm.Models.Rows.{InventoryUnit, Quotation}
use real_estate_crm.Models.Pricing.{CostSheet, sheet_row}
use real_estate_crm.Models.Store.{Store, Context, quotation_row, unit_row}
use real_estate_crm.Quotations.Versions.{
  QuotationCreate, create_quotation_version, create_quotation_record, new_quotation, supersede,
  is_version_of, latest_version, next_edition,
}

-- A version that a customer may still be sent or accept, or that only ran out.
abbrev pub is_live : QuotationStatus → Bool
is_live QuotationStatus.draft = true
is_live QuotationStatus.sent = true
is_live QuotationStatus.expired = true
is_live _ = false

abbrev pub live_versions : ℕ → ℕ → List Quotation → ℕ
live_versions org number = count_of (λ q. is_version_of org number q && is_live q.status)

abbrev pub accepted_versions : ℕ → ℕ → List Quotation → ℕ
accepted_versions org number = count_of (λ q. is_version_of org number q && is_accepted q.status)

live_versions-supersede :
    (org number : ℕ) (qs : List Quotation) → live_versions org number (supersede org number qs) ≡ 0
live_versions-supersede org number [] = refl
live_versions-supersede org number (q ∷ qs) = ground (arith, live_versions-supersede org number qs)

accepted_versions-supersede :
    (org number : ℕ) (qs : List Quotation)
    → accepted_versions org number (supersede org number qs) ≡ accepted_versions org number qs
accepted_versions-supersede org number [] = refl
accepted_versions-supersede org number (q ∷ qs) =
    ground (arith, accepted_versions-supersede org number qs)

latest_version-supersede :
    (org number : ℕ) (qs : List Quotation)
    → latest_version org number (supersede org number qs) ≡ latest_version org number qs
unfolding latest_version
latest_version-supersede org number [] = refl
latest_version-supersede org number (q ∷ qs) =
    ground (arith, latest_version-supersede org number qs)

create_quotation_version-inv :
    (org quotation_id : ℕ) (payload : QuotationCreate) (ctx : Context) (s s' : Store)
    → create_quotation_version org quotation_id payload ctx s ≡ ok s'
    → (source : Quotation) × (sheet : CostSheet) × (unit : InventoryUnit) × (find org quotation_id
          s.quotations
        ≡ some source)
      × (find org payload.cost_sheet_id s.pricing.sheets ≡ some sheet)
      × (find org sheet.unit_id s.units ≡ some unit)
      × (is_accepted source.status ≡ false)
      × (s'.quotations
          ≡ new_quotation org sheet unit
              (next_edition org source s.quotations)
              payload.valid_until
              ctx
            ∷ supersede org source.quotation_number s.quotations)
unfolding create_quotation_version create_quotation_record
create_quotation_version-inv org quotation_id payload ctx s s' h = ground arith

-- A revision that succeeds leaves one live version of the number of its quotation, as a draft or
-- a sent or an expired one, and that version is the latest. It leaves as many accepted versions
-- as there were: it does not look for one beside the quotation that it revises.
pub create_quotation_version-latest :
    (org quotation_id : ℕ) (payload : QuotationCreate) (ctx : Context) (s s' : Store)
    → create_quotation_version org quotation_id payload ctx s ≡ ok s'
    → (q : Quotation) × (q' : Quotation) × (find org quotation_id s.quotations ≡ some q)
      × (find org (ctx.new_id 0) s'.quotations ≡ some q')
      × (q'.quotation_number ≡ q.quotation_number)
      × (q'.status ≡ QuotationStatus.draft)
      × (q'.version ≡ latest_version org q.quotation_number s.quotations + 1)
      × (latest_version org q.quotation_number s'.quotations ≡ q'.version)
      × (live_versions org q.quotation_number s'.quotations ≡ 1)
      × (accepted_versions org q.quotation_number s'.quotations
          ≡ accepted_versions org q.quotation_number s.quotations)
unfolding latest_version next_edition
create_quotation_version-latest org quotation_id payload ctx s s' h =
    let (q, sheet, unit, at, at_sheet, at_unit, open_source, stored) =
      create_quotation_version-inv org quotation_id payload ctx s s' h in
    let n = q.quotation_number in
    (
      q,
      new_quotation org sheet unit (next_edition org q s.quotations) payload.valid_until ctx,
      at,
      ground arith,
      refl,
      refl,
      refl,
      rw stored (ground (arith, latest_version-supersede org n s.quotations)),
      rw stored (ground (arith, live_versions-supersede org n s.quotations)),
      rw stored (ground (arith, accepted_versions-supersede org n s.quotations)),
    )
