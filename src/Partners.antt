-- ===== src/Partners.antt =====
-- The commission of a channel partner: `accrue_booking_commission` of
-- backend/app/services/partners.py. `Payouts` has what follows it there.
pub mod Bounds
pub mod Payouts
pub mod Paid
use real_estate_crm.Base.{
  ℕ, ◌+◌, ◌*◌, Bool, true, false, not, ◌&&◌, ◌||◌, Option, none, some, List, [], ◌∷◌, ltb, leb,
  ◌==◌, if◌then◌else◌, is_some, is_id,
}
use real_estate_crm.Base.Result.{Result, ok, err, ◌>>=◌, or_raise}
use real_estate_crm.Base.Result.Codes.{commission_structure_missing}
use real_estate_crm.Base.Money.{round_div}
use real_estate_crm.Base.Table.{select, first_by, entity}
use real_estate_crm.Models.Enums.{CommissionStatus}
use real_estate_crm.Models.Rows.{Booking}
use real_estate_crm.Models.Money.{CommissionStructure, Commission}
use real_estate_crm.Models.Store.{Store, Context, audit, unit_row}

-- `effective_until is None or effective_until >= today`
abbrev is_open_until : Option ℕ → ℕ → Bool
is_open_until none day = true
is_open_until (some d) day = leb day d

-- `project_id == unit.project_id or project_id is None`
abbrev is_for_project : Option ℕ → ℕ → Bool
is_for_project none project_id = true
is_for_project (some p) project_id = p == project_id

pub is_applicable : ℕ → ℕ → ℕ → ℕ → CommissionStructure → Bool
is_applicable org partner_id project_id today c =
    (c.organization_id == org)
    && (c.channel_partner_id == partner_id)
    && c.is_active
    && leb c.effective_from today
    && is_open_until c.effective_until today
    && is_for_project c.project_id project_id

-- The order `project_id IS NULL, effective_from DESC`.
pub goes_before : CommissionStructure → CommissionStructure → Bool
goes_before c d =
    if is_some c.project_id
    then not (is_some d.project_id) || ltb d.effective_from c.effective_from
    else not (is_some d.project_id) && ltb d.effective_from c.effective_from

-- A rate counts ten thousandths of a percent, so a price times a rate counts millionths.
unfoldable pub commission_amount : ℕ → ℕ → ℕ
unfolding round_div
commission_amount price rate = round_div (price * rate) 1_000_000

abbrev pub new_commission : ℕ → ℕ → ℕ → Booking → CommissionStructure → Context → Commission
new_commission org partner_id price b structure ctx = record {
  organization_id = org;
  id = ctx.new_id 0;
  channel_partner_id = partner_id;
  booking_id = b.id;
  commission_structure_id = some structure.id;
  commission_payout_id = none;
  approved_by_user_id = none;
  status = CommissionStatus.eligible;
  rate = structure.rate;
  amount = commission_amount price structure.rate;
  currency = b.currency;
}

abbrev accrue_for : ℕ → Booking → Option ℕ → Option ℕ → Context → Store → Result Store
accrue_for org b (some partner_id) (some price) ctx s = do
  unit ← entity org b.unit_id s.units
  structure ←
      or_raise
        (first_by goes_before
          (select (is_applicable org partner_id unit.project_id ctx.today) s.structures))
        409 commission_structure_missing
  let item = new_commission org partner_id price b structure ctx
  let s1 =
      audit org (some ctx.actor_user_id) ctx.now "partner.commission.accrued" "commission" item.id s
  ok (record s1 { commissions = item ∷ s.commissions })
accrue_for org b _ _ ctx s = ok s

unfoldable pub accrue_booking_commission : ℕ → Booking → Context → Store → Result Store
unfolding is_applicable goes_before
accrue_booking_commission org b ctx s = accrue_for org b b.channel_partner_id b.agreed_price ctx s
