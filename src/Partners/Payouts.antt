-- ===== src/Partners/Payouts.antt =====
-- The payouts of commissions: `decide_commission`, `request_payout`, `decide_payout` and
-- `process_payout` of backend/app/services/partners.py.
use real_estate_crm.Base.{
  ℕ, String, Bool, true, false, not, ◌&&◌, ◌||◌, Option, none, some, List, [], ◌∷◌, ◌==◌, elem,
  is_id, is_some, if◌then◌else◌,
}
use real_estate_crm.Base.Result.{Result, ok, ◌>>=◌, ◌>>◌, raise_if, or_raise}
use real_estate_crm.Base.Result.Codes.{
  commission_not_approvable, partner_inactive, commission_not_payable, payout_currency_mismatch,
  payout_conflict, payout_finalized, self_approval_not_allowed, payout_not_approved,
  payout_amount_changed,
}
use real_estate_crm.Base.Table.{first, select, sum_of, count_of, update_all, put, entity}
use real_estate_crm.Models.Enums.{
  CommissionStatus, PaymentStatus, is_active_partner, is_pending_payment, is_processing,
}
use real_estate_crm.Models.Money.{Commission, CommissionPayout}
use real_estate_crm.Models.Store.{Store, Context, audit, partner_row, commission_row, payout_row}
use real_estate_crm.Finance.Allocation.Loop.{distinct}

abbrev pub is_eligible_commission : CommissionStatus → Bool
is_eligible_commission CommissionStatus.eligible = true
is_eligible_commission _ = false

abbrev pub is_approved_commission : CommissionStatus → Bool
is_approved_commission CommissionStatus.approved = true
is_approved_commission _ = false

abbrev pub decided_commission : Bool → Context → Commission → Commission
decided_commission approved ctx m = record m {
  status = if approved then CommissionStatus.approved else CommissionStatus.reversed;
  approved_by_user_id = if approved then some ctx.actor_user_id else none;
}

unfoldable pub decide_commission : ℕ → ℕ → ℕ → Bool → Context → Store → Result Store
decide_commission org partner_id commission_id approved ctx s = do
  partner ← entity org partner_id s.partners
  m ← entity org commission_id s.commissions
  raise_if
      (not (m.channel_partner_id == partner.id)
        || not (is_eligible_commission m.status)
        || is_some m.commission_payout_id)
      409 commission_not_approvable
  let s1 =
      audit org (some ctx.actor_user_id) ctx.now "partner.commission.decided" "commission" m.id s
  ok (record s1 { commissions = put (decided_commission approved ctx m) s.commissions })

pub record PayoutCreate : Type 0 where
  pub payout_number : ℕ
  pub commission_ids : List ℕ
  pub notes : Option String

abbrev pub is_chosen : ℕ → ℕ → List ℕ → Commission → Bool
is_chosen org partner_id ids m =
    (m.organization_id == org) && (m.channel_partner_id == partner_id) && elem m.id ids

abbrev pub is_unpayable : Commission → Bool
is_unpayable m = not (is_approved_commission m.status) || is_some m.commission_payout_id

-- The one currency of some commissions.
unfoldable pub currency_of : List Commission → Option ℕ
currency_of [] = none
currency_of (m ∷ ms) =
    if is_some (first (λ k. not (k.currency == m.currency)) ms) then none else some m.currency

abbrev pub has_payout_number : ℕ → ℕ → CommissionPayout → Bool
has_payout_number org number p = (p.organization_id == org) && (p.payout_number == number)

abbrev pub is_in_payout : ℕ → ℕ → Commission → Bool
is_in_payout org payout_id m = (m.organization_id == org) && is_id m.commission_payout_id payout_id

unfoldable pub payout_total : ℕ → ℕ → List Commission → ℕ
payout_total org payout_id = sum_of (is_in_payout org payout_id) (λ m. m.amount)

abbrev pub new_payout : ℕ → ℕ → PayoutCreate → ℕ → ℕ → Context → CommissionPayout
new_payout org partner_id payload amount currency ctx = record {
  organization_id = org;
  id = ctx.new_id 0;
  channel_partner_id = partner_id;
  approved_by_user_id = none;
  requested_by_user_id = ctx.actor_user_id;
  payout_number = payload.payout_number;
  status = PaymentStatus.pending;
  amount = amount;
  currency = currency;
  reference_number = none;
  notes = payload.notes;
  decision_notes = none;
  requested_at = ctx.now;
  approved_at = none;
  rejected_at = none;
  paid_at = none;
}

abbrev pub take_commission : ℕ → Commission → Commission
take_commission payout_id m = record m { commission_payout_id = some payout_id }

-- `ids` are the identifiers of the commissions.
abbrev pub store_payout : ℕ → ℕ → List ℕ → CommissionPayout → Context → Store → Store
store_payout org partner_id ids p ctx s =
    let s1 =
      audit org (some ctx.actor_user_id) ctx.now "partner.payout.requested" "commission_payout" p.id
        s in
    record s1 {
      payouts = p ∷ s.payouts;
      commissions = update_all (is_chosen org partner_id ids) (take_commission p.id) s.commissions;
    }

unfoldable pub request_payout : ℕ → ℕ → PayoutCreate → Context → Store → Result Store
unfolding currency_of
request_payout org partner_id payload ctx s = do
  partner ← entity org partner_id s.partners
  raise_if (not (is_active_partner partner.status)) 409 partner_inactive
  let ids = payload.commission_ids
  let chosen = select (is_chosen org partner.id ids) s.commissions
  raise_if
      (not (count_of (is_chosen org partner.id ids) s.commissions == distinct ids)
        || is_some (first is_unpayable chosen))
      409 commission_not_payable
  currency ← or_raise (currency_of chosen) 409 payout_currency_mismatch
  raise_if (is_some (first (has_payout_number org payload.payout_number) s.payouts)) 409
      payout_conflict
  let amount = sum_of (is_chosen org partner.id ids) (λ m. m.amount) s.commissions
  ok (store_payout org partner.id ids (new_payout org partner.id payload amount currency ctx) ctx s)

abbrev pub decided_payout : Bool → String → Context → CommissionPayout → CommissionPayout
decided_payout approved notes ctx p = record p {
  approved_by_user_id = some ctx.actor_user_id;
  decision_notes = some notes;
  status = if approved then PaymentStatus.processing else PaymentStatus.failed;
  approved_at = if approved then some ctx.now else p.approved_at;
  rejected_at = if approved then p.rejected_at else some ctx.now;
}

abbrev pub let_go : Commission → Commission
let_go m = record m { commission_payout_id = none }

unfoldable pub decide_payout : ℕ → ℕ → ℕ → Bool → String → Context → Store → Result Store
decide_payout org partner_id payout_id approved notes ctx s = do
  partner ← entity org partner_id s.partners
  p ← entity org payout_id s.payouts
  raise_if (not (p.channel_partner_id == partner.id) || not (is_pending_payment p.status)) 409
      payout_finalized
  raise_if (p.requested_by_user_id == ctx.actor_user_id) 403 self_approval_not_allowed
  let s1 =
      audit org (some ctx.actor_user_id) ctx.now "partner.payout.decided" "commission_payout" p.id s
  ok record s1 {
    payouts = put (decided_payout approved notes ctx p) s.payouts;
    commissions =
        if approved then s.commissions else update_all (is_in_payout org p.id) let_go s.commissions;
  }

abbrev pub processed_payout : String → Context → CommissionPayout → CommissionPayout
processed_payout reference ctx p = record p {
  status = PaymentStatus.completed;
  reference_number = some reference;
  paid_at = some ctx.now;
}

abbrev pub pay_commission : Commission → Commission
pay_commission m = record m { status = CommissionStatus.paid }

abbrev pub store_paid : ℕ → CommissionPayout → String → Context → Store → Store
store_paid org p reference ctx s =
    let s1 =
      audit org (some ctx.actor_user_id) ctx.now "partner.payout.processed" "commission_payout" p.id
        s in
    record s1 {
      payouts = put (processed_payout reference ctx p) s.payouts;
      commissions = update_all (is_in_payout org p.id) pay_commission s.commissions;
    }

unfoldable pub process_payout : ℕ → ℕ → ℕ → String → Context → Store → Result Store
unfolding payout_total
process_payout org partner_id payout_id reference ctx s = do
  partner ← entity org partner_id s.partners
  p ← entity org payout_id s.payouts
  raise_if (not (p.channel_partner_id == partner.id) || not (is_processing p.status)) 409
      payout_not_approved
  raise_if (not (payout_total org p.id s.commissions == p.amount)) 409 payout_amount_changed
  ok (store_paid org p reference ctx s)
