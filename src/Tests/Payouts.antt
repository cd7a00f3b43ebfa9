-- ===== src/Tests/Payouts.antt =====
-- The payout of commissions at concrete requests.
use real_estate_crm.Base.{ℕ, ◌≡◌, ◌≢◌, refl, true, some, none, Option, List, [], ◌∷◌, arith}
use real_estate_crm.Base.Result.{ok}
use real_estate_crm.Base.Table.{find, count_of}
use real_estate_crm.Models.Enums.{CommissionStatus, PaymentStatus, PartnerStatus}
use real_estate_crm.Models.Rows.{ChannelPartner}
use real_estate_crm.Models.Money.{Commission, CommissionPayout}
use real_estate_crm.Models.Store.{Store, commission_row, payout_row}
use real_estate_crm.Partners.Payouts.{
  PayoutCreate, decide_commission, request_payout, process_payout, payout_total, is_in_payout,
}
use real_estate_crm.Partners.Paid.{request_payout-covers}
use real_estate_crm.PostSales.Complete.{complete_cancellation}
use real_estate_crm.Workflow.Payout.{process_payout-reversed}
use real_estate_crm.Tests.Sample.{after, sales, manager}
use real_estate_crm.Tests.PostSales.{sold, approved_cancellation}

abbrev broker : ChannelPartner
broker = record { organization_id = 1; id = 15; status = PartnerStatus.active }

abbrev commission_of : ℕ → ℕ → ℕ → CommissionStatus → Option ℕ → Commission
commission_of k booking_id amount status payout = record {
  organization_id = 1;
  id = k;
  channel_partner_id = 15;
  booking_id = booking_id;
  commission_structure_id = none;
  commission_payout_id = payout;
  approved_by_user_id = none;
  status = status;
  rate = 20_000;
  amount = amount;
  currency = 1;
}

abbrev earned : List Commission
earned =
    commission_of 95 40 250 CommissionStatus.eligible none
    ∷ commission_of 97 41 100 CommissionStatus.approved none
    ∷ []

abbrev owed : Store
owed = record (sold 300) { partners = broker ∷ []; commissions = earned }

abbrev payout_request : PayoutCreate
payout_request = record { payout_number = 1; commission_ids = 95 ∷ 97 ∷ []; notes = none }

abbrev approved_store : Store
approved_store = after owed (decide_commission 1 15 95 true manager owed)

abbrev claimed_store : Store
claimed_store = after approved_store (request_payout 1 15 payout_request sales approved_store)

claiming : request_payout 1 15 payout_request sales approved_store ≡ ok claimed_store
unfolding decide_commission request_payout
claiming = refl

fresh_payout : count_of (is_in_payout 1 100) approved_store.commissions ≡ 0
unfolding decide_commission
fresh_payout = refl

not_eligible : request_payout 1 15 payout_request sales owed ≢ ok owed
unfolding request_payout
not_eligible h = ground arith

request_payout-covers_example :
    (p : CommissionPayout) × (find 1 100 claimed_store.payouts ≡ some p)
    × (p.status ≡ PaymentStatus.pending)
    × (payout_total 1 100 claimed_store.commissions ≡ p.amount)
    × (count_of (is_in_payout 1 100) claimed_store.commissions ≡ 2)
    × (payout_total 1 96 claimed_store.commissions ≡ payout_total 1 96 approved_store.commissions)
unfolding decide_commission
request_payout-covers_example =
    request_payout-covers 1 15 96 payout_request sales approved_store claimed_store claiming refl
      (omega arith)

abbrev approved_payout : CommissionPayout
approved_payout = record {
  organization_id = 1;
  id = 96;
  channel_partner_id = 15;
  approved_by_user_id = some 3;
  requested_by_user_id = 2;
  payout_number = 1;
  status = PaymentStatus.processing;
  amount = 350;
  currency = 1;
  reference_number = none;
  notes = none;
  decision_notes = none;
  requested_at = 500;
  approved_at = some 550;
  rejected_at = none;
  paid_at = none;
}

abbrev first_commission : Commission
first_commission = commission_of 95 40 250 CommissionStatus.approved (some 96)

-- The booking 40 is cancelled after the payout of its commission was approved.
abbrev due : Store
due = record (sold 300) {
  partners = broker ∷ [];
  payouts = approved_payout ∷ [];
  commissions = first_commission ∷ commission_of 97 41 100 CommissionStatus.approved (some 96) ∷ [];
}

abbrev cancelled_store : Store
cancelled_store = after due (complete_cancellation 1 80 manager due)

cancelling : complete_cancellation 1 80 manager due ≡ ok cancelled_store
unfolding complete_cancellation
cancelling = refl

due_total : payout_total 1 96 due.commissions ≡ 350
unfolding payout_total
due_total = refl

process_payout-reversed_example :
    (s2 : Store) × (m1 : Commission) × (m2 : Commission) × (find 1 95 cancelled_store.commissions
      ≡ some m1)
    × (m1.status ≡ CommissionStatus.reversed)
    × (process_payout 1 15 96 "bank 7" manager cancelled_store ≡ ok s2)
    × (find 1 95 s2.commissions ≡ some m2)
    × (m2.status ≡ CommissionStatus.paid)
process_payout-reversed_example =
    process_payout-reversed 1 80 15 96 95 "bank 7" manager manager due cancelled_store
      (approved_cancellation 300) broker approved_payout first_commission cancelling refl refl refl
      refl refl due_total refl refl refl
