-- ===== src/Workflow/Payout.antt =====
-- A payout that was approved before a booking of it was cancelled: `complete_cancellation` of
-- backend/app/services/post_sales.py and `process_payout` of backend/app/services/partners.py.
use real_estate_crm.Base.{ℕ, ◌≡◌, refl, ap, ◌∙◌, String, true, some, List, [], ◌∷◌, arith}
use real_estate_crm.Base.Result.{ok}
use real_estate_crm.Base.Table.{find, update_all}
use real_estate_crm.Base.Table.Laws.{find-key, find-update_all}
use real_estate_crm.Models.Enums.{CommissionStatus, PaymentStatus}
use real_estate_crm.Models.Rows.{ChannelPartner}
use real_estate_crm.Models.Money.{Commission, CommissionPayout}
use real_estate_crm.Models.PostSales.{Cancellation, cancellation_row}
use real_estate_crm.Models.Store.{
  Store, Context, partner_row, commission_row, payout_row, booking_row,
}
use real_estate_crm.Partners.Payouts.{
  process_payout, payout_total, is_in_payout, store_paid, pay_commission,
}
use real_estate_crm.PostSales.Complete.{complete_cancellation, is_commission_of, reverse_commission}
use real_estate_crm.PostSales.Sound.{complete_cancellation-inv}

process_payout-succeeds :
    (org partner_id payout_id : ℕ) (reference : String) (ctx : Context) (s : Store)
    (partner : ChannelPartner) (p : CommissionPayout)
    → find org partner_id s.partners ≡ some partner
    → find org payout_id s.payouts ≡ some p
    → p.channel_partner_id ≡ partner.id
    → p.status ≡ PaymentStatus.processing
    → payout_total org p.id s.commissions ≡ p.amount
    → process_payout org partner_id payout_id reference ctx s
      ≡ ok (store_paid org p reference ctx s)
unfolding process_payout
process_payout-succeeds org partner_id payout_id reference ctx s partner p at_partner at_p own
      open_p total =
    ground arith

reversed-total :
    (org payout_id booking_id : ℕ) (ms : List Commission)
    → payout_total org payout_id
        (update_all (is_commission_of org booking_id) reverse_commission ms)
      ≡ payout_total org payout_id ms
unfolding payout_total
reversed-total org payout_id booking_id [] = refl
reversed-total org payout_id booking_id (m ∷ ms) =
    ground (arith, reversed-total org payout_id booking_id ms)

-- Where a booking is cancelled after a payout of its commission was approved, the commission is
-- reversed; but while the amounts of the commissions of the payout still add up to it, the payout
-- is processed without an error, and the reversed commission is paid.
pub process_payout-reversed :
    (org cancellation_id partner_id payout_id commission_id : ℕ) (reference : String)
    (ctx ctx' : Context) (s s1 : Store) (c : Cancellation) (partner : ChannelPartner)
    (p : CommissionPayout) (m : Commission)
    → complete_cancellation org cancellation_id ctx s ≡ ok s1
    → find org cancellation_id s.post_sales.cancellations ≡ some c
    → find org partner_id s.partners ≡ some partner
    → find org payout_id s.payouts ≡ some p
    → p.channel_partner_id ≡ partner.id
    → p.status ≡ PaymentStatus.processing
    → payout_total org p.id s.commissions ≡ p.amount
    → find org commission_id s.commissions ≡ some m
    → is_in_payout org p.id m ≡ true
    → m.booking_id ≡ c.booking_id
    → (s2 : Store) × (m1 : Commission) × (m2 : Commission) × (find org commission_id s1.commissions
        ≡ some m1)
      × (m1.status ≡ CommissionStatus.reversed)
      × (process_payout org partner_id payout_id reference ctx' s1 ≡ ok s2)
      × (find org commission_id s2.commissions ≡ some m2)
      × (m2.status ≡ CommissionStatus.paid)
process_payout-reversed org cancellation_id partner_id payout_id commission_id reference ctx ctx' s
      s1 c partner p m completed at_c at_partner at_p own open_p total at_m inside of_booking =
    let (d, b, u, at_d, at_b, at_u, approved, confirmed, key, taken, paid, stored) =
      complete_cancellation-inv org cancellation_id ctx s s1 completed in
    let (org_b, id_b) = find-key org d.booking_id s.bookings b at_b in
    let (org_m, id_m) = find-key org commission_id s.commissions m at_m in
    let mine : is_commission_of org b.id m ≡ true = ground arith in
    let commissions1 : s1.commissions
        ≡ update_all (is_commission_of org b.id) reverse_commission s.commissions =
      ap (λ (t : Store). t.commissions) stored in
    let m1 = reverse_commission m in
    let at_m1 : find org commission_id s1.commissions ≡ some m1 = rw commissions1 (
      find-update_all (is_commission_of org b.id) reverse_commission org commission_id s.commissions
        m (λ y. (refl, refl)) at_m
      ∙ rw mine refl) in
    let total1 : payout_total org p.id s1.commissions ≡ p.amount =
      ap (payout_total org p.id) commissions1
      ∙ reversed-total org p.id b.id s.commissions
      ∙ total in
    (
      store_paid org p reference ctx' s1,
      m1,
      pay_commission m1,
      at_m1,
      refl,
      process_payout-succeeds org partner_id payout_id reference ctx' s1 partner p
          (ap (λ (t : Store). find org partner_id t.partners) stored ∙ at_partner)
          (ap (λ (t : Store). find org payout_id t.payouts) stored ∙ at_p) own open_p total1,
      find-update_all (is_in_payout org p.id) pay_commission org commission_id s1.commissions m1
            (λ y. (refl, refl)) at_m1
          ∙ rw inside refl,
      refl,
    )
