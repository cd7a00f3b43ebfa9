-- ===== src/Partners/Paid.antt =====
-- What a payout takes up: `request_payout` of backend/app/services/partners.py.
use real_estate_crm.Base.{
  ℕ, ◌≡◌, ◌≢◌, refl, ◌∙◌, not, ◌||◌, none, some, List, [], ◌∷◌, ◌==◌, is_some, arith,
}
use real_estate_crm.Base.Result.{ok, or_raise, >>=-eq-ok, passed}
use real_estate_crm.Base.Result.Codes.{
  partner_inactive, commission_not_payable, payout_currency_mismatch, payout_conflict,
}
use real_estate_crm.Base.Table.{first, select, find, sum_of, count_of, update_all, entity}
use real_estate_crm.Models.Enums.{PaymentStatus, is_active_partner}
use real_estate_crm.Models.Rows.{ChannelPartner}
use real_estate_crm.Models.Money.{Commission, CommissionPayout}
use real_estate_crm.Models.Store.{Store, Context, partner_row, payout_row}
use real_estate_crm.Finance.Allocation.Loop.{distinct}
use real_estate_crm.Partners.Payouts.{
  PayoutCreate, request_payout, is_chosen, is_unpayable, is_in_payout, take_commission,
  payout_total, new_payout, store_payout, currency_of, has_payout_number,
}

module _ (org partner_id n : ℕ) (ids : List ℕ) where
  taken-totals :
      (xs : List Commission)
      → first is_unpayable (select (is_chosen org partner_id ids) xs) ≡ none
      → first (is_in_payout org n) xs ≡ none
      → sum_of
          (is_in_payout org n)
          (λ m. m.amount)
          (update_all (is_chosen org partner_id ids) (take_commission n) xs)
        ≡ sum_of (is_chosen org partner_id ids) (λ m. m.amount) xs
  taken-totals [] free fresh = refl
  taken-totals (x ∷ xs) free fresh = ground (arith, taken-totals xs)

  taken-counts :
      (xs : List Commission)
      → first is_unpayable (select (is_chosen org partner_id ids) xs) ≡ none
      → first (is_in_payout org n) xs ≡ none
      → count_of
          (is_in_payout org n)
          (update_all (is_chosen org partner_id ids) (take_commission n) xs)
        ≡ count_of (is_chosen org partner_id ids) xs
  taken-counts [] free fresh = refl
  taken-counts (x ∷ xs) free fresh = ground (arith, taken-counts xs)

  untaken-totals :
      (k : ℕ) (xs : List Commission)
      → k ≢ n
      → first is_unpayable (select (is_chosen org partner_id ids) xs) ≡ none
      → sum_of
          (is_in_payout org k)
          (λ m. m.amount)
          (update_all (is_chosen org partner_id ids) (take_commission n) xs)
        ≡ sum_of (is_in_payout org k) (λ m. m.amount) xs
  untaken-totals k [] apart free = refl
  untaken-totals k (x ∷ xs) apart free = ground (arith, untaken-totals k xs apart)

request_payout-inv :
    (org partner_id : ℕ) (payload : PayoutCreate) (ctx : Context) (s s' : Store)
    → request_payout org partner_id payload ctx s ≡ ok s'
    → (b : ChannelPartner) × (currency : ℕ) × (first is_unpayable
          (select (is_chosen org b.id payload.commission_ids) s.commissions)
        ≡ none)
      × (count_of (is_chosen org b.id payload.commission_ids) s.commissions
          ≡ distinct payload.commission_ids)
      × (s'
          ≡ store_payout org b.id payload.commission_ids
              (new_payout org b.id payload
                (sum_of (is_chosen org b.id payload.commission_ids) (λ m. m.amount) s.commissions)
                currency
                ctx)
              ctx
              s)
unfolding request_payout
request_payout-inv org partner_id payload ctx s s' h =
    let ids = payload.commission_ids in
    let (b, at, h1) = >>=-eq-ok (entity org partner_id s.partners) _ h in
    let chosen = is_chosen org b.id ids in
    let (active, h2) = passed (not (is_active_partner b.status)) 409 partner_inactive _ h1 in
    let (payable, h3) =
      passed
        (not (count_of chosen s.commissions == distinct ids)
          || is_some (first is_unpayable (select chosen s.commissions)))
        409 commission_not_payable _ h2 in
    let (currency, one, h4) =
      >>=-eq-ok (or_raise (currency_of (select chosen s.commissions)) 409 payout_currency_mismatch)
        _ h3 in
    let (unused, h5) =
      passed (is_some (first (has_payout_number org payload.payout_number) s.payouts)) 409
        payout_conflict _ h4 in
    (b, currency, ground arith, ground arith, ground arith)

-- A payout that is requested, under an identifier that no commission refers to, waits for its
-- decision, its amount is the total of the commissions that belong to it, these are as many as
-- the request names different ones, and it takes no commission of another payout.
pub request_payout-covers :
    (org partner_id other : ℕ) (payload : PayoutCreate) (ctx : Context) (s s' : Store)
    → request_payout org partner_id payload ctx s ≡ ok s'
    → first (is_in_payout org (ctx.new_id 0)) s.commissions ≡ none
    → other ≢ ctx.new_id 0
    → (p : CommissionPayout) × (find org (ctx.new_id 0) s'.payouts ≡ some p)
      × (p.status ≡ PaymentStatus.pending)
      × (payout_total org (ctx.new_id 0) s'.commissions ≡ p.amount)
      × (count_of (is_in_payout org (ctx.new_id 0)) s'.commissions
          ≡ distinct payload.commission_ids)
      × (payout_total org other s'.commissions ≡ payout_total org other s.commissions)
unfolding payout_total
request_payout-covers org partner_id other payload ctx s s' h fresh apart =
    let (b, currency, free, counted, stored) =
      request_payout-inv org partner_id payload ctx s s' h in
    let ids = payload.commission_ids in
    let n = ctx.new_id 0 in
    (
      new_payout org b.id payload (sum_of (is_chosen org b.id ids) (λ m. m.amount) s.commissions)
          currency ctx,
      rw stored (ground arith),
      refl,
      rw stored (taken-totals org b.id n ids s.commissions free fresh),
      rw stored (taken-counts org b.id n ids s.commissions free fresh ∙ counted),
      rw stored (untaken-totals org b.id n ids other s.commissions apart free),
    )
