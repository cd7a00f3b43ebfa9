-- ===== src/Finance/RefundLimit.antt =====
-- The refunds of a payment never exceed it, and nobody decides on a refund of their own: laws of the
-- refunds of backend/app/services/finance.py.
use real_estate_crm.Base.{
  ℕ, ◌+◌, ◌≤◌, ◌≡◌, ◌⊎◌, inl, inr, String, Bool, true, false, none, some, List, ◌∷◌, is_id, arith,
}
use real_estate_crm.Base.Result.{ok}
use real_estate_crm.Base.Table.{first, find, put}
use real_estate_crm.Base.Table.Laws.{find-key, find-put, sum_of-put}
use real_estate_crm.Models.Enums.{PaymentStatus, is_committed, is_settled, is_processing}
use real_estate_crm.Models.Money.{Payment, Refund}
use real_estate_crm.Models.Store.{Store, Context, payment_row, refund_row}
use real_estate_crm.Finance.Accounts.{debits}
use real_estate_crm.Finance.Refunds.{
  RefundCreate, request_refund, new_refund, has_refund_key, refund_total, is_refund_of,
  decide_refund, decide, process_refund, Reversed, take_back, store_refund, processed,
}

-- The refunds of each payment that are open or completed are at most the payment.
abbrev pub IsCovered : Store → Type 0
IsCovered s =
    (o k : ℕ) (p : Payment)
    → find o k s.payments ≡ some p
    → refund_total o k is_committed s.refunds ≤ p.amount

module _ (org : ℕ) (ctx : Context) (s : Store) where
  pub request_refund-inv :
      (payment_id : ℕ) (payload : RefundCreate) {s' : Store}
      → request_refund org payment_id payload ctx s ≡ ok s'
      → (p : Payment) × (find org payment_id s.payments ≡ some p)
        × (is_settled p.status ≡ true)
        × ((s' ≡ s)
            ⊎ ((first (has_refund_key org payload.idempotency_key) s.refunds ≡ none)
                × (refund_total org p.id is_committed s.refunds + payload.amount ≤ p.amount)
                × (s'.payments ≡ s.payments)
                × (s'.refunds ≡ new_refund org p payload ctx ∷ s.refunds)))
  unfolding request_refund
  request_refund-inv payment_id payload h = ground arith

  -- If the pending, approved and completed refunds of every payment are at most the payment, they
  -- still are after a request for a refund.
  pub request_refund-IsCovered :
      (payment_id : ℕ) (payload : RefundCreate) (s' : Store)
      → IsCovered s
      → request_refund org payment_id payload ctx s ≡ ok s'
      → IsCovered s'
  request_refund-IsCovered payment_id payload s' covered h o k q at =
      let (p, at_p, settled, outcome) = request_refund-inv payment_id payload h in
      elim outcome [
        | inl same ↦ ground (arith, covered o k q)
        | inr (new, room, same, stored) ↦
            ground (
              arith,
              covered o k q,
              find-key org payment_id s.payments p,
              find-key o k s.payments q,
            )
      ]

  -- A request for a refund that succeeded succeeds again on the state that it left, and changes
  -- nothing.
  pub request_refund-idempotent :
      (payment_id : ℕ) (payload : RefundCreate) (s' : Store)
      → request_refund org payment_id payload ctx s ≡ ok s'
      → request_refund org payment_id payload ctx s' ≡ ok s'
  unfolding request_refund
  request_refund-idempotent payment_id payload s' h = ground arith

  pub decide_refund-inv :
      (refund_id : ℕ) (approved : Bool) (notes : String) {s' : Store}
      → decide_refund org refund_id approved notes ctx s ≡ ok s'
      → (r : Refund) × (find org refund_id s.refunds ≡ some r)
        × (r.status ≡ PaymentStatus.pending)
        × (is_id r.requested_by_user_id ctx.actor_user_id ≡ false)
        × (s'.payments ≡ s.payments)
        × (s'.refunds ≡ put (decide approved notes ctx r) s.refunds)
  unfolding decide_refund
  decide_refund-inv refund_id approved notes h = ground arith

  -- If the pending, approved and completed refunds of every payment are at most the payment, they
  -- still are after a decision on a refund.
  pub decide_refund-IsCovered :
      (refund_id : ℕ) (approved : Bool) (notes : String) (s' : Store)
      → IsCovered s
      → decide_refund org refund_id approved notes ctx s ≡ ok s'
      → IsCovered s'
  decide_refund-IsCovered refund_id approved notes s' covered h o k q at =
      let (r, at_r, pending, other, same, stored) = decide_refund-inv refund_id approved notes h in
      let (same_org, same_id) = find-key org refund_id s.refunds r at_r in
      let at_r' : find r.organization_id r.id s.refunds ≡ some r = ground arith in
      ground (
        arith,
        covered o k q,
        sum_of-put (is_refund_of o k is_committed) (λ (r : Refund). r.amount)
            (decide approved notes ctx r) s.refunds r at_r',
      )

  pub process_refund-inv :
      (refund_id : ℕ) (reference : String) {s' : Store}
      → process_refund org refund_id reference ctx s ≡ ok s'
      → (r : Refund) × (booking_id : ℕ) × (payments : List Payment) × (result : Reversed) × (find
            org refund_id s.refunds
          ≡ some r)
        × (is_processing r.status ≡ true)
        × (r.booking_id ≡ some booking_id)
        × (take_back org r booking_id ctx s ≡ ok (payments, result))
        × (s' ≡ store_refund org r payments result reference ctx s)
  unfolding process_refund
  process_refund-inv refund_id reference h = ground arith

  -- A refund that is processed was approved, is stored as completed, leaves the sum of the
  -- pending, approved and completed refunds of every payment as it was, and debits the booking
  -- that it names by its amount.
  pub process_refund-totals :
      (refund_id : ℕ) (reference : String) (s' : Store)
      → process_refund org refund_id reference ctx s ≡ ok s'
      → (r : Refund) × (booking_id : ℕ) × (find org refund_id s.refunds ≡ some r)
        × (r.status ≡ PaymentStatus.processing)
        × (r.booking_id ≡ some booking_id)
        × (find org refund_id s'.refunds ≡ some (processed reference ctx r))
        × ((o k : ℕ)
            → refund_total o k is_committed s'.refunds ≡ refund_total o k is_committed s.refunds)
        × (debits org booking_id s'.ledger ≡ debits org booking_id s.ledger + r.amount)
  unfolding debits
  process_refund-totals refund_id reference s' h =
      let (r, booking_id, payments, result, at_r, processing, booked, taken, stored) =
        process_refund-inv refund_id reference h in
      let (same_org, same_id) = find-key org refund_id s.refunds r at_r in
      let at_r' : find r.organization_id r.id s.refunds ≡ some r = ground arith in
      let r' = processed reference ctx r in
      rw stored (
        r,
        booking_id,
        at_r,
        ground arith,
        booked,
        ground (arith, find-put org refund_id r' s.refunds r),
        (λ o k. ground (
          arith,
          sum_of-put (is_refund_of o k is_committed) (λ (r : Refund). r.amount) r' s.refunds r
              at_r',
        )),
        ground arith,
      )
