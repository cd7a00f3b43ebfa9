-- ===== src/Finance/Conservation.antt =====
-- Where the money of a payment goes: laws of `allocate_payment` of backend/app/services/finance.py.
use real_estate_crm.Base.{
  ◌⊎◌, inl, inr, Bool-cases, ℕ, suc, ◌+◌, ◌-◌, ◌≤◌, min, ◌≡◌, subst, Bool, true, false, not, ◌&&◌,
  some, List, [], ◌∷◌, ◌++◌, ltb, ◌==◌, arith,
}
use real_estate_crm.Base.Result.{ok}
use real_estate_crm.Base.Table.{find, sum_of}
use real_estate_crm.Base.Table.Laws.{find-key, find-put}
use real_estate_crm.Models.Enums.{is_open}
use real_estate_crm.Models.Rows.{Booking}
use real_estate_crm.Models.Money.{
  Installment, DemandLetter, Payment, PaymentAllocation, PaymentPlan,
}
use real_estate_crm.Models.Store.{Store, Context, payment_row, booking_row}
use real_estate_crm.Finance.Accounts.{plan_of, installments_of, open_amount, credits}
use real_estate_crm.Finance.Allocation.{
  PaymentAllocationRequest, allocate_loop, allocate_payment, share_out, store_allocation, ordered,
  capacity, complete,
}

-- What is open on some installments, waived or not.
abbrev pub open_total : List Installment → ℕ
open_total = sum_of (λ _. true) open_amount

abbrev pub amount_total : List PaymentAllocation → ℕ
amount_total = sum_of (λ _. true) (λ a. a.amount)

-- What is allocated of one payment.
abbrev pub is_of_payment : ℕ → ℕ → PaymentAllocation → Bool
is_of_payment org payment_id a = (a.organization_id == org) && (a.payment_id == payment_id)

abbrev pub allocated_to : ℕ → ℕ → List PaymentAllocation → ℕ
allocated_to org payment_id = sum_of (is_of_payment org payment_id) (λ a. a.amount)

-- No installment is paid above its amount.
abbrev pub IsWithin : List Installment → Type 0
IsWithin [] = Unit
IsWithin (i ∷ is) = (i.paid_amount ≤ i.amount) × IsWithin is

sum_of-append :
    {A : Type 0} (p : A → Bool) (f : A → ℕ) (xs ys : List A)
    → sum_of p f (xs ++ ys) ≡ sum_of p f xs + sum_of p f ys
sum_of-append p f [] ys = omega arith
sum_of-append p f (x ∷ xs) ys = omega (arith, sum_of-append p f xs ys)

pub capacity-le-open_total : (is : List Installment) → capacity is ≤ open_total is
unfolding capacity
capacity-le-open_total [] = ground arith
capacity-le-open_total (i ∷ is) = ground (arith, capacity-le-open_total is)

module _ (org payment_id : ℕ) (ctx : Context) (demands : List DemandLetter) where
  -- The loop of an allocation allocates the smaller of the payment and all that is open on the
  -- installments, and what it allocates and what remains add up to the payment.
  pub allocate_loop-conserves :
      (index : ℕ) (is : List Installment) (amount : ℕ)
      → (let result = allocate_loop org payment_id ctx demands index is amount in
          (amount_total result.allocations ≡ min (open_total is) amount)
          × (amount_total result.allocations + result.remaining ≡ amount))
  unfolding allocate_loop
  allocate_loop-conserves index [] amount = ground arith
  allocate_loop-conserves index (i ∷ is) amount = ground (
    arith,
    allocate_loop-conserves (suc index) is amount,
    allocate_loop-conserves (suc index) is (amount - min (open_amount i) amount),
  )

  -- Each allocation is one of this payment.
  allocated_to-allocate_loop :
      (index : ℕ) (is : List Installment) (amount : ℕ)
      → (let result = allocate_loop org payment_id ctx demands index is amount in
          allocated_to org payment_id result.allocations ≡ amount_total result.allocations)
  unfolding allocate_loop
  allocated_to-allocate_loop index [] amount = ground arith
  allocated_to-allocate_loop index (i ∷ is) amount = ground (
    arith,
    allocated_to-allocate_loop (suc index) is amount,
    allocated_to-allocate_loop (suc index) is (amount - min (open_amount i) amount),
  )

  -- If no installment is paid above its amount, the loop of an allocation pays none above its
  -- amount.
  pub allocate_loop-IsWithin :
      (index : ℕ) (is : List Installment) (amount : ℕ)
      → IsWithin is
      → IsWithin (allocate_loop org payment_id ctx demands index is amount).paid
  unfolding allocate_loop
  allocate_loop-IsWithin index [] amount w = tt
  allocate_loop-IsWithin index (i ∷ is) amount w = ground (
    arith,
    w,
    allocate_loop-IsWithin (suc index) is amount w.1,
    allocate_loop-IsWithin (suc index) is (amount - min (open_amount i) amount) w.1,
  )

module _ (org payment_id : ℕ) (payload : PaymentAllocationRequest) (ctx : Context) (s : Store) where
  pub share_out-inv :
      (p : Payment) (b : Booking) {s' : Store}
      → share_out org p b payload ctx s ≡ ok s'
      → (plan : PaymentPlan) × (rows : List Installment) × (plan_of org b.id s.plans ≡ some plan)
        × (let refreshed = installments_of org plan.id ctx.today s.installments in
            (ordered payload.installment_ids refreshed ≡ ok rows)
            × ((ltb (capacity rows) p.amount && not payload.allow_unallocated_credit) ≡ false)
            × (s'
                ≡ store_allocation org b p refreshed
                    (allocate_loop org p.id ctx s.demands 1 rows p.amount)
                    ctx
                    s))
  unfolding share_out
  share_out-inv p b h = ground arith

  pub allocate_payment-inv :
      {s' : Store}
      → allocate_payment org payment_id payload ctx s ≡ ok s'
      → (p : Payment) × (b : Booking) × (find org payment_id s.payments ≡ some p)
        × (find org p.booking_id s.bookings ≡ some b)
        × (is_open p.status ≡ true)
        × (share_out org p b payload ctx s ≡ ok s')
  unfolding allocate_payment
  allocate_payment-inv h = ground arith

  -- An allocation that succeeds completes a payment that was open and credits its booking with
  -- the whole amount. It allocates at most the amount of the payment, and either the request
  -- allows an unallocated credit or it allocates exactly that amount.
  pub allocate_payment-totals :
      (s' : Store)
      → allocate_payment org payment_id payload ctx s ≡ ok s'
      → (p : Payment) × (find org payment_id s.payments ≡ some p)
        × (is_open p.status ≡ true)
        × (find org payment_id s'.payments ≡ some (complete ctx p))
        × (credits org p.booking_id s'.ledger ≡ credits org p.booking_id s.ledger + p.amount)
        × (allocated_to org payment_id s'.allocations
            ≤ allocated_to org payment_id s.allocations + p.amount)
        × ((payload.allow_unallocated_credit ≡ true)
            ⊎ (allocated_to org payment_id s'.allocations
                ≡ allocated_to org payment_id s.allocations + p.amount))
  unfolding credits store_allocation
  allocate_payment-totals s' h =
      let (p, b, at_p, at_b, open_payment, shared) = allocate_payment-inv h in
      let (plan, rows, planned, (in_order, fits, stored)) = share_out-inv p b shared in
      let (same_org, same_id) = find-key org payment_id s.payments p at_p in
      let (same_org_b, same_id_b) = find-key org p.booking_id s.bookings b at_b in
      let result = allocate_loop org p.id ctx s.demands 1 rows p.amount in
      let (much, rest) = allocate_loop-conserves org p.id ctx s.demands 1 rows p.amount in
      let mine = allocated_to-allocate_loop org p.id ctx s.demands 1 rows p.amount in
      let room = capacity-le-open_total rows in
      let joined =
        sum_of-append (is_of_payment org payment_id) (λ (a : PaymentAllocation). a.amount)
          result.allocations s.allocations in
      let mine' : allocated_to org payment_id result.allocations ≡ amount_total result.allocations =
        subst (λ k. allocated_to org k result.allocations ≡ amount_total result.allocations) same_id
          mine in
      rw stored (
        p,
        at_p,
        open_payment,
        ground (arith, find-put org payment_id (complete ctx p) s.payments p),
        ground arith,
        omega (arith, joined, mine', rest),
        elim (Bool-cases payload.allow_unallocated_credit) [
          | inl e ↦ inl e
          | inr e ↦ inr (ground (arith, e, joined, mine', much, room, fits))
        ],
      )
