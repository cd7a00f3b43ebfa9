-- ===== src/Finance/Order.antt =====
-- The order and the choice of the installments that a payment goes to: laws of `allocate_payment` and
-- `_account` of backend/app/services/finance.py.
use real_estate_crm.Base.{
  ℕ, ◌+◌, ◌≤◌, ◌≡◌, refl, Bool, true, not, List, [], ◌∷◌, leb, if◌then◌else◌, arith,
}
use real_estate_crm.Base.Result.{ok}
use real_estate_crm.Base.Table.{sum_of, insert_by, sort_by}
use real_estate_crm.Models.Enums.{is_waived}
use real_estate_crm.Models.Money.{Installment, DemandLetter}
use real_estate_crm.Models.Store.{Context}
use real_estate_crm.Finance.Accounts.{open_amount, overdue}
use real_estate_crm.Finance.Allocation.{allocate_loop, ordered, capacity, rank}
use real_estate_crm.Finance.Conservation.{amount_total, allocate_loop-conserves}

module _ {A : Type 0} (le : A → A → Bool) (p : A → Bool) (f : A → ℕ) where
  sum_of-insert_by :
      (x : A) (xs : List A)
      → sum_of p f (insert_by le x xs) ≡ (if p x then f x else 0) + sum_of p f xs
  sum_of-insert_by x [] = refl
  sum_of-insert_by x (y ∷ ys) = ground (arith, sum_of-insert_by x ys)

  pub sum_of-sort_by : (xs : List A) → sum_of p f (sort_by le xs) ≡ sum_of p f xs
  sum_of-sort_by [] = refl
  sum_of-sort_by (x ∷ xs) = omega (arith, sum_of-insert_by x (sort_by le xs), sum_of-sort_by xs)

ordered-sum_of :
    (p : Installment → Bool) (f : Installment → ℕ) (ids : List ℕ) (is rows : List Installment)
    → ordered ids is ≡ ok rows
    → sum_of p f rows ≡ sum_of p f is
unfolding ordered
ordered-sum_of p f [] is rows h = ground arith
ordered-sum_of p f (k ∷ ks) is rows h =
    ground (arith, sum_of-sort_by (λ i j. leb (rank (k ∷ ks) i.id) (rank (k ∷ ks) j.id)) p f is)

-- The order of installments that an accepted request asks for changes neither their capacity nor
-- what the loop of an allocation allocates in all.
pub ordered-totals :
    (org payment_id : ℕ) (ctx : Context) (demands : List DemandLetter) (ids : List ℕ)
    (is rows : List Installment) (amount : ℕ)
    → ordered ids is ≡ ok rows
    → (capacity rows ≡ capacity is)
      × (amount_total (allocate_loop org payment_id ctx demands 1 rows amount).allocations
          ≡ amount_total (allocate_loop org payment_id ctx demands 1 is amount).allocations)
unfolding capacity
ordered-totals org payment_id ctx demands ids is rows amount h = (
  ordered-sum_of (λ i. not (is_waived i.status)) open_amount ids is rows h,
  omega (
    arith,
    (allocate_loop-conserves org payment_id ctx demands 1 rows amount).0,
    (allocate_loop-conserves org payment_id ctx demands 1 is amount).0,
    ordered-sum_of (λ _. true) open_amount ids is rows h,
  ),
)

-- What is overdue on the installments of an account is at most what a payment may be allocated
-- to.
overdue-le-capacity : (today : ℕ) (is : List Installment) → overdue today is ≤ capacity is
unfolding overdue capacity
overdue-le-capacity today [] = ground arith
overdue-le-capacity today (i ∷ is) = ground (arith, overdue-le-capacity today is)
