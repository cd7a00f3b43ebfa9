-- ===== src/Finance/Allocation/Loop.antt =====
-- The choice and the order of the installments and the loop of `allocate_payment` of
-- backend/app/services/finance.py.
use real_estate_crm.Base.{
  ℕ, suc, ◌+◌, ◌-◌, min, Bool, true, false, not, ◌&&◌, ◌||◌, Option, none, some, List, [], ◌∷◌, ltb,
  leb, ◌==◌, if◌then◌else◌, is_id,
}
use real_estate_crm.Base.Result.{Result, ok, ◌>>◌, raise_if}
use real_estate_crm.Base.Result.Codes.{installment_booking_mismatch}
use real_estate_crm.Base.Table.{first_by, select, sort_by, sum_of}
use real_estate_crm.Models.Enums.{InstallmentStatus, is_waived, is_active}
use real_estate_crm.Models.Money.{Installment, DemandLetter, PaymentAllocation, AllocationKey}
use real_estate_crm.Models.Store.{Context, booking_row, installment_row, payment_row}
use real_estate_crm.Finance.Accounts.{open_amount}

-- `order.get(item.id, len(order))` for the dictionary from each identifier to its last index.
abbrev is_in : ℕ → List ℕ → Bool
is_in k [] = false
is_in k (j ∷ js) = (j == k) || is_in k js

abbrev pub distinct : List ℕ → ℕ
distinct [] = 0
distinct (j ∷ js) = (if is_in j js then 0 else 1) + distinct js

rank_from : ℕ → ℕ → ℕ → List ℕ → ℕ
rank_from index found k [] = found
rank_from index found k (j ∷ js) = rank_from (suc index) (if j == k then index else found) k js

pub rank : List ℕ → ℕ → ℕ
unfolding rank_from
rank ids k = rank_from 0 (distinct ids) k ids

-- `value not in {item.id for item in installments}`
abbrev has_id : ℕ → List Installment → Bool
has_id k [] = false
has_id k (i ∷ is) = (i.id == k) || has_id k is

abbrev all_known : List ℕ → List Installment → Bool
all_known [] is = true
all_known (k ∷ ks) is = has_id k is && all_known ks is

-- The installments in the order of the request, and in their own order where it names none.
unfoldable pub ordered : List ℕ → List Installment → Result (List Installment)
unfolding rank
ordered [] is = ok is
ordered (k ∷ ks) is = do
  raise_if (not (all_known (k ∷ ks) is)) 422 installment_booking_mismatch
  ok (sort_by (λ i j. leb (rank (k ∷ ks) i.id) (rank (k ∷ ks) j.id)) is)

-- `capacity`: what is open on the installments that are not waived.
unfoldable pub capacity : List Installment → ℕ
capacity = sum_of (λ i. not (is_waived i.status)) open_amount

-- The active demand letter of an installment that was issued last.
abbrev demand_of : ℕ → ℕ → List DemandLetter → Option DemandLetter
demand_of org installment_id demands =
    first_by (λ c d. ltb d.created_at c.created_at)
      (select
        (λ d.
          (d.organization_id == org) && is_id d.installment_id installment_id && is_active d.status)
        demands)

abbrev demand_id : Option DemandLetter → Option ℕ
demand_id none = none
demand_id (some d) = some d.id

abbrev pub pay : ℕ → Installment → Installment
pay amount i = record i {
  paid_amount = i.paid_amount + amount;
  status =
      if leb i.amount (i.paid_amount + amount)
      then InstallmentStatus.paid
      else InstallmentStatus.partially_paid;
}

-- What the loop has: the installments that it paid, the allocations, and what remains.
pub record Allocated : Type 0 where
  pub paid : List Installment
  pub allocations : List PaymentAllocation
  pub remaining : ℕ

module _ (org payment_id : ℕ) (ctx : Context) (demands : List DemandLetter) where
  abbrev pub allocation : ℕ → Installment → ℕ → PaymentAllocation
  allocation index i amount = record {
    organization_id = org;
    id = ctx.new_id (10 + index);
    payment_id = payment_id;
    installment_id = some i.id;
    demand_letter_id = demand_id (demand_of org i.id demands);
    allocated_by_user_id = ctx.actor_user_id;
    amount = amount;
    idempotency_key = AllocationKey.payment_allocation payment_id index;
    allocated_at = ctx.now;
    reversed_at = none;
  }

  abbrev pub pushed : ℕ → Installment → ℕ → Allocated → Allocated
  pushed index i amount rest = record {
    paid = pay amount i ∷ rest.paid;
    allocations = allocation index i amount ∷ rest.allocations;
    remaining = rest.remaining;
  }

  -- The loop over the installments, from `index` on, with its `continue` and its `break`.
  unfoldable pub allocate_loop : ℕ → List Installment → ℕ → Allocated
  allocate_loop index [] remaining = record { paid = []; allocations = []; remaining = remaining }
  allocate_loop index (i ∷ is) remaining =
      let amount = min (open_amount i) remaining in
      let skipped = allocate_loop (suc index) is remaining in
      let rest = allocate_loop (suc index) is (remaining - amount) in
      let last : Allocated = record {
        paid = [];
        allocations = [];
        remaining = remaining - amount;
      } in
      if leb amount 0
      then skipped
      else pushed index i amount (if leb (remaining - amount) 0 then last else rest)
