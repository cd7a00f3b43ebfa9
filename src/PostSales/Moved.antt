-- ===== src/PostSales/Moved.antt =====
-- What the new plan of a transfer takes over from the old one.
use real_estate_crm.Base.{ℕ, suc, ◌+◌, ◌-◌, min, ◌≡◌, refl, ap, List, [], ◌∷◌, ◌++◌, ltb, arith}
use real_estate_crm.Base.Result.{ok, >>=-eq-ok, passed}
use real_estate_crm.Base.Result.Codes.{payments_exceed_new_price}
use real_estate_crm.Models.Money.{Installment, PaymentAllocation}
use real_estate_crm.Models.PostSales.{PlannedInstallment}
use real_estate_crm.Models.Store.{Context}
use real_estate_crm.Finance.Conservation.{IsWithin}
use real_estate_crm.PostSales.Plan.{spread, spread_all, planned_rows}

unfoldable pub paid_total : List Installment → ℕ
paid_total [] = 0
paid_total (i ∷ is) = i.paid_amount + paid_total is

unfoldable pub moved_total : List PaymentAllocation → ℕ
moved_total [] = 0
moved_total (a ∷ rows) = a.amount + moved_total rows

paid_total-append :
    (is js : List Installment) → paid_total (is ++ js) ≡ paid_total is + paid_total js
unfolding paid_total
paid_total-append [] js = omega arith
paid_total-append (i ∷ is) js = omega (arith, paid_total-append is js)

moved_total-append :
    (xs ys : List PaymentAllocation) → moved_total (xs ++ ys) ≡ moved_total xs + moved_total ys
unfolding moved_total
moved_total-append [] ys = omega arith
moved_total-append (x ∷ xs) ys = omega (arith, moved_total-append xs ys)

append-IsWithin : (is js : List Installment) → IsWithin is → IsWithin js → IsWithin (is ++ js)
append-IsWithin [] js w w' = w'
append-IsWithin (i ∷ is) js w w' = (w.0, append-IsWithin is js w.1 w')

module _ (org transfer_id : ℕ) (ctx : Context) where
  -- One old allocation.
  spread-conserves :
      (drawn : ℕ) (old : PaymentAllocation) (remaining : ℕ) (is : List Installment)
      → IsWithin is
      → (moved_total (spread org transfer_id ctx drawn old remaining is).moved
            + (spread org transfer_id ctx drawn old remaining is).remaining
          ≡ remaining)
        × (paid_total (spread org transfer_id ctx drawn old remaining is).passed
              + paid_total (spread org transfer_id ctx drawn old remaining is).left
            ≡ paid_total is + moved_total (spread org transfer_id ctx drawn old remaining is).moved)
        × IsWithin (spread org transfer_id ctx drawn old remaining is).passed
        × IsWithin (spread org transfer_id ctx drawn old remaining is).left
  unfolding spread paid_total moved_total
  spread-conserves drawn old remaining [] w = ground arith
  spread-conserves drawn old remaining (i ∷ is) w = ground (
    arith,
    spread-conserves (suc drawn) old (remaining - min (i.amount - i.paid_amount) remaining) is w.1,
  )

  spread_all-conserves :
      (drawn : ℕ) (olds : List PaymentAllocation) (is is' : List Installment)
      (rows : List PaymentAllocation)
      → IsWithin is
      → spread_all org transfer_id ctx drawn olds is ≡ ok (is', rows)
      → (moved_total rows ≡ moved_total olds)
        × (paid_total is' ≡ paid_total is + moved_total olds)
        × IsWithin is'
  unfolding spread_all moved_total
  spread_all-conserves drawn [] is is' rows w h = ground arith
  spread_all-conserves drawn (old ∷ olds) is is' rows w h =
      let m = spread org transfer_id ctx drawn old old.amount is in
      let (covered, h1) = passed (ltb 0 m.remaining) 409 payments_exceed_new_price _ h in
      let ((is2, rows2), later, h2) =
        >>=-eq-ok (spread_all org transfer_id ctx m.drawn olds m.left) _ h1 in
      let (moved, paid, passed_in, left_in) = spread-conserves drawn old old.amount is w in
      let (moved', paid', within') =
        spread_all-conserves m.drawn olds m.left is2 rows2 left_in later in
      let all_rows : rows ≡ m.moved ++ rows2 = ground arith in
      let all_is : is' ≡ m.passed ++ is2 = ground arith in
      let none_left : m.remaining ≡ 0 = ground arith in
      (
        omega (
          arith,
          ap moved_total all_rows,
          moved_total-append m.moved rows2,
          moved,
          moved',
          none_left,
        ),
        omega (
          arith,
          ap paid_total all_is,
          paid_total-append m.passed is2,
          paid,
          paid',
          moved,
          none_left,
        ),
        rw all_is (append-IsWithin m.passed is2 passed_in within'),
      )

  planned-unpaid :
      (plan_id sequence : ℕ) (is : List PlannedInstallment)
      → (paid_total (planned_rows org plan_id ctx sequence is) ≡ 0)
        × IsWithin (planned_rows org plan_id ctx sequence is)
  unfolding paid_total planned_rows
  planned-unpaid plan_id sequence [] = (refl, tt)
  planned-unpaid plan_id sequence (i ∷ is) =
      let (unpaid, within) = planned-unpaid plan_id (suc sequence) is in
      (omega (arith, unpaid), (omega arith, within))

  -- Where the old allocations are spread over the installments of a new plan, which have nothing
  -- paid, the new allocations add up to the old ones, so do the paid amounts of the installments,
  -- and none is paid above its amount.
  pub spread_all-planned :
      (plan_id : ℕ) (planned : List PlannedInstallment) (olds : List PaymentAllocation)
      (is' : List Installment) (rows : List PaymentAllocation)
      → spread_all org transfer_id ctx 0 olds (planned_rows org plan_id ctx 1 planned)
        ≡ ok (is', rows)
      → (moved_total rows ≡ moved_total olds) × (paid_total is' ≡ moved_total olds) × IsWithin is'
  spread_all-planned plan_id planned olds is' rows h =
      let (unpaid, within) = planned-unpaid plan_id 1 planned in
      let (moved, paid, within') =
        spread_all-conserves 0 olds (planned_rows org plan_id ctx 1 planned) is' rows within h in
      (moved, omega (arith, paid, unpaid), within')
