-- ===== src/PostSales/Sound.antt =====
-- What the cancellation of a confirmed booking does to the inventory, the ledger and the refunds.
use real_estate_crm.Base.{
  ℕ, ◌+◌, ◌*◌, ◌≤◌, ◌≡◌, ◌≢◌, refl, ap, ◌∙◌, inr, String, Bool, true, some, List, [], ◌∷◌, ◌++◌,
  or_else, min, ◌==◌, ◌&&◌, arith, is_id, is_some,
}
use real_estate_crm.Base.Money.{round_div_nearest}
use real_estate_crm.Base.Result.{ok, err}
use real_estate_crm.Base.Result.Codes.{
  payment_state_changed, invalid_cancellation_transition, active_cancellation_exists,
}
use real_estate_crm.Base.Table.{find, first, put, sum_of}
use real_estate_crm.Base.Table.Laws.{find-key, find-put}
use real_estate_crm.Models.Enums.{
  is_approved_workflow, UnitStatus, BookingStatus, WorkflowStatus, is_confirmed, is_processing,
}
use real_estate_crm.Models.Rows.{InventoryUnit, Booking}
use real_estate_crm.Models.Money.{CustomerLedger, Refund}
use real_estate_crm.Models.PostSales.{Cancellation, cancellation_row}
use real_estate_crm.Models.Store.{Store, Context, unit_row, booking_row}
use real_estate_crm.Inventory.Sound.Desk.{change_booking-IsSound}
use real_estate_crm.Finance.Accounts.{debits, credits}
use real_estate_crm.Workflow.Locked.{put-IsLocked}
use real_estate_crm.Workflow.Frames.{IsSafe}
use real_estate_crm.PostSales.Cancel.{
  paid_amount, is_active_cancellation, request_cancellation, Deduction, deduction_amount, reviewed,
  review_cancellation, decide_cancellation, is_taken,
}
use real_estate_crm.PostSales.Complete.{
  complete_cancellation, store_completion, ended_booking, cancellation_lines, cancellation_refunds,
}

module _ (org cancellation_id : ℕ) (ctx : Context) (s s' : Store)
    (completed : complete_cancellation org cancellation_id ctx s ≡ ok s') where
  pub complete_cancellation-inv :
      (c : Cancellation) × (b : Booking) × (u : InventoryUnit) × (find org cancellation_id
          s.post_sales.cancellations
        ≡ some c)
      × (find org c.booking_id s.bookings ≡ some b)
      × (find org b.unit_id s.units ≡ some u)
      × (is_approved_workflow c.status ≡ true)
      × (is_confirmed b.status ≡ true)
      × (is_id b.active_unit_key u.id ≡ true)
      × (is_taken u.status ≡ true)
      × (paid_amount org b.id s ≡ c.paid_amount_snapshot)
      × (s' ≡ store_completion org u b c ctx s)
  unfolding complete_cancellation
  complete_cancellation-inv = ground arith

  -- The unit is given back with its booking.
  pub complete_cancellation-IsSafe : IsSafe s → IsSafe s'
  complete_cancellation-IsSafe safe =
      let (c, b, u, at_c, at_b, at, approved, confirmed, key, taken, paid, stored) =
        complete_cancellation-inv in
      let (org_b, id_b) = find-key org c.booking_id s.bookings b at_b in
      let (org_u, id_u) = find-key org b.unit_id s.units u at in
      let locked : b.active_unit_key ≡ some b.unit_id = ground arith in
      let at_b' : find b.organization_id b.id s.bookings ≡ some b = ground arith in
      record {
        sound = rw stored (
            change_booking-IsSound org c.booking_id BookingStatus.cancelled ctx s b
              (ended_booking ctx.now b) u UnitStatus.cancelled_released safe.sound at_b at refl refl
              locked (inr (refl, refl)));
        locked =
            rw (ap (λ (t : Store). t.bookings) stored)
              (put-IsLocked b (ended_booking ctx.now b) s.bookings safe.locked at_b' refl);
      }

deduction_amount-le : (d : Deduction) (paid : ℕ) → deduction_amount d paid ≤ paid
unfolding deduction_amount
deduction_amount-le (Deduction.fixed value) paid =
    grind (arith, round_div_nearest (min value (paid * 100)) 100)
deduction_amount-le (Deduction.percentage value) paid =
    grind (arith, round_div_nearest (min (paid * value) (paid * 1_000_000)) 1_000_000)

review_cancellation-inv :
    (org cancellation_id : ℕ) (d : Deduction) (notes : String) (ctx : Context) (s s' : Store)
    → review_cancellation org cancellation_id d notes ctx s ≡ ok s'
    → (c : Cancellation) × (find org cancellation_id s.post_sales.cancellations ≡ some c)
      × (s'.post_sales.cancellations
          ≡ put
              (reviewed d notes (paid_amount org c.booking_id s) ctx c)
              s.post_sales.cancellations)
unfolding review_cancellation
review_cancellation-inv org cancellation_id d notes ctx s s' h = ground arith

-- A review that succeeds takes what was paid for the booking, net of what was repaid, and splits
-- it into the deduction and the refund.
pub review_cancellation-splits :
    (org cancellation_id : ℕ) (d : Deduction) (notes : String) (ctx : Context) (s s' : Store)
    → review_cancellation org cancellation_id d notes ctx s ≡ ok s'
    → (c : Cancellation) × (c' : Cancellation) × (find org cancellation_id
          s.post_sales.cancellations
        ≡ some c)
      × (find org cancellation_id s'.post_sales.cancellations ≡ some c')
      × (c'.paid_amount_snapshot ≡ paid_amount org c.booking_id s)
      × (c'.deduction_amount + c'.refund_amount ≡ c'.paid_amount_snapshot)
review_cancellation-splits org cancellation_id d notes ctx s s' h =
    let (c, at, stored) = review_cancellation-inv org cancellation_id d notes ctx s s' h in
    let (org_c, id_c) = find-key org cancellation_id s.post_sales.cancellations c at in
    let paid = paid_amount org c.booking_id s in
    let c' = reviewed d notes paid ctx c in
    let at' : find c'.organization_id c'.id s.post_sales.cancellations ≡ some c = ground arith in
    (
      c,
      c',
      at,
      ground (arith, find-put org cancellation_id c' s.post_sales.cancellations c at'),
      refl,
      omega (arith, deduction_amount-le d paid),
    )

-- What the booking of a cancellation has in refunds that wait for their payment.
abbrev pub refunds_due : ℕ → ℕ → List Refund → ℕ
refunds_due org booking_id =
    sum_of
      (λ r. (r.organization_id == org) && is_id r.booking_id booking_id && is_processing r.status)
      (λ r. r.amount)

first-active :
    (org k b : ℕ) (cs : List Cancellation) (c : Cancellation)
    → find org k cs ≡ some c
    → c.active_booking_key ≡ some b
    → is_some (first (is_active_cancellation org b) cs) ≡ true
first-active org k b [] c at key = absurd (ground arith)
first-active org k b (d ∷ cs) c at key = ground (arith, first-active org k b cs c)

-- Where an approved cancellation of a confirmed booking finds another paid amount than its review
-- did, the completion is refused with the advice to review the cancellation again; but every
-- review and every decision of it is refused too, and so is every new request to cancel the
-- booking.
pub complete_cancellation-stuck :
    (org cancellation_id : ℕ) (ctx : Context) (s : Store) (c : Cancellation) (b : Booking)
    (u : InventoryUnit) (d : Deduction) (granted : Bool) (notes : String)
    → find org cancellation_id s.post_sales.cancellations ≡ some c
    → find org c.booking_id s.bookings ≡ some b
    → find org b.unit_id s.units ≡ some u
    → c.status ≡ WorkflowStatus.approved
    → c.active_booking_key ≡ some c.booking_id
    → b.status ≡ BookingStatus.confirmed
    → b.active_unit_key ≡ some u.id
    → is_taken u.status ≡ true
    → paid_amount org b.id s ≢ c.paid_amount_snapshot
    → (complete_cancellation org cancellation_id ctx s ≡ err (409, payment_state_changed))
      × (review_cancellation org cancellation_id d notes ctx s
          ≡ err (409, invalid_cancellation_transition))
      × (decide_cancellation org cancellation_id granted notes ctx s
          ≡ err (409, invalid_cancellation_transition))
      × (request_cancellation org c.booking_id notes ctx s ≡ err (409, active_cancellation_exists))
unfolding complete_cancellation review_cancellation decide_cancellation request_cancellation
complete_cancellation-stuck org cancellation_id ctx s c b u d granted notes at_c at_b at approved
      key confirmed held taken other =
    let (org_b, id_b) = find-key org c.booking_id s.bookings b at_b in
    let known =
      first-active org cancellation_id c.booking_id s.post_sales.cancellations c at_c key in
    (ground arith, ground arith, ground arith, ground arith)

debits-lines :
    (org : ℕ) (b : Booking) (c : Cancellation) (ctx : Context) (ledger : List CustomerLedger)
    → b.organization_id ≡ org
    → (debits org b.id (cancellation_lines org b c ctx ++ ledger)
        ≡ debits org b.id ledger + c.deduction_amount)
      × (credits org b.id (cancellation_lines org b c ctx ++ ledger)
          ≡ credits org b.id ledger + or_else b.agreed_price 0)
unfolding debits credits
debits-lines org b c ctx ledger same = ground arith

refunds_due-refunds :
    (org : ℕ) (b : Booking) (c : Cancellation) (ctx : Context) (refunds : List Refund)
    → refunds_due org b.id (cancellation_refunds org b c ctx ++ refunds)
      ≡ refunds_due org b.id refunds + c.refund_amount
refunds_due-refunds org b c ctx refunds = ground arith

-- A cancellation that is completed, and whose review split what was paid into its deduction and
-- its refund, credits the booking with its agreed price, debits it with the deduction, and leaves
-- what is still paid for the booking but the deduction as refunds that wait to be processed.
pub complete_cancellation-totals :
    (org cancellation_id : ℕ) (ctx : Context) (s s' : Store) (c : Cancellation)
    → complete_cancellation org cancellation_id ctx s ≡ ok s'
    → find org cancellation_id s.post_sales.cancellations ≡ some c
    → c.deduction_amount + c.refund_amount ≡ c.paid_amount_snapshot
    → (b : Booking) × (find org c.booking_id s.bookings ≡ some b)
      × (credits org b.id s'.ledger ≡ credits org b.id s.ledger + or_else b.agreed_price 0)
      × (debits org b.id s'.ledger ≡ debits org b.id s.ledger + c.deduction_amount)
      × (refunds_due org b.id s'.refunds + c.deduction_amount
          ≡ refunds_due org b.id s.refunds + paid_amount org b.id s)
complete_cancellation-totals org cancellation_id ctx s s' c h at_c split =
    let (d, b, u, at_d, at_b, at, approved, confirmed, key, taken, paid, stored) =
      complete_cancellation-inv org cancellation_id ctx s s' h in
    let same : d ≡ c = ground arith in
    let (org_b, id_b) = find-key org d.booking_id s.bookings b at_b in
    let (debited, credited) = debits-lines org b d ctx s.ledger org_b in
    let due : refunds_due org b.id s'.refunds ≡ refunds_due org b.id s.refunds + d.refund_amount =
      ap (λ (t : Store). refunds_due org b.id t.refunds) stored
      ∙ refunds_due-refunds org b d ctx s.refunds in
    (
      b,
      rw (← same) at_b,
      ap (λ (t : Store). credits org b.id t.ledger) stored ∙ credited,
      ap (λ (t : Store). debits org b.id t.ledger) stored ∙ debited ∙ rw same refl,
      omega (
        arith,
        due,
        ap (λ (x : Cancellation). x.refund_amount) same,
        ap (λ (x : Cancellation). x.paid_amount_snapshot) same,
        paid,
      ),
    )
