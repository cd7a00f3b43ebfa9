-- ===== src/Workflow/Reach.antt =====
-- The requests that write units, holds or bookings as the steps of a relation on stores, and what
-- every sequence of them keeps. The premises on identifiers say that the database draws new ones.
use real_estate_crm.Base.{ℕ, ◌≡◌, ◌≢◌, String, Bool, Option, none, some, List, ◌+◌, ◌≤◌, arith}
use real_estate_crm.Base.Result.{ok, Reply}
use real_estate_crm.Base.Table.{find, count_of}
use real_estate_crm.Models.Enums.{UnitStatus, BookingStatus}
use real_estate_crm.Models.Rows.{Booking, InventoryUnit}
use real_estate_crm.Models.Store.{Store, Context, booking_row, unit_row, hold_row}
use real_estate_crm.Inventory.Expiry.{expire_due_holds, reserves}
use real_estate_crm.Inventory.Holds.{
  UnitHoldCreate, HoldApprovalDecision, create_hold, decide_hold, release_hold,
}
use real_estate_crm.Inventory.Desk.{
  transition_unit_status, BookingInitiate, initiate_booking, booking_route, occupies,
}
use real_estate_crm.Bookings.Parts.{PaymentPlanInput, FinancingInput}
use real_estate_crm.Bookings.Create.{BookingCreate, create_booking}
use real_estate_crm.Bookings.Flow.{
  advance_booking, set_payment_plan, set_financing, BookingPaymentCreate, create_payment,
  decide_payment,
}
use real_estate_crm.Bookings.Approval.{request_approval, decide_approval, cancel_booking}
use real_estate_crm.Finance.Allocation.{PaymentAllocationRequest, allocate_payment}
use real_estate_crm.PostSales.Complete.{complete_cancellation}
use real_estate_crm.PostSales.Move.{complete_transfer}
use real_estate_crm.PostSales.Sound.{complete_cancellation-IsSafe}
use real_estate_crm.PostSales.Relocated.{complete_transfer-IsSafe}
use real_estate_crm.Workflow.Sales.{Sale, Sale-SameInventory}
use real_estate_crm.Workflow.Locked.{one_live_booking}
use real_estate_crm.Workflow.Frames.{
  IsSafe, SameInventory-IsSafe, set_payment_plan-IsSafe, set_financing-IsSafe,
  decide_payment-IsSafe,
}
use real_estate_crm.Workflow.Moves.{
  advance_booking-IsSafe, request_approval-IsSafe, create_payment-IsSafe, allocate_payment-IsSafe,
}
use real_estate_crm.Workflow.Occupancy.{
  create_hold-IsSafe, decide_hold-IsSafe, release_hold-IsSafe, transition_unit_status-IsSafe,
  initiate_booking-IsSafe, booking_route-IsSafe, expire_due_holds-IsSafe,
}
use real_estate_crm.Workflow.Controlled.{
  create_booking-IsSafe, decide_approval-IsSafe, cancel_booking-IsSafe,
}

-- One request of organization `org` that the service accepts.
pub data Step (s : Store) : Store → Type 0 where
  expire :
      {s' : Store} (org : Option ℕ) (limit : ℕ) (actor : Option ℕ) (now n : ℕ)
      → expire_due_holds org limit actor now s ≡ ok (n, s')
      → Step s s'
  hold :
      {s' : Store} (org unit_id : ℕ) (payload : UnitHoldCreate) (ctx : Context)
      → find org (ctx.new_id 0) s.holds ≡ none
      → create_hold org unit_id payload ctx s ≡ ok s'
      → Step s s'
  decide :
      {reply : Reply Store} (org hold_id : ℕ) (payload : HoldApprovalDecision) (ctx : Context)
      → decide_hold org hold_id payload ctx s ≡ ok reply
      → Step s reply.store
  release :
      {reply : Reply Store} (org unit_id : ℕ) (reason : String) (ctx : Context)
      → release_hold org unit_id reason ctx s ≡ ok reply
      → Step s reply.store
  move_unit :
      {reply : Reply Store} (org unit_id : ℕ) (target : UnitStatus) (ctx : Context)
      → transition_unit_status org unit_id target ctx s ≡ ok reply
      → Step s reply.store
  initiate :
      {s' : Store} (org unit_id : ℕ) (payload : BookingInitiate) (ctx : Context)
      → find org (ctx.new_id 0) s.bookings ≡ none
      → initiate_booking org unit_id payload ctx s ≡ ok s'
      → Step s s'
  route :
      {s' : Store} (org booking_id : ℕ) (confirmed : Bool) (ctx : Context) (b : Booking)
      → find org booking_id s.bookings ≡ some b
      → b.status ≢ BookingStatus.rejected
      → booking_route org booking_id confirmed ctx s ≡ ok s'
      → Step s s'
  create :
      (org : ℕ) (payload : BookingCreate) (ctx : Context)
      → find org (ctx.new_id 0) s.bookings ≡ none
      → Step s (create_booking org payload ctx s).store
  advance :
      (org booking_id : ℕ) (target : BookingStatus) (ctx : Context)
      → Step s (advance_booking org booking_id target ctx s).store
  set_plan :
      {s' : Store} (org booking_id : ℕ) (payload : PaymentPlanInput) (ctx : Context)
      → set_payment_plan org booking_id payload ctx s ≡ ok s'
      → Step s s'
  finance :
      {s' : Store} (org booking_id : ℕ) (payload : FinancingInput) (ctx : Context)
      → set_financing org booking_id payload ctx s ≡ ok s'
      → Step s s'
  pay :
      {s' : Store} (org booking_id : ℕ) (payload : BookingPaymentCreate) (ctx : Context)
      → create_payment org booking_id payload ctx s ≡ ok s'
      → Step s s'
  fail_payment :
      {s' : Store} (org booking_id payment_id : ℕ) (completed : Bool) (ctx : Context)
      → decide_payment org booking_id payment_id completed ctx s ≡ ok s'
      → Step s s'
  allocate :
      {s' : Store} (org payment_id : ℕ) (payload : PaymentAllocationRequest) (ctx : Context)
      → allocate_payment org payment_id payload ctx s ≡ ok s'
      → Step s s'
  ask :
      (org booking_id : ℕ) (approvers : List ℕ) (comments : Option String) (ctx : Context)
      → Step s (request_approval org booking_id approvers comments ctx s).store
  approve :
      {s' : Store} (org booking_id approval_id : ℕ) (approved : Bool) (comments : String)
      (ctx : Context)
      → decide_approval org booking_id approval_id approved comments ctx s ≡ ok s'
      → Step s s'
  cancel :
      {s' : Store} (org booking_id : ℕ) (reason : String) (ctx : Context)
      → cancel_booking org booking_id reason ctx s ≡ ok s'
      → Step s s'
  end_sale :
      {s' : Store} (org cancellation_id : ℕ) (ctx : Context)
      → complete_cancellation org cancellation_id ctx s ≡ ok s'
      → Step s s'
  transfer :
      {s' : Store} (org transfer_id : ℕ) (ctx : Context)
      → complete_transfer org transfer_id ctx s ≡ ok s'
      → Step s s'
  sale : {s' : Store} → Sale s s' → Step s s'

pub data Reach (s : Store) : Store → Type 0 where
  start : Reach s s
  next : {t u : Store} → Reach s t → Step t u → Reach s u

pub Step-IsSafe : {s s' : Store} → IsSafe s → Step s s' → IsSafe s'
Step-IsSafe {s} {s'} safe (expire org limit actor now n h) =
    expire_due_holds-IsSafe s org limit actor now n s' safe h
Step-IsSafe {s} {s'} safe (hold org unit_id payload ctx fresh h) =
    create_hold-IsSafe org ctx s safe unit_id payload s' fresh h
Step-IsSafe {s} safe (decide {reply} org hold_id payload ctx h) =
    decide_hold-IsSafe org ctx s safe hold_id payload reply h
Step-IsSafe {s} safe (release {reply} org unit_id reason ctx h) =
    release_hold-IsSafe org ctx s safe unit_id reason reply h
Step-IsSafe {s} safe (move_unit {reply} org unit_id target ctx h) =
    transition_unit_status-IsSafe org ctx s safe unit_id target reply h
Step-IsSafe {s} {s'} safe (initiate org unit_id payload ctx fresh h) =
    initiate_booking-IsSafe org ctx s safe unit_id payload s' fresh h
Step-IsSafe {s} {s'} safe (route org booking_id confirmed ctx b at open_booking h) =
    booking_route-IsSafe org ctx s safe booking_id confirmed b s' at open_booking h
Step-IsSafe {s} safe (create org payload ctx fresh) =
    create_booking-IsSafe org ctx payload s safe fresh
Step-IsSafe {s} safe (advance org booking_id target ctx) =
    advance_booking-IsSafe org booking_id ctx s target safe
Step-IsSafe {s} {s'} safe (set_plan org booking_id payload ctx h) =
    set_payment_plan-IsSafe org booking_id ctx s payload s' safe h
Step-IsSafe {s} {s'} safe (finance org booking_id payload ctx h) =
    set_financing-IsSafe org booking_id ctx s payload s' safe h
Step-IsSafe {s} {s'} safe (pay org booking_id payload ctx h) =
    create_payment-IsSafe org booking_id ctx s payload s' safe h
Step-IsSafe {s} {s'} safe (fail_payment org booking_id payment_id completed ctx h) =
    decide_payment-IsSafe org booking_id ctx s payment_id completed s' safe h
Step-IsSafe {s} {s'} safe (allocate org payment_id payload ctx h) =
    allocate_payment-IsSafe org ctx s payment_id payload s' safe h
Step-IsSafe {s} safe (ask org booking_id approvers comments ctx) =
    request_approval-IsSafe org booking_id ctx s approvers comments safe
Step-IsSafe {s} {s'} safe (approve org booking_id approval_id approved comments ctx h) =
    decide_approval-IsSafe org booking_id ctx s safe approval_id approved comments s' h
Step-IsSafe {s} {s'} safe (cancel org booking_id reason ctx h) =
    cancel_booking-IsSafe org booking_id ctx s safe reason s' h
Step-IsSafe {s} {s'} safe (end_sale org cancellation_id ctx h) =
    complete_cancellation-IsSafe org cancellation_id ctx s s' h safe
Step-IsSafe {s} {s'} safe (transfer org transfer_id ctx h) =
    complete_transfer-IsSafe org transfer_id ctx s s' safe h
Step-IsSafe {s} {s'} safe (sale request) =
    SameInventory-IsSafe s s' (Sale-SameInventory s s' request) safe

-- Every sequence of requests keeps the inventory safe: a unit's status says how many holds reserve
-- it and how many bookings occupy it, and a booking occupies its unit while it is alive.
pub Reach-IsSafe : {s t : Store} → IsSafe s → Reach s t → IsSafe t
Reach-IsSafe safe start = safe
Reach-IsSafe safe (next steps step) = Step-IsSafe (Reach-IsSafe safe steps) step

-- From a safe store, one with a sound inventory where a booking has its unit's key exactly while
-- it is neither rejected nor cancelled, and however the modelled requests on units, holds,
-- bookings, payments, charges, refunds, cancellations and transfers follow each other (new holds
-- and bookings with unused identifiers, the inventory route cancelling no rejected booking), two
-- bookings of one organization that both occupy a unit of it are the same booking: no unit is
-- sold twice.
pub one_booking_per_unit :
    (s t : Store) (org i j k : ℕ) (u : InventoryUnit) (b c : Booking)
    → IsSafe s
    → Reach s t
    → find org i t.units ≡ some u
    → find org j t.bookings ≡ some b
    → find org k t.bookings ≡ some c
    → b.active_unit_key ≡ some i
    → c.active_unit_key ≡ some i
    → j ≡ k
one_booking_per_unit s t org i j k u b c safe steps at at_b at_c key key' =
    let safe' = Reach-IsSafe safe steps in
    one_live_booking t.bookings org i j k u b c safe'.sound safe'.locked at at_b at_c key key'

-- From a safe store, after any sequence of the modelled requests on units, holds, bookings,
-- payments, charges, refunds, cancellations and transfers (new holds and bookings with unused
-- identifiers, the inventory route cancelling no rejected booking), a unit has at most one
-- reserving hold or occupying booking: it is never held twice, booked twice, or held and booked.
pub no_double_occupancy :
    (s t : Store) (org i : ℕ) (u : InventoryUnit)
    → IsSafe s
    → Reach s t
    → find org i t.units ≡ some u
    → count_of (reserves org i) t.holds + count_of (occupies org i) t.bookings ≤ 1
no_double_occupancy s t org i u safe steps at =
    let safe' = Reach-IsSafe safe steps in
    ground (arith, safe'.sound.held_once org i u at, safe'.sound.occupied_once org i u at)
