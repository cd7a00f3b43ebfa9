-- ===== src/Tests/Inventory.antt =====
-- Units, holds and the short booking path at concrete requests.
use real_estate_crm.Base.{
  ◌&&◌, ◌⊎◌, ℕ, ◌+◌, ◌≤◌, ◌<◌, ◌≡◌, ◌≢◌, refl, true, false, none, some, [], ◌∷◌, arith,
}
use real_estate_crm.Base.Result.{ok, err, Reply, done}
use real_estate_crm.Base.Result.Codes.{unit_already_booked}
use real_estate_crm.Base.Table.{find, count_of}
use real_estate_crm.Models.Enums.{UnitStatus, HoldStatus, HoldType, BookingStatus, is_held}
use real_estate_crm.Models.Rows.{UnitHold, Booking}
use real_estate_crm.Models.Store.{Store, unit_row, hold_row, booking_row}
use real_estate_crm.Inventory.Expiry.{
  reserves, expire_hold, expire_due_holds, expire_candidate, expire_loop, mark_hold_expired,
  candidates, is_due, of_org, expired_hold,
}
use real_estate_crm.Inventory.Holds.{
  UnitHoldCreate, HoldApprovalDecision, create_hold, decide_hold, decide_found, release_hold,
  release_found, approve,
}
use real_estate_crm.Inventory.Desk.{
  BookingInitiate, initiate_booking, check_references, check_owner, occupies, booking_route,
  draft_booking,
}
use real_estate_crm.Inventory.Sound.Core.{IsSound}
use real_estate_crm.Inventory.Sound.Holds.{create_hold-IsSound, release_hold-IsSound}
use real_estate_crm.Inventory.Sound.Read.{expire_hold-shows, decide_hold-four_eyes}
use real_estate_crm.Inventory.Sound.Progress.{HaveUnits, expire_due_holds-runs}
use real_estate_crm.Inventory.Sound.Desk.{booking_route-rejected}
use real_estate_crm.Workflow.Frames.{IsSafe}
use real_estate_crm.Workflow.Reach.{Step, Reach, one_booking_per_unit, no_double_occupancy}
use real_estate_crm.Tests.Sample.{after, sales, manager, unit_of, hold_of, booking_of, with_unit}

abbrev free : Store
free = with_unit UnitStatus.available [] []

free-IsSafe : IsSafe free
free-IsSafe = record {
  sound = record {
    holds_keyed = tt;
    bookings_keyed = tt;
    held_once = λ o k u e. ground arith;
    occupied_once = λ o k u e. ground arith;
  };
  locked = λ o k b e. ground arith;
}

abbrev hold_request : UnitHoldCreate
hold_request = record {
  customer_id = 5;
  lead_id = none;
  salesperson_user_id = none;
  hold_type = HoldType.soft_hold;
  hold_reason = "wants to visit";
  expires_at = 5_000;
}

abbrev held_store : Store
held_store = after free (create_hold 1 7 hold_request sales free)

hold_made : create_hold 1 7 hold_request sales free ≡ ok held_store
unfolding create_hold expire_hold
hold_made = refl

create_hold-IsSound_example : IsSound held_store
create_hold-IsSound_example =
    create_hold-IsSound 1 7 hold_request sales free held_store free-IsSafe.sound refl hold_made

held_unit : find 1 7 held_store.units ≡ some (unit_of UnitStatus.soft_hold)
unfolding create_hold expire_hold
held_unit = refl

no_double_occupancy_example :
    count_of (reserves 1 7) held_store.holds + count_of (occupies 1 7) held_store.bookings ≤ 1
no_double_occupancy_example =
    no_double_occupancy free held_store 1 7 (unit_of UnitStatus.soft_hold) free-IsSafe
      (Reach.next Reach.start (Step.hold 1 7 hold_request sales refl hold_made)) held_unit

abbrev request : BookingInitiate
request = record {
  customer_id = 5;
  lead_id = none;
  quotation_id = some 8;
  booking_number = 77;
  booking_amount = 100;
  currency = 1;
}

abbrev booked_store : Store
booked_store = after free (initiate_booking 1 7 request sales free)

booking_made : initiate_booking 1 7 request sales free ≡ ok booked_store
unfolding initiate_booking expire_hold check_references check_owner
booking_made = refl

abbrev made : Booking
made = draft_booking 1 (unit_of UnitStatus.available) request sales

booked_unit : find 1 7 booked_store.units ≡ some (unit_of UnitStatus.booking_initiated)
unfolding initiate_booking expire_hold check_references check_owner
booked_unit = refl

booked_booking : find 1 100 booked_store.bookings ≡ some made
unfolding initiate_booking expire_hold check_references check_owner
booked_booking = refl

one_booking_per_unit_example : made.id ≡ sales.new_id 0
one_booking_per_unit_example =
    one_booking_per_unit free booked_store 1 7 made.id (sales.new_id 0)
      (unit_of UnitStatus.booking_initiated) made made free-IsSafe
      (Reach.next Reach.start (Step.initiate 1 7 request sales refl booking_made)) booked_unit
      booked_booking booked_booking refl refl

-- The second request for the unit finds it taken.
second_booking : initiate_booking 1 7 request manager booked_store ≡ err (409, unit_already_booked)
unfolding initiate_booking expire_hold check_references check_owner
second_booking = refl

-- A unit with an open hold of the sales user, seen by the manager.
abbrev waiting : Store
waiting = with_unit UnitStatus.hard_hold (hold_of HoldStatus.pending_approval ∷ []) []

waiting-IsSound : IsSound waiting
waiting-IsSound = record {
  holds_keyed = (refl, tt);
  bookings_keyed = tt;
  held_once = λ o k u e. ground arith;
  occupied_once = λ o k u e. ground arith;
}

expire_hold-shows_example :
    (let r = expire_hold none 4_000 (unit_of UnitStatus.hard_hold) waiting in
      ((r.0 ≡ none) × (is_held r.1.status ≡ false))
      ⊎ ((h : UnitHold) × (r.0 ≡ some h) × (4_000 < h.expires_at)))
expire_hold-shows_example =
    expire_hold-shows none 4_000 1 7 (unit_of UnitStatus.hard_hold) waiting waiting-IsSound refl

abbrev approval : HoldApprovalDecision
approval = record { approved = true; notes = none }

abbrev approved_reply : Reply Store
approved_reply = after (done waiting) (decide_hold 1 30 approval manager waiting)

approval_made : decide_hold 1 30 approval manager waiting ≡ ok approved_reply
unfolding decide_hold decide_found expire_hold
approval_made = refl

approval_quiet : approved_reply.raised ≡ none
unfolding decide_hold decide_found expire_hold
approval_quiet = refl

decide_hold-four_eyes_example :
    (hold : UnitHold) × (find 1 30 waiting.holds ≡ some hold)
    × (hold.status ≡ HoldStatus.pending_approval)
    × (hold.held_by_user_id ≢ 3)
    × (find 1 30 approved_reply.store.holds ≡ some (approve approval manager hold))
decide_hold-four_eyes_example =
    decide_hold-four_eyes 1 30 approval manager waiting approved_reply waiting-IsSound approval_made
      approval_quiet

abbrev released_reply : Reply Store
released_reply = after (done waiting) (release_hold 1 7 "not wanted" manager waiting)

release_made : release_hold 1 7 "not wanted" manager waiting ≡ ok released_reply
unfolding release_hold release_found expire_hold
release_made = refl

release_hold-IsSound_example : IsSound released_reply.store
release_hold-IsSound_example =
    release_hold-IsSound 1 7 "not wanted" manager waiting released_reply waiting-IsSound
      release_made

-- Everything that is due at a later time.
abbrev expired_result : ℕ × Store
expired_result = after (0, waiting) (expire_due_holds none 200 none 6_000 waiting)

expiry_made : expire_due_holds none 200 none 6_000 waiting ≡ ok (1, expired_result.1)
unfolding expire_due_holds expire_loop expire_candidate mark_hold_expired candidates
expiry_made = refl

-- A unit that was booked again after a booking of it had been rejected.
abbrev rebooked : Store
rebooked = with_unit UnitStatus.booking_initiated [] (
    booking_of 40 BookingStatus.rejected none
    ∷ booking_of 41 BookingStatus.payment_pending (some 7)
    ∷ [])

rebooked-IsSound : IsSound rebooked
rebooked-IsSound = record {
  holds_keyed = tt;
  bookings_keyed = (refl, (refl, tt));
  held_once = λ o k u e. ground arith;
  occupied_once = λ o k u e. ground arith;
}

booking_route-rejected_example :
    (s' : Store) × (booking_route 1 40 false manager rebooked ≡ ok s')
    × (find 1 7 s'.units ≡ some (unit_of UnitStatus.cancelled_released))
    × (count_of (occupies 1 7) s'.bookings ≡ 1)
    × (¬ IsSound s')
booking_route-rejected_example =
    booking_route-rejected 1 40 manager rebooked (booking_of 40 BookingStatus.rejected none)
      (unit_of UnitStatus.booking_initiated) rebooked-IsSound refl refl refl refl refl

-- The one hold is due at the later time.
few_due : count_of (λ (g : UnitHold). is_due 6_000 g && of_org none g) waiting.holds ≤ 200
few_due = omega arith

expire_due_holds-runs_example :
    (n : ℕ) × (s' : Store) × (expire_due_holds none 200 none 6_000 waiting ≡ ok (n, s'))
    × HaveUnits s'.units s'.holds
    × (find 1 30 s'.holds ≡ some (expired_hold 6_000 (hold_of HoldStatus.pending_approval)))
expire_due_holds-runs_example =
    expire_due_holds-runs none 200 none 6_000 waiting 1 30 (hold_of HoldStatus.pending_approval)
      (refl, tt) (refl, tt) few_due refl
