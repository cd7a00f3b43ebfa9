-- ===== src/Inventory/Desk.antt =====
-- Unit status changes and the short booking path: `transition_unit_status`, `initiate_booking` and
-- `transition_booking` of backend/app/services/inventory.py, and the guard of the booking route in
-- backend/app/api/v1/inventory.py.
use real_estate_crm.Base.{
  ℕ, Bool, true, false, not, ◌&&◌, ◌||◌, Option, none, some, ◌∷◌, ◌==◌, if◌then◌else◌, is_some,
  is_id, none_or,
}
use real_estate_crm.Base.Result.{Result, ok, err, ◌>>=◌, ◌>>◌, raise_if, Reply}
use real_estate_crm.Base.Result.Codes.{
  unit_already_booked, hold_approval_pending, invalid_quotation, hold_owner_mismatch,
  booking_finalized, invalid_booking_status, invalid_unit_status_transition,
  booking_approval_required,
}
use real_estate_crm.Base.Table.{first, put, entity}
use real_estate_crm.Models.Enums.{
  UnitStatus, HoldStatus, BookingStatus, is_pending_approval, is_booking_initiated,
}
use real_estate_crm.Models.Rows.{InventoryUnit, UnitHold, Booking, Quotation}
use real_estate_crm.Models.Store.{
  Store, Context, audit, unit_row, hold_row, booking_row, quotation_row, customer_row, lead_row,
}
use real_estate_crm.Inventory.Expiry.{expire_hold, view_units}
use real_estate_crm.Inventory.Holds.{optional_entity, with_status}

-- `target in allowed.get(unit.status, set())`
abbrev pub unit_allowed : UnitStatus → UnitStatus → Bool
unit_allowed UnitStatus.cancelled_released UnitStatus.available = true
unit_allowed UnitStatus.booked UnitStatus.sold = true
unit_allowed _ _ = false

abbrev pub moved_unit : UnitStatus → ℕ → InventoryUnit → InventoryUnit
moved_unit target now unit = record unit { status = target; updated_at = now }

abbrev pub store_status : ℕ → InventoryUnit → UnitStatus → Context → Store → Store
store_status org unit target ctx s =
    let s1 = audit org (some ctx.actor_user_id) ctx.now "unit.status.changed" "unit" unit.id s in
    record s1 { units = put (moved_unit target ctx.now unit) s.units }

unfoldable pub transition_unit_status : ℕ → ℕ → UnitStatus → Context → Store → Result (Reply Store)
transition_unit_status org unit_id target ctx s = do
  unit ← entity org unit_id s.units
  raise_if (not (unit_allowed unit.status target)) 409 invalid_unit_status_transition
  ok (view_units org ctx.now (store_status org unit target ctx s))

pub record BookingInitiate : Type 0 where
  pub customer_id : ℕ
  pub lead_id : Option ℕ
  pub quotation_id : Option ℕ
  pub booking_number : ℕ
  pub booking_amount : ℕ
  pub currency : ℕ

-- `Booking.active_unit_key == k`, in organization `o`: the booking occupies the unit.
abbrev pub occupies : ℕ → ℕ → Booking → Bool
occupies o k b = (b.organization_id == o) && is_id b.active_unit_key k

-- The unique constraints of the bookings.
abbrev pub booking_clashes : ℕ → ℕ → ℕ → Booking → Bool
booking_clashes o number k b =
    (b.organization_id == o) && ((b.booking_number == number) || is_id b.active_unit_key k)

abbrev pub is_bookable : UnitStatus → Bool
is_bookable UnitStatus.available = true
is_bookable UnitStatus.soft_hold = true
is_bookable UnitStatus.hard_hold = true
is_bookable _ = false

-- `if hold and hold.status == HoldStatus.PENDING_APPROVAL`
abbrev pub awaits_approval : Option UnitHold → Bool
awaits_approval none = false
awaits_approval (some h) = is_pending_approval h.status

abbrev pub is_for_other_customer : Option UnitHold → ℕ → Bool
is_for_other_customer none customer_id = false
is_for_other_customer (some h) customer_id = not (none_or h.customer_id customer_id)

abbrev pub is_for_other_lead : Option UnitHold → Option ℕ → Bool
is_for_other_lead none lead_id = false
is_for_other_lead (some h) none = false
is_for_other_lead (some h) (some lead_id) = not (none_or h.lead_id lead_id)

-- The quotation that the payload names must match the booking.
abbrev pub check_quotation :
    ℕ → BookingInitiate → InventoryUnit → Option Quotation → Result (Unit {0})
check_quotation org payload unit none = ok tt
check_quotation org payload unit (some q) =
    raise_if
      (not (none_or q.customer_id payload.customer_id) || not (q.project_id == unit.project_id)) 400
      invalid_quotation

-- The records that the payload names.
unfoldable pub check_references : ℕ → BookingInitiate → InventoryUnit → Store → Result (Unit {0})
check_references org payload unit s = do
  customer ← entity org payload.customer_id s.customers
  lead ← optional_entity org payload.lead_id s.leads
  quotation ← optional_entity org payload.quotation_id s.quotations
  check_quotation org payload unit quotation

-- The hold must be for the customer and the lead of the booking.
unfoldable pub check_owner : Option UnitHold → BookingInitiate → Result (Unit {0})
check_owner hold payload = do
  raise_if (is_for_other_customer hold payload.customer_id) 409 hold_owner_mismatch
  raise_if (is_for_other_lead hold payload.lead_id) 409 hold_owner_mismatch

abbrev pub converted_hold : ℕ → UnitHold → UnitHold
converted_hold now hold = record hold {
  status = HoldStatus.converted;
  active_unit_key = none;
  released_at = some now;
}

-- `if hold: ...` of the conversion.
abbrev pub convert : ℕ → Option UnitHold → Context → Store → Store
convert org none ctx s = s
convert org (some hold) ctx s =
    let s1 =
      audit org (some ctx.actor_user_id) ctx.now "unit.hold.converted" "unit_hold" hold.id s in
    record s1 { holds = put (converted_hold ctx.now hold) s.holds }

abbrev pub draft_booking : ℕ → InventoryUnit → BookingInitiate → Context → Booking
draft_booking org unit payload ctx = record {
  organization_id = org;
  id = ctx.new_id 0;
  unit_id = unit.id;
  lead_id = payload.lead_id;
  customer_id = payload.customer_id;
  quotation_id = payload.quotation_id;
  unit_hold_id = none;
  booked_by_user_id = ctx.actor_user_id;
  salesperson_user_id = none;
  channel_partner_id = none;
  verified_by_user_id = none;
  confirmed_by_user_id = none;
  booking_number = payload.booking_number;
  status = BookingStatus.draft;
  booking_amount = payload.booking_amount;
  agreed_price = none;
  discount_amount = 0;
  currency = payload.currency;
  active_unit_key = some unit.id;
  booked_at = none;
  submitted_at = none;
  verification_completed_at = none;
  approval_requested_at = none;
  rejected_at = none;
  cancelled_at = none;
  rejection_reason = none;
}

abbrev pub store_booking : ℕ → InventoryUnit → Booking → Context → Store → Store
store_booking org unit booking ctx s =
    let s1 =
      audit org (some ctx.actor_user_id) ctx.now "booking.initiated" "booking" booking.id s in
    record s1 {
      bookings = booking ∷ s.bookings;
      units = put (with_status UnitStatus.booking_initiated unit) s.units;
    }

unfoldable pub initiate_booking : ℕ → ℕ → BookingInitiate → Context → Store → Result Store
initiate_booking org unit_id payload ctx s = do
  found ← entity org unit_id s.units
  let (hold, unit, s1) = expire_hold (some ctx.actor_user_id) ctx.now found s
  raise_if (is_some (first (occupies org unit.id) s1.bookings) || not (is_bookable unit.status)) 409
      unit_already_booked
  raise_if (awaits_approval hold) 409 hold_approval_pending
  check_references org payload unit s1
  check_owner hold payload
  raise_if (is_some (first (booking_clashes org payload.booking_number unit.id) s1.bookings)) 409
      unit_already_booked
  ok (store_booking org unit (draft_booking org unit payload ctx) ctx (convert org hold ctx s1))

-- `booking.status in {BookingStatus.CONFIRMED, BookingStatus.CANCELLED}`
abbrev pub is_finalized : BookingStatus → Bool
is_finalized BookingStatus.confirmed = true
is_finalized BookingStatus.cancelled = true
is_finalized _ = false

abbrev pub confirm : ℕ → Booking → Booking
confirm now b = record b { status = BookingStatus.confirmed; booked_at = some now }

abbrev pub cancel : Booking → Booking
cancel b = record b { status = BookingStatus.cancelled; active_unit_key = none }

abbrev pub change_booking : ℕ → Booking → InventoryUnit → UnitStatus → Context → Store → Store
change_booking org booking unit status ctx s =
    let s1 =
      audit org (some ctx.actor_user_id) ctx.now "booking.status.changed" "booking" booking.id s in
    record s1 { bookings = put booking s.bookings; units = put (with_status status unit) s.units }

-- The branches on `target`.
abbrev pub to_target : ℕ → Booking → InventoryUnit → BookingStatus → Context → Store → Result Store
to_target org booking unit BookingStatus.confirmed ctx s = do
  raise_if (not (is_id booking.active_unit_key unit.id) || not (is_booking_initiated unit.status))
      409 unit_already_booked
  ok (change_booking org (confirm ctx.now booking) unit UnitStatus.booked ctx s)
to_target org booking unit BookingStatus.cancelled ctx s =
    ok (change_booking org (cancel booking) unit UnitStatus.cancelled_released ctx s)
to_target org booking unit _ ctx s = err (400, invalid_booking_status)

unfoldable pub transition_booking : ℕ → ℕ → BookingStatus → Context → Store → Result Store
transition_booking org booking_id target ctx s = do
  booking ← entity org booking_id s.bookings
  unit ← entity org booking.unit_id s.units
  raise_if (is_finalized booking.status) 409 booking_finalized
  to_target org booking unit target ctx s

-- The route: `status` of the payload is "CONFIRMED" or "CANCELLED".
unfoldable pub booking_route : ℕ → ℕ → (confirmed : Bool) → Context → Store → Result Store
unfolding transition_booking
booking_route org booking_id confirmed ctx s =
    if confirmed
    then err (409, booking_approval_required)
    else transition_booking org booking_id BookingStatus.cancelled ctx s
