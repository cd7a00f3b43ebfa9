-- ===== src/Bookings/Create.antt =====
-- `create_booking` of backend/app/services/bookings.py.
use real_estate_crm.Base.{
  ℕ, Bool, false, not, ◌&&◌, ◌||◌, Option, none, some, List, [], ◌∷◌, leb, ◌==◌, if◌then◌else◌,
  is_some, is_id, or_else,
}
use real_estate_crm.Base.Result.{Result, ok, ◌>>=◌, ◌>>◌, raise_if, or_raise, Reply, commit_first}
use real_estate_crm.Base.Result.Codes.{
  integrity_error, quotation_incomplete, quotation_not_accepted, hold_scope_mismatch,
  valid_hold_required, unit_not_held, unit_already_booked, kyc_not_verified, salesperson_inactive,
  broker_inactive, broker_project_not_assigned, partner_lead_protected, booking_amount_missing,
}
use real_estate_crm.Base.Table.{first, put, entity}
use real_estate_crm.Models.Enums.{
  UnitStatus, BookingStatus, LedgerEntryType, is_held, is_active_hold, is_accepted,
  is_approved_workflow, is_active_partner,
}
use real_estate_crm.Models.Rows.{
  InventoryUnit, UnitHold, Booking, Quotation, Customer, PartnerLead, PartnerProject,
}
use real_estate_crm.Models.Money.{CustomerLedger, booking_agreed_value}
use real_estate_crm.Models.Store.{
  Store, Context, audit, queue_in_app, unit_row, hold_row, quotation_row, customer_row, user_row,
  partner_row,
}
use real_estate_crm.Inventory.Holds.{with_status}
use real_estate_crm.Inventory.Desk.{occupies, converted_hold}
use real_estate_crm.Bookings.Documents.{expire_due_documents, has_verified_kyc}
use real_estate_crm.Bookings.Parts.{
  JointApplicantInput, PaymentPlanInput, FinancingInput, no_financing, add_applicants, add_plan,
  upsert_financing,
}

pub record BookingCreate : Type 0 where
  pub quotation_id : ℕ
  pub unit_hold_id : ℕ
  pub booking_number : ℕ
  pub salesperson_user_id : Option ℕ
  pub channel_partner_id : Option ℕ
  pub joint_applicants : List JointApplicantInput
  pub financing : Option FinancingInput
  pub payment_plan : PaymentPlanInput

-- The quotation, the hold and the unit must belong together, and the unit be free for a booking.
unfoldable pub check_offer :
    ℕ → InventoryUnit → Quotation → ℕ → UnitHold → Context → Store → Result (Unit {0})
check_offer org unit quote customer_id hold ctx s = do
  raise_if (not (is_accepted quote.status)) 409 quotation_not_accepted
  raise_if (not (hold.unit_id == unit.id) || not (is_id hold.customer_id customer_id)) 409
      hold_scope_mismatch
  raise_if (not (is_active_hold hold.status) || leb hold.expires_at ctx.now) 409 valid_hold_required
  raise_if (not (is_held unit.status)) 409 unit_not_held
  raise_if (is_some (first (occupies org unit.id) s.bookings)) 409 unit_already_booked

abbrev pub is_assigned : ℕ → ℕ → ℕ → PartnerProject → Bool
is_assigned org broker_id project_id p =
    (p.organization_id == org)
    && (p.channel_partner_id == broker_id)
    && (p.project_id == project_id)

-- `if payload.channel_partner_id: ...`
unfoldable pub check_broker : ℕ → Option ℕ → ℕ → Store → Result (Unit {0})
check_broker org none project_id s = ok tt
check_broker org (some k) project_id s = do
  broker ← entity org k s.partners
  raise_if (not (is_active_partner broker.status)) 422 broker_inactive
  raise_if (not (is_some (first (is_assigned org broker.id project_id) s.partner_projects))) 422
      broker_project_not_assigned

abbrev pub is_until : Option ℕ → ℕ → Bool
is_until none day = false
is_until (some d) day = leb day d

abbrev pub is_protected : ℕ → ℕ → ℕ → PartnerLead → Bool
is_protected org lead_id today p =
    (p.organization_id == org)
    && (p.lead_id == lead_id)
    && is_approved_workflow p.status
    && is_until p.protected_until today

abbrev is_by_other : Option PartnerLead → Option ℕ → Bool
is_by_other none partner_id = false
is_by_other (some p) partner_id = not (is_id partner_id p.channel_partner_id)

-- `if quote.lead_id: ...`
unfoldable pub check_protection : ℕ → Option ℕ → Option ℕ → Context → Store → Result (Unit {0})
check_protection org none partner_id ctx s = ok tt
check_protection org (some lead_id) partner_id ctx s =
    raise_if (is_by_other (first (is_protected org lead_id ctx.today) s.partner_leads) partner_id)
      409 partner_lead_protected

-- `quote.final_agreed_value or quote.total`: a value of zero counts as absent.
abbrev pub agreed_value : Option ℕ → ℕ → ℕ
agreed_value none total = total
agreed_value (some v) total = if v == 0 then total else v

abbrev pub new_booking :
    ℕ → InventoryUnit → Quotation → UnitHold → Customer → ℕ → ℕ → BookingCreate → Context → Booking
new_booking org unit quote hold customer salesperson_id amount payload ctx = record {
  organization_id = org;
  id = ctx.new_id 0;
  unit_id = unit.id;
  lead_id = quote.lead_id;
  customer_id = customer.id;
  quotation_id = some quote.id;
  unit_hold_id = some hold.id;
  booked_by_user_id = ctx.actor_user_id;
  salesperson_user_id = some salesperson_id;
  channel_partner_id = payload.channel_partner_id;
  verified_by_user_id = none;
  confirmed_by_user_id = none;
  booking_number = payload.booking_number;
  status = BookingStatus.payment_pending;
  booking_amount = amount;
  agreed_price = some (agreed_value quote.final_agreed_value quote.total);
  discount_amount = quote.discount_amount;
  currency = quote.currency;
  active_unit_key = some unit.id;
  booked_at = none;
  submitted_at = none;
  verification_completed_at = none;
  approval_requested_at = none;
  rejected_at = none;
  cancelled_at = none;
  rejection_reason = none;
}

abbrev pub agreed_entry : ℕ → Booking → Context → CustomerLedger
agreed_entry org b ctx = record {
  organization_id = org;
  id = ctx.new_id 3;
  customer_id = b.customer_id;
  booking_id = some b.id;
  payment_id = none;
  receipt_id = none;
  entry_type = LedgerEntryType.debit;
  amount = or_else b.agreed_price 0;
  currency = b.currency;
  idempotency_key = booking_agreed_value b.id;
  posted_at = ctx.now;
}

-- The applicants, the plan and the financing of a booking that has been flushed.
unfoldable pub add_parts : ℕ → Booking → Customer → BookingCreate → Context → Store → Result Store
unfolding add_applicants add_plan upsert_financing
add_parts org b customer payload ctx s = do
  s1 ← add_applicants org b.id customer payload.joint_applicants ctx s
  s2 ← add_plan org b payload.payment_plan ctx s1
  ok (upsert_financing org b.id (or_else payload.financing no_financing) ctx s2)

-- The conversion of the hold, the unit's status, the ledger entry, the audit and the notice.
abbrev pub convert_hold : ℕ → InventoryUnit → UnitHold → Booking → Context → Store → Store
convert_hold org unit hold b ctx s =
    let s1 = audit org (some ctx.actor_user_id) ctx.now "booking.created" "booking" b.id s in
    record s1 {
      holds = put (converted_hold ctx.now hold) s.holds;
      units = put (with_status UnitStatus.booking_initiated unit) s.units;
      ledger = agreed_entry org b ctx ∷ s.ledger;
      notifications =
          queue_in_app org (some b.booked_by_user_id ∷ b.salesperson_user_id ∷ []) "BOOKING_CREATED"
            "booking" b.id ctx.now s.notifications;
    }

-- A booking number that is taken fails at the flush of the booking, which no handler catches.
abbrev pub number_taken : ℕ → ℕ → Booking → Bool
number_taken o number b = (b.organization_id == o) && (b.booking_number == number)

unfoldable pub add_booking :
    ℕ
    → InventoryUnit
    → UnitHold
    → Booking
    → Customer
    → BookingCreate
    → Context
    → Store
    → Result Store
unfolding add_parts
add_booking org unit hold b customer payload ctx s = do
  s' ← add_parts org b customer payload ctx (record s { bookings = b ∷ s.bookings })
  ok (convert_hold org unit hold b ctx s')

-- The people of the booking, and the booking itself.
unfoldable pub open_booking :
    ℕ → Quotation → InventoryUnit → UnitHold → ℕ → BookingCreate → Context → Store → Result Store
unfolding add_booking
open_booking org quote unit hold customer_id payload ctx s = do
  customer ← entity org customer_id s.customers
  raise_if (not (has_verified_kyc org customer.id s)) 409 kyc_not_verified
  salesperson ← entity org (or_else payload.salesperson_user_id ctx.actor_user_id) s.users
  raise_if (not salesperson.is_active) 422 salesperson_inactive
  check_broker org payload.channel_partner_id quote.project_id s
  check_protection org quote.lead_id payload.channel_partner_id ctx s
  amount ← or_raise quote.booking_amount 409 booking_amount_missing
  raise_if (is_some (first (number_taken org payload.booking_number) s.bookings)) 500
      integrity_error
  let b = new_booking org unit quote hold customer salesperson.id amount payload ctx
  add_booking org unit hold b customer payload ctx s

unfoldable pub create_body : ℕ → BookingCreate → Context → Store → Result Store
unfolding open_booking
create_body org payload ctx s = do
  quote ← entity org payload.quotation_id s.quotations
  unit_id ← or_raise quote.unit_id 409 quotation_incomplete
  customer_id ← or_raise quote.customer_id 409 quotation_incomplete
  unit ← entity org unit_id s.units
  hold ← entity org payload.unit_hold_id s.holds
  check_offer org unit quote customer_id hold ctx s
  open_booking org quote unit hold customer_id payload ctx s

unfoldable pub create_booking : ℕ → BookingCreate → Context → Store → Reply Store
unfolding create_body expire_due_documents
create_booking org payload ctx s =
    let s' = expire_due_documents org ctx s in commit_first s' (create_body org payload ctx s')
