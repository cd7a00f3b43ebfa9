-- ===== src/Tests/Sample.antt =====
-- A small organization that the tests start from.
use real_estate_crm.Base.{ℕ, ◌+◌, true, Option, none, some, List, [], ◌∷◌}
use real_estate_crm.Base.Result.{Result, ok, err}
use real_estate_crm.Models.Enums.{
  UnitStatus, HoldStatus, HoldType, QuotationStatus, BookingStatus, DocumentStatus, RecordStatus,
  InstallmentStatus, PaymentStatus, ApprovalStatus,
}
use real_estate_crm.Models.Rows.{
  InventoryUnit, UnitHold, Booking, BookingApproval, Quotation, CustomerDocument,
}
use real_estate_crm.Models.Money.{PaymentPlan, Installment, Payment}
use real_estate_crm.Models.Store.{Store, Context, bookings_approve}

-- The state that a request leaves, or the one before it.
abbrev pub after : {S : Type 0} → S → Result S → S
after s (ok t) = t
after s (err e) = s

abbrev pub sales : Context
sales = record { actor_user_id = 2; now = 1_000; today = 20; new_id = λ n. 100 + n }

abbrev pub manager : Context
manager = record { actor_user_id = 3; now = 2_000; today = 20; new_id = λ n. 200 + n }

abbrev pub unit_of : UnitStatus → InventoryUnit
unit_of status = record {
  organization_id = 1;
  id = 7;
  project_id = 4;
  status = status;
  updated_at = 0;
}

abbrev pub hold_of : HoldStatus → UnitHold
hold_of status = record {
  organization_id = 1;
  id = 30;
  unit_id = 7;
  customer_id = some 5;
  lead_id = none;
  held_by_user_id = 2;
  approved_by_user_id = none;
  hold_type = some HoldType.hard_hold;
  hold_reason = none;
  status = status;
  starts_at = 0;
  expires_at = 5_000;
  released_at = none;
  approved_at = none;
  rejected_at = none;
  approval_notes = none;
  release_reason = none;
  active_unit_key = some 7;
}

abbrev pub booking_of : ℕ → BookingStatus → Option ℕ → Booking
booking_of k status key = record {
  organization_id = 1;
  id = k;
  unit_id = 7;
  lead_id = none;
  customer_id = 5;
  quotation_id = some 8;
  unit_hold_id = some 30;
  booked_by_user_id = 2;
  salesperson_user_id = some 2;
  channel_partner_id = none;
  verified_by_user_id = none;
  confirmed_by_user_id = none;
  booking_number = k;
  status = status;
  booking_amount = 100;
  agreed_price = some 1_000;
  discount_amount = 0;
  currency = 1;
  active_unit_key = key;
  booked_at = none;
  submitted_at = none;
  verification_completed_at = none;
  approval_requested_at = none;
  rejected_at = none;
  cancelled_at = none;
  rejection_reason = none;
}

abbrev pub quotation : Quotation
quotation = record {
  organization_id = 1;
  id = 8;
  lead_id = none;
  customer_id = some 5;
  project_id = 4;
  unit_id = some 7;
  cost_sheet_id = none;
  parent_quotation_id = none;
  quotation_number = 40;
  version = 1;
  status = QuotationStatus.accepted;
  currency = 1;
  subtotal = 1_000;
  discount_amount = 0;
  tax_amount = 0;
  total = 1_000;
  final_agreed_value = none;
  booking_amount = some 100;
  created_by_user_id = 2;
  valid_until = 30;
  issued_at = none;
}

abbrev pub passport : CustomerDocument
passport = record {
  organization_id = 1;
  id = 9;
  customer_id = 5;
  is_current = true;
  status = DocumentStatus.verified;
  expiry_date = some 20;
  reviewed_at = none;
}

abbrev pub step_for : ApprovalStatus → BookingApproval
step_for status = record {
  organization_id = 1;
  id = 50;
  booking_id = 40;
  requested_by_user_id = 2;
  approver_user_id = 3;
  step_number = 1;
  status = status;
  comments = none;
  decided_at = none;
}

abbrev pub plan : PaymentPlan
plan = record {
  organization_id = 1;
  id = 60;
  booking_id = 40;
  name = 1;
  status = RecordStatus.active;
  currency = 1;
  total_amount = 1_000;
  effective_from = 0;
  created_at = 0;
}

abbrev pub installment_of : ℕ → ℕ → ℕ → InstallmentStatus → Installment
installment_of k amount paid status = record {
  organization_id = 1;
  id = k;
  payment_plan_id = 60;
  sequence = k;
  due_date = 10;
  amount = amount;
  paid_amount = paid;
  status = status;
}

abbrev pub payment_of : PaymentStatus → Payment
payment_of status = record {
  organization_id = 1;
  id = 70;
  booking_id = 40;
  customer_id = 5;
  installment_id = none;
  verified_by_user_id = none;
  amount = 300;
  currency = 1;
  status = status;
  idempotency_key = 11;
  paid_at = some 500;
  verified_at = none;
  created_at = 500;
}

abbrev pub empty : Store
empty = record {
  units = [];
  holds = [];
  bookings = [];
  approvals = [];
  applicants = [];
  financings = [];
  quotations = quotation ∷ [];
  customers = record { organization_id = 1; id = 5; full_name = "Asha" } ∷ [];
  leads = [];
  users =
      record { organization_id = 1; id = 2; is_active = true }
      ∷ record { organization_id = 1; id = 3; is_active = true }
      ∷ [];
  grants = record { organization_id = 1; user_id = 3; code = bookings_approve } ∷ [];
  documents = passport ∷ [];
  partners = [];
  partner_projects = [];
  partner_leads = [];
  structures = [];
  payouts = [];
  commissions = [];
  plans = [];
  installments = [];
  demands = [];
  payments = [];
  receipts = [];
  allocations = [];
  reconciliations = [];
  charges = [];
  ledger = [];
  refunds = [];
  audits = [];
  notifications = [];
  pricing = record {
    unit_prices = [];
    floors = [];
    price_lists = [];
    sheets = [];
    items = [];
    discounts = [];
    quotation_items = [];
    user_roles = [];
  };
  post_sales = record { cancellations = []; transfers = []; agreements = [] };
}

-- A store with one unit, and some holds and bookings.
abbrev pub with_unit : UnitStatus → List UnitHold → List Booking → Store
with_unit status holds bookings = record empty {
  units = unit_of status ∷ [];
  holds = holds;
  bookings = bookings;
}
