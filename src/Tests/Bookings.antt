-- ===== src/Tests/Bookings.antt =====
-- The controlled booking workflow at concrete requests.
use real_estate_crm.Base.{is_some, ◌≡◌, refl, true, false, none, some, [], ◌∷◌, arith}
use real_estate_crm.Base.Result.{ok, Reply}
use real_estate_crm.Base.Table.{find, count_of, first, sum_of}
use real_estate_crm.Models.Enums.{
  UnitStatus, HoldStatus, BookingStatus, ApprovalStatus, DocumentStatus, PaymentStatus,
}
use real_estate_crm.Models.Rows.{InventoryUnit, BookingApproval, CustomerDocument}
use real_estate_crm.Models.Money.{Installment, PaymentPlan}
use real_estate_crm.Models.Store.{Store, unit_row, hold_row, booking_row, approval_row}
use real_estate_crm.Inventory.Sound.Core.{IsSound}
use real_estate_crm.Bookings.Documents.{
  expire_due_documents, is_due_document, has_verified_kyc, is_kyc, is_past, utc_date,
}
use real_estate_crm.Bookings.Parts.{
  JointApplicantInput, PaymentPlanInput, add_plan, add_applicants, upsert_financing, payment_total,
}
use real_estate_crm.Bookings.Applicants.{
  has_sequence, new_applicants, replace_joint_applicants, replace_joint_applicants-clash,
}
use real_estate_crm.Bookings.Create.{
  BookingCreate, create_booking, create_body, check_offer, check_broker, check_protection,
  open_booking, add_booking, add_parts,
}
use real_estate_crm.Bookings.Flow.{
  BookingPaymentCreate, create_payment, submit_payment, check_installment,
}
use real_estate_crm.Bookings.Approval.{
  decide_approval, approve_step, is_pending_of, request_approval, request_body, check_approvers,
  approval_steps, is_approval_of, confirmed_booking,
}
use real_estate_crm.Partners.{accrue_booking_commission}
use real_estate_crm.Bookings.Made.{create_booking-IsSound}
use real_estate_crm.Bookings.Limit.{
  IsCapped, create_payment-IsCapped, is_in_plan, is_active_plan_of, add_plan-covers, IsSeparated,
  request_approval-IsSeparated,
}
use real_estate_crm.Bookings.Decision.{has_verified_kyc-in_date, decide_approval-confirmed}
use real_estate_crm.Tests.Sample.{
  after, sales, manager, hold_of, booking_of, with_unit, step_for, empty, payment_of,
}

abbrev offered : Store
offered = with_unit UnitStatus.hard_hold (hold_of HoldStatus.active ∷ []) []

offered-IsSound : IsSound offered
offered-IsSound = record {
  holds_keyed = (refl, tt);
  bookings_keyed = tt;
  held_once = λ o k u e. ground arith;
  occupied_once = λ o k u e. ground arith;
}

abbrev plan_request : PaymentPlanInput
plan_request = record {
  name = 1;
  effective_from = 0;
  installments =
      record { due_date = 10; amount = 400 } ∷ record { due_date = 40; amount = 600 } ∷ [];
}

abbrev booking_request : BookingCreate
booking_request = record {
  quotation_id = 8;
  unit_hold_id = 30;
  booking_number = 77;
  salesperson_user_id = none;
  channel_partner_id = none;
  joint_applicants = [];
  financing = none;
  payment_plan = plan_request;
}

-- The request succeeds.
created : (create_booking 1 booking_request sales offered).raised ≡ none
unfolding create_booking create_body check_offer check_broker check_protection open_booking
    add_booking add_parts add_applicants add_plan expire_due_documents has_verified_kyc
    is_due_document upsert_financing
created = refl

create_booking-IsSound_example : IsSound (create_booking 1 booking_request sales offered).store
create_booking-IsSound_example =
    create_booking-IsSound 1 booking_request sales offered offered-IsSound refl

abbrev paying : Store
paying =
    with_unit UnitStatus.booking_initiated []
      (booking_of 40 BookingStatus.payment_pending (some 7) ∷ [])

paying-IsCapped : IsCapped paying
unfolding payment_total
paying-IsCapped o k b e = ground arith

abbrev payment_request : BookingPaymentCreate
payment_request = record {
  installment_id = none;
  amount = 300;
  idempotency_key = 12;
  paid_at = none;
}

abbrev paid : Store
paid = after paying (create_payment 1 40 payment_request sales paying)

payment_made : create_payment 1 40 payment_request sales paying ≡ ok paid
unfolding create_payment submit_payment check_installment payment_total
payment_made = refl

create_payment-IsCapped_example : IsCapped paid
create_payment-IsCapped_example =
    create_payment-IsCapped 1 40 sales paying payment_request paid paying-IsCapped payment_made

abbrev planned : Store
planned =
    after paying
      (add_plan 1 (booking_of 40 BookingStatus.payment_pending (some 7)) plan_request sales paying)

plan_made :
    add_plan 1 (booking_of 40 BookingStatus.payment_pending (some 7)) plan_request sales paying
    ≡ ok planned
unfolding add_plan
plan_made = refl

add_plan-covers_example :
    (p : PaymentPlan) × (first (is_active_plan_of 1 40) planned.plans ≡ some p)
    × (count_of (is_active_plan_of 1 40) planned.plans ≡ 1)
    × (sum_of (is_in_plan 1 p.id) (λ (i : Installment). i.amount) planned.installments ≡ 1_000)
add_plan-covers_example =
    add_plan-covers 1 sales (booking_of 40 BookingStatus.payment_pending (some 7)) plan_request
      paying planned refl refl plan_made

-- A booking that is paid and verified, beside another one that waits for its approval.
abbrev ready : Store
ready =
    record (with_unit UnitStatus.booking_initiated []
      (booking_of 40 BookingStatus.verification (some 7) ∷ [])) {
        payments = payment_of PaymentStatus.completed ∷ [];
        approvals = record (step_for ApprovalStatus.pending) { booking_id = 41 } ∷ [];
      }

-- The request is accepted and adds a step.
abbrev ready_reply : Reply Store
ready_reply = request_approval 1 40 (3 ∷ []) none sales ready

asking :
    (ready_reply.raised ≡ none)
    × (count_of (is_approval_of 1 40) ready_reply.store.approvals ≡ 1)
    × (count_of (is_approval_of 1 41) ready_reply.store.approvals ≡ 1)
unfolding request_approval request_body expire_due_documents has_verified_kyc check_approvers
    payment_total approval_steps
asking = (refl, refl, refl)

request_approval-IsSeparated_example :
    IsSeparated (request_approval 1 40 (3 ∷ []) none sales ready).store.approvals
request_approval-IsSeparated_example =
    request_approval-IsSeparated 1 40 none sales (3 ∷ []) ready (omega arith, tt)

abbrev asked : Store
asked =
    record (with_unit UnitStatus.booking_initiated []
      (booking_of 40 BookingStatus.approval (some 7) ∷ [])) {
        approvals = step_for ApprovalStatus.pending ∷ [];
      }

abbrev approved : Store
approved = after asked (decide_approval 1 40 50 true "fine" manager asked)

approval_made : decide_approval 1 40 50 true "fine" manager asked ≡ ok approved
unfolding decide_approval approve_step accrue_booking_commission
approval_made = refl

approved_booking :
    find 1 40 approved.bookings
    ≡ some (confirmed_booking manager (booking_of 40 BookingStatus.approval (some 7)))
unfolding decide_approval approve_step accrue_booking_commission
approved_booking = refl

decide_approval-confirmed_example :
    (count_of (is_pending_of 1 40) approved.approvals ≡ 0)
    × ((confirmed_booking manager
          (booking_of 40 BookingStatus.approval (some 7))).confirmed_by_user_id
        ≡ some 3)
    × ((a : BookingApproval) × (find 1 50 asked.approvals ≡ some a) × (a.approver_user_id ≡ 3))
    × ((u : InventoryUnit) × (find 1 7 approved.units ≡ some u) × (u.status ≡ UnitStatus.booked))
decide_approval-confirmed_example =
    decide_approval-confirmed 1 40 50 true "fine" manager asked approved
      (confirmed_booking manager (booking_of 40 BookingStatus.approval (some 7))) approval_made
      approved_booking refl

verified : has_verified_kyc 1 5 (expire_due_documents 1 sales empty) ≡ true
unfolding has_verified_kyc expire_due_documents is_due_document
verified = refl

has_verified_kyc-in_date_example :
    (d : CustomerDocument) × (first (is_kyc 1 5) (expire_due_documents 1 sales empty).documents
      ≡ some d)
    × (d.customer_id ≡ 5)
    × (d.status ≡ DocumentStatus.verified)
    × (is_past d.expiry_date (utc_date 1_000) ≡ false)
has_verified_kyc-in_date_example = has_verified_kyc-in_date 1 5 sales empty verified

abbrev partner_item : JointApplicantInput
partner_item = record { customer_id = none; full_name = "Ravi" }

abbrev joined : Store
joined = after paying (replace_joint_applicants 1 40 (partner_item ∷ []) sales paying)

replacement_made : replace_joint_applicants 1 40 (partner_item ∷ []) sales paying ≡ ok joined
unfolding replace_joint_applicants new_applicants
replacement_made = refl

second_sequence : is_some (first (has_sequence 1 40 2) joined.applicants) ≡ true
unfolding replace_joint_applicants new_applicants
second_sequence = refl

replace_joint_applicants-clash_example :
    ¬ (replace_joint_applicants 1 40 (partner_item ∷ []) manager joined ≡ ok joined)
replace_joint_applicants-clash_example =
    replace_joint_applicants-clash 1 40 partner_item [] manager joined joined second_sequence
