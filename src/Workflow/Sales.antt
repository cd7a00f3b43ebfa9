-- ===== src/Workflow/Sales.antt =====
-- The requests that leave the units, holds and bookings as they are: the applicants of a booking
-- (backend/app/services/bookings.py), collections (finance.py), and the steps of a cancellation and
-- of a transfer before their completion (post_sales.py).
use real_estate_crm.Base.{ℕ, ◌≡◌, refl, String, Bool, List, arith}
use real_estate_crm.Base.Result.{ok}
use real_estate_crm.Models.Store.{Store, Context}
use real_estate_crm.Bookings.Sound.{SameInventory}
use real_estate_crm.Bookings.Parts.{JointApplicantInput}
use real_estate_crm.Bookings.Applicants.{replace_joint_applicants}
use real_estate_crm.Finance.Payments.{
  DemandCreate, create_demand, CollectionPaymentCreate, collect_payment, ReconciliationCreate,
  reconcile_payment,
}
use real_estate_crm.Finance.Charges.{ChargeCreate, create_charge, waive_charge}
use real_estate_crm.Finance.Refunds.{RefundCreate, request_refund, decide_refund, process_refund}
use real_estate_crm.Finance.RefundLimit.{process_refund-inv}
use real_estate_crm.PostSales.Cancel.{
  Deduction, request_cancellation, review_cancellation, decide_cancellation,
}
use real_estate_crm.PostSales.Transfer.{
  UnitTransferCreate, request_transfer, review_transfer, decide_transfer,
}

-- One such request of organization `org` that the service accepts.
pub data Sale (s s' : Store) : Type 0 where
  replace_joint :
      (org booking_id : ℕ) (items : List JointApplicantInput) (ctx : Context)
      → replace_joint_applicants org booking_id items ctx s ≡ ok s'
      → Sale s s'
  demand :
      (org booking_id : ℕ) (payload : DemandCreate) (ctx : Context)
      → create_demand org booking_id payload ctx s ≡ ok s'
      → Sale s s'
  collect :
      (org booking_id : ℕ) (payload : CollectionPaymentCreate) (ctx : Context)
      → collect_payment org booking_id payload ctx s ≡ ok s'
      → Sale s s'
  reconcile :
      (org payment_id : ℕ) (payload : ReconciliationCreate) (ctx : Context)
      → reconcile_payment org payment_id payload ctx s ≡ ok s'
      → Sale s s'
  charge :
      (org installment_id : ℕ) (payload : ChargeCreate) (ctx : Context)
      → create_charge org installment_id payload ctx s ≡ ok s'
      → Sale s s'
  waive :
      (org charge_id : ℕ) (reason : String) (ctx : Context)
      → waive_charge org charge_id reason ctx s ≡ ok s'
      → Sale s s'
  ask_refund :
      (org payment_id : ℕ) (payload : RefundCreate) (ctx : Context)
      → request_refund org payment_id payload ctx s ≡ ok s'
      → Sale s s'
  judge_refund :
      (org refund_id : ℕ) (approved : Bool) (notes : String) (ctx : Context)
      → decide_refund org refund_id approved notes ctx s ≡ ok s'
      → Sale s s'
  pay_refund :
      (org refund_id : ℕ) (reference : String) (ctx : Context)
      → process_refund org refund_id reference ctx s ≡ ok s'
      → Sale s s'
  ask_cancellation :
      (org booking_id : ℕ) (reason : String) (ctx : Context)
      → request_cancellation org booking_id reason ctx s ≡ ok s'
      → Sale s s'
  check_cancellation :
      (org cancellation_id : ℕ) (deduction : Deduction) (notes : String) (ctx : Context)
      → review_cancellation org cancellation_id deduction notes ctx s ≡ ok s'
      → Sale s s'
  judge_cancellation :
      (org cancellation_id : ℕ) (approved : Bool) (notes : String) (ctx : Context)
      → decide_cancellation org cancellation_id approved notes ctx s ≡ ok s'
      → Sale s s'
  ask_transfer :
      (org booking_id : ℕ) (payload : UnitTransferCreate) (ctx : Context)
      → request_transfer org booking_id payload ctx s ≡ ok s'
      → Sale s s'
  check_transfer :
      (org transfer_id : ℕ) (notes : String) (ctx : Context)
      → review_transfer org transfer_id notes ctx s ≡ ok s'
      → Sale s s'
  judge_transfer :
      (org transfer_id : ℕ) (approved : Bool) (notes : String) (ctx : Context)
      → decide_transfer org transfer_id approved notes ctx s ≡ ok s'
      → Sale s s'

pub Sale-SameInventory : (s s' : Store) → Sale s s' → SameInventory s s'
unfolding replace_joint_applicants create_demand collect_payment reconcile_payment create_charge
    waive_charge request_refund decide_refund request_cancellation review_cancellation
    decide_cancellation request_transfer review_transfer decide_transfer
Sale-SameInventory s s' (replace_joint org booking_id items ctx h) = ground arith
Sale-SameInventory s s' (demand org booking_id payload ctx h) = ground arith
Sale-SameInventory s s' (collect org booking_id payload ctx h) = ground arith
Sale-SameInventory s s' (reconcile org payment_id payload ctx h) = ground arith
Sale-SameInventory s s' (charge org installment_id payload ctx h) = ground arith
Sale-SameInventory s s' (waive org charge_id reason ctx h) = ground arith
Sale-SameInventory s s' (ask_refund org payment_id payload ctx h) = ground arith
Sale-SameInventory s s' (judge_refund org refund_id approved notes ctx h) = ground arith
Sale-SameInventory s s' (pay_refund org refund_id reference ctx h) =
    let (r, booking_id, payments, result, at, approved, booked, taken, stored) =
      process_refund-inv org ctx s refund_id reference h in
    rw stored (refl, refl, refl)
Sale-SameInventory s s' (ask_cancellation org booking_id reason ctx h) = ground arith
Sale-SameInventory s s' (check_cancellation org cancellation_id deduction notes ctx h) =
    ground arith
Sale-SameInventory s s' (judge_cancellation org cancellation_id approved notes ctx h) = ground arith
Sale-SameInventory s s' (ask_transfer org booking_id payload ctx h) = ground arith
Sale-SameInventory s s' (check_transfer org transfer_id notes ctx h) = ground arith
Sale-SameInventory s s' (judge_transfer org transfer_id approved notes ctx h) = ground arith
