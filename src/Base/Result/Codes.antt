-- ===== src/Base/Result/Codes.antt =====
-- The error codes that the modelled services raise, by their text in the source.
pub data Code : Type 0 where
  resource_not_found integrity_error : Code
  unit_unavailable invalid_expiry invalid_salesperson hold_approval_not_pending : Code
  self_approval_not_allowed hold_unit_state_mismatch no_active_hold : Code
  unit_already_booked hold_approval_pending invalid_quotation hold_owner_mismatch : Code
  booking_finalized invalid_booking_status invalid_unit_status_transition : Code
  booking_approval_required : Code
  duplicate_applicant payment_plan_total_mismatch quotation_incomplete : Code
  quotation_not_accepted hold_scope_mismatch valid_hold_required unit_not_held : Code
  kyc_not_verified salesperson_inactive broker_inactive broker_project_not_assigned : Code
  partner_lead_protected booking_amount_missing booking_conflict : Code
  booking_flow_required invalid_booking_transition booking_amount_not_paid : Code
  payment_plan_locked financing_locked payment_not_allowed idempotency_conflict : Code
  installment_booking_mismatch payment_exceeds_agreed_value payment_finalized : Code
  finance_workflow_required booking_not_in_verification booking_amount_not_verified : Code
  financing_not_ready invalid_booking_approver approval_already_requested : Code
  approval_finalized approver_mismatch unit_booking_lock_lost : Code
  commission_structure_missing : Code
  installment_already_paid demand_number_exists reconciliation_required : Code
  payment_plan_required unallocated_payment no_chargeable_outstanding : Code
  zero_financial_charge charge_finalized payment_not_refundable refund_exceeds_payment : Code
  refund_finalized refund_not_approved booking_applicants_locked : Code
  invalid_quotation_transition : Code
  price_list_project_mismatch price_list_not_effective invalid_pricing_rule
        base_price_not_configured :
      Code
  unit_area_required invalid_parking_option invalid_amenity_charge invalid_final_value : Code
  invalid_discount discount_limit_exceeded booking_amount_not_configured : Code
  invalid_booking_amount approval_matrix_not_configured discount_reason_required : Code
  approval_not_pending approver_not_in_matrix cost_sheet_not_approved invalid_validity : Code
  accepted_quotation_immutable revision_scope_mismatch : Code
  duplicate_quotation version_conflict : Code
  booking_not_cancellable active_cancellation_exists invalid_cancellation_transition : Code
  booking_state_changed payment_state_changed booking_not_transferable : Code
  invalid_transfer_quotation currency_mismatch target_unit_unavailable active_transfer_exists : Code
  commission_not_approvable partner_inactive commission_not_payable : Code
  payout_currency_mismatch payout_conflict payout_finalized payout_not_approved : Code
  payout_amount_changed : Code
  invalid_transfer_transition transfer_terms_changed payments_exceed_new_price : Code
