-- ===== src/Inventory/Holds.antt =====
-- The life of a hold: `create_hold`, `decide_hold` and `release_hold` of
-- backend/app/services/inventory.py.
use real_estate_crm.Base.{
  ℕ, String, Bool, false, not, ◌&&◌, ◌||◌, Option, none, some, List, ◌∷◌, leb, ◌==◌, if◌then◌else◌,
  is_some, is_id, or_else,
}
use real_estate_crm.Base.Result.{
  Result, ok, ◌>>=◌, ◌>>◌, raise_if, Reply, done, raised_after_commit,
}
use real_estate_crm.Base.Result.Codes.{
  unit_unavailable, invalid_expiry, invalid_salesperson, hold_approval_not_pending,
  self_approval_not_allowed, hold_unit_state_mismatch, no_active_hold,
}
use real_estate_crm.Base.Table.{Row, first, put, entity}
use real_estate_crm.Models.Enums.{
  UnitStatus, HoldStatus, HoldType, is_available, is_pending_approval, is_hold_type, of_hold_type,
}
use real_estate_crm.Models.Rows.{InventoryUnit, UnitHold}
use real_estate_crm.Models.Store.{
  Store, Context, audit, unit_row, hold_row, customer_row, lead_row, user_row,
}
use real_estate_crm.Inventory.Expiry.{expire_hold, view_units}

pub record UnitHoldCreate : Type 0 where
  pub hold_type : HoldType
  pub expires_at : ℕ
  pub hold_reason : String
  pub customer_id : ℕ
  pub lead_id : Option ℕ
  pub salesperson_user_id : Option ℕ

-- `status` is "APPROVED" or "REJECTED".
pub record HoldApprovalDecision : Type 0 where
  pub approved : Bool
  pub notes : Option String

-- `if payload.lead_id: await _entity(...)`
abbrev pub optional_entity {ℓ} :
    {A : Type ℓ} ⦃r : Row A⦄ → ℕ → Option ℕ → List A → Result (Option A)
optional_entity o none xs = ok none
optional_entity o (some k) xs = do x ← entity o k xs; ok (some x)

-- The unique constraint on `organization_id` and `active_unit_key`.
abbrev pub has_active_key : ℕ → ℕ → UnitHold → Bool
has_active_key o k h = (h.organization_id == o) && is_id h.active_unit_key k

abbrev pub new_hold : ℕ → InventoryUnit → ℕ → UnitHoldCreate → Context → UnitHold
new_hold org unit salesperson_id payload ctx = record {
  organization_id = org;
  id = ctx.new_id 0;
  unit_id = unit.id;
  customer_id = some payload.customer_id;
  lead_id = payload.lead_id;
  held_by_user_id = salesperson_id;
  approved_by_user_id = none;
  hold_type = some payload.hold_type;
  hold_reason = some payload.hold_reason;
  status = HoldStatus.pending_approval;
  starts_at = ctx.now;
  expires_at = payload.expires_at;
  released_at = none;
  approved_at = none;
  rejected_at = none;
  approval_notes = none;
  release_reason = none;
  active_unit_key = some unit.id;
}

abbrev pub with_status : UnitStatus → InventoryUnit → InventoryUnit
with_status status unit = record unit { status = status }

-- The rows that `create_hold` writes.
abbrev pub store_hold : ℕ → InventoryUnit → UnitHold → HoldType → Context → Store → Store
store_hold org unit hold kind ctx s =
    let s1 = audit org (some ctx.actor_user_id) ctx.now "unit.hold.created" "unit_hold" hold.id s in
    record s1 { holds = hold ∷ s.holds; units = put (with_status (of_hold_type kind) unit) s.units }

unfoldable pub create_hold : ℕ → ℕ → UnitHoldCreate → Context → Store → Result Store
create_hold org unit_id payload ctx s = do
  found ← entity org unit_id s.units
  let (active, unit, s1) = expire_hold (some ctx.actor_user_id) ctx.now found s
  raise_if (is_some active || not (is_available unit.status)) 409 unit_unavailable
  raise_if (leb payload.expires_at ctx.now) 400 invalid_expiry
  customer ← entity org payload.customer_id s1.customers
  lead ← optional_entity org payload.lead_id s1.leads
  salesperson ← entity org (or_else payload.salesperson_user_id ctx.actor_user_id) s1.users
  raise_if (not salesperson.is_active) 400 invalid_salesperson
  raise_if (is_some (first (has_active_key org unit.id) s1.holds)) 409 unit_unavailable
  ok (store_hold org unit (new_hold org unit salesperson.id payload ctx) payload.hold_type ctx s1)

abbrev pub approve : HoldApprovalDecision → Context → UnitHold → UnitHold
approve payload ctx hold = record hold {
  approved_by_user_id = some ctx.actor_user_id;
  approval_notes = payload.notes;
  status = HoldStatus.active;
  approved_at = some ctx.now;
}

abbrev pub reject : HoldApprovalDecision → Context → UnitHold → UnitHold
reject payload ctx hold = record hold {
  approved_by_user_id = some ctx.actor_user_id;
  approval_notes = payload.notes;
  status = HoldStatus.rejected;
  rejected_at = some ctx.now;
  released_at = some ctx.now;
  active_unit_key = none;
}

abbrev pub store_decision :
    ℕ → InventoryUnit → UnitHold → HoldApprovalDecision → Context → Store → Store
store_decision org unit hold payload ctx s =
    let action = if payload.approved then "unit.hold.approved" else "unit.hold.rejected" in
    let s1 = audit org (some ctx.actor_user_id) ctx.now action "unit_hold" hold.id s in
    if payload.approved
    then record s1 { holds = put (approve payload ctx hold) s.holds }
    else record s1 {
      holds = put (reject payload ctx hold) s.holds;
      units = put (with_status UnitStatus.available unit) s.units;
    }

-- `unit.status != expected_unit_status`
abbrev pub is_mismatched : Option HoldType → UnitStatus → Bool
is_mismatched none status = false
is_mismatched (some kind) status = not (is_hold_type kind status)

-- `decide_hold`, once the hold of the unit is known.
unfoldable pub decide_found :
    ℕ
    → ℕ
    → HoldApprovalDecision
    → Context
    → Option UnitHold
    → InventoryUnit
    → Store
    → Result (Reply Store)
decide_found org hold_id payload ctx none unit s =
    ok (raised_after_commit s 409 hold_approval_not_pending)
decide_found org hold_id payload ctx (some hold) unit s =
    if not (hold.id == hold_id) || not (is_pending_approval hold.status)
    then ok (raised_after_commit s 409 hold_approval_not_pending)
    else do
      raise_if (hold.held_by_user_id == ctx.actor_user_id) 403 self_approval_not_allowed
      raise_if (is_mismatched hold.hold_type unit.status) 409 hold_unit_state_mismatch
      ok (done (store_decision org unit hold payload ctx s))

unfoldable pub decide_hold : ℕ → ℕ → HoldApprovalDecision → Context → Store → Result (Reply Store)
unfolding decide_found
decide_hold org hold_id payload ctx s = do
  candidate ← entity org hold_id s.holds
  found ← entity org candidate.unit_id s.units
  let (hold, unit, s1) = expire_hold (some ctx.actor_user_id) ctx.now found s
  decide_found org hold_id payload ctx hold unit s1

abbrev pub released_hold : String → ℕ → UnitHold → UnitHold
released_hold reason now hold = record hold {
  status = HoldStatus.released;
  active_unit_key = none;
  released_at = some now;
  release_reason = some reason;
}

abbrev pub store_release : ℕ → InventoryUnit → UnitHold → String → Context → Store → Store
store_release org unit hold reason ctx s =
    let s1 =
      audit org (some ctx.actor_user_id) ctx.now "unit.hold.released" "unit_hold" hold.id s in
    record s1 {
      holds = put (released_hold reason ctx.now hold) s.holds;
      units = put (with_status UnitStatus.available unit) s.units;
    }

-- `release_hold`, once the hold of the unit is known.
unfoldable pub release_found :
    ℕ → String → Context → Option UnitHold → InventoryUnit → Store → Reply Store
release_found org reason ctx none unit s = raised_after_commit s 409 no_active_hold
release_found org reason ctx (some hold) unit s =
    view_units org ctx.now (store_release org unit hold reason ctx s)

unfoldable pub release_hold : ℕ → ℕ → String → Context → Store → Result (Reply Store)
unfolding release_found
release_hold org unit_id reason ctx s = do
  found ← entity org unit_id s.units
  let (hold, unit, s1) = expire_hold (some ctx.actor_user_id) ctx.now found s
  ok (release_found org reason ctx hold unit s1)
