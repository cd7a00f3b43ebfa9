-- ===== src/Inventory/Sound/Read.antt =====
-- What the read of a unit shows, and who may decide on a hold: `_expire_hold` and `decide_hold` of
-- backend/app/services/inventory.py.
use real_estate_crm.Base.{
  ◌⊎◌, Option-cases, ℕ, ◌<◌, ◌≡◌, ◌≢◌, subst, inl, inr, false, Option, none, some, if◌then◌else◌,
  arith,
}
use real_estate_crm.Base.Result.{ok, Reply}
use real_estate_crm.Base.Table.{find}
use real_estate_crm.Base.Table.Laws.{find-put}
use real_estate_crm.Models.Enums.{HoldStatus, is_held}
use real_estate_crm.Models.Rows.{InventoryUnit, UnitHold}
use real_estate_crm.Models.Store.{Store, Context, unit_row, hold_row}
use real_estate_crm.Inventory.Expiry.{expire_hold}
use real_estate_crm.Inventory.Holds.{
  HoldApprovalDecision, decide_hold, approve, reject, store_decision,
}
use real_estate_crm.Inventory.Sound.Core.{IsSound}
use real_estate_crm.Inventory.Sound.Expiry.{IsHoldOf, expire_hold-IsRead}
use real_estate_crm.Inventory.Sound.Holds.{decide_hold-inv}

expire_hold-later :
    (actor : Option ℕ) (now : ℕ) (u : InventoryUnit) (s : Store) (h : UnitHold)
    → (expire_hold actor now u s).0 ≡ some h
    → now < h.expires_at
unfolding expire_hold
expire_hold-later actor now u s h e = ground arith

-- In a sound inventory, the read of a unit shows no hold, and then the unit that it returns is
-- not held, or it shows a hold that has not expired.
pub expire_hold-shows :
    (actor : Option ℕ) (now o k : ℕ) (u : InventoryUnit) (s : Store)
    → IsSound s
    → find o k s.units ≡ some u
    → (let r = expire_hold actor now u s in
        ((r.0 ≡ none) × (is_held r.1.status ≡ false))
        ⊎ ((h : UnitHold) × (r.0 ≡ some h) × (now < h.expires_at)))
expire_hold-shows actor now o k u s sound at =
    let r = expire_hold actor now u s in
    let read = expire_hold-IsRead actor now o k u s sound at in
    elim (Option-cases r.0) [
      | inl e ↦ inl (
        e,
        ground (
          arith,
          subst (IsHoldOf r.1 r.2) e read.hold,
          read.sound.held_once r.1.organization_id r.1.id r.1 read.at_unit,
        ),
      )
      | inr (h, e) ↦ inr (h, e, expire_hold-later actor now u s h e)
    ]

expire_hold-kept :
    (actor : Option ℕ) (now : ℕ) (u : InventoryUnit) (s : Store) (h : UnitHold)
    → (expire_hold actor now u s).0 ≡ some h
    → (expire_hold actor now u s).2 ≡ s
unfolding expire_hold
expire_hold-kept actor now u s h e = ground arith

decided_found :
    (org hold_id : ℕ) (u : InventoryUnit) (hold : UnitHold) (payload : HoldApprovalDecision)
    (ctx : Context) (t : Store)
    → hold.organization_id ≡ org
    → hold.id ≡ hold_id
    → find hold.organization_id hold.id t.holds ≡ some hold
    → find org hold_id (store_decision org u hold payload ctx t).holds
      ≡ some (if payload.approved then approve payload ctx hold else reject payload ctx hold)
decided_found org hold_id u hold payload ctx t same_org same_id at = ground (
  arith,
  find-put org hold_id (approve payload ctx hold) t.holds hold,
  find-put org hold_id (reject payload ctx hold) t.holds hold,
)

-- In a sound inventory, a decision on a hold that raises no error decides a hold that was stored
-- as waiting for approval, never by the user who holds the unit, and that hold is then stored as
-- approved or rejected, as the request says.
pub decide_hold-four_eyes :
    (org hold_id : ℕ) (payload : HoldApprovalDecision) (ctx : Context) (s : Store)
    (reply : Reply Store)
    → IsSound s
    → decide_hold org hold_id payload ctx s ≡ ok reply
    → reply.raised ≡ none
    → (hold : UnitHold) × (find org hold_id s.holds ≡ some hold)
      × (hold.status ≡ HoldStatus.pending_approval)
      × (hold.held_by_user_id ≢ ctx.actor_user_id)
      × (find org hold_id reply.store.holds
          ≡ some (if payload.approved then approve payload ctx hold else reject payload ctx hold))
decide_hold-four_eyes org hold_id payload ctx s reply sound h quiet =
    let (candidate, found, at_c, at, outcome) = decide_hold-inv org hold_id payload ctx s h in
    let r = expire_hold (some ctx.actor_user_id) ctx.now found s in
    let read =
      expire_hold-IsRead (some ctx.actor_user_id) ctx.now org candidate.unit_id found s sound at in
    elim outcome [
      | inl (raised, same) ↦ ground arith
      | inr (hold, present, same_id, pending, other, matched, stored) ↦
          let (mine, at_hold) = subst (IsHoldOf r.1 r.2) present read.hold in
          let same_org : hold.organization_id ≡ org = ground (arith, read.same_org) in
          let kept = expire_hold-kept (some ctx.actor_user_id) ctx.now found s hold present in
          let before : find hold.organization_id hold.id s.holds ≡ some hold =
            subst (λ (t : Store). find hold.organization_id hold.id t.holds ≡ some hold) kept
              at_hold in
          (
            hold,
            ground arith,
            pending,
            other,
            rw stored (decided_found org hold_id r.1 hold payload ctx r.2 same_org same_id at_hold),
          )
    ]
