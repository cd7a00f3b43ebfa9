-- ===== src/Workflow/Occupancy.antt =====
-- The operations on holds and the begin and end of a booking keep the inventory safe.
use real_estate_crm.Base.{
  ℕ, ◌≡◌, ◌≢◌, refl, ap, ◌∙◌, inl, inr, String, Bool, Option, none, some, ◌∷◌, arith,
}
use real_estate_crm.Base.Result.{ok, Reply}
use real_estate_crm.Base.Table.{find}
use real_estate_crm.Base.Table.Laws.{find-key}
use real_estate_crm.Models.Enums.{UnitStatus, BookingStatus}
use real_estate_crm.Models.Rows.{Booking, InventoryUnit, UnitHold}
use real_estate_crm.Models.Store.{Store, Context, booking_row, unit_row, hold_row}
use real_estate_crm.Inventory.Expiry.{expire_hold, expire_due_holds}
use real_estate_crm.Inventory.Holds.{
  UnitHoldCreate, HoldApprovalDecision, create_hold, decide_hold, release_hold, store_release,
  store_decision,
}
use real_estate_crm.Inventory.Desk.{
  transition_unit_status, store_status, BookingInitiate, initiate_booking, draft_booking, convert,
  booking_route, transition_booking, cancel, confirm,
}
use real_estate_crm.Inventory.Sound.Expiry.{expire_hold-IsRead}
use real_estate_crm.Inventory.Sound.Bulk.{expire_due_holds-IsSound}
use real_estate_crm.Inventory.Sound.Holds.{
  create_hold-inv, create_hold-IsSound, decide_hold-inv, decide_hold-IsSound, release_hold-inv,
  release_hold-IsSound,
}
use real_estate_crm.Inventory.Sound.Desk.{
  transition_unit_status-inv, transition_unit_status-IsSound, initiate_booking-inv,
  initiate_booking-IsSound, transition_booking-inv, transition_booking-IsSound,
}
use real_estate_crm.Workflow.Locked.{IsLocked, put-IsLocked, ∷-IsLocked}
use real_estate_crm.Workflow.Frames.{IsSafe, view_units-same, expire_due_holds-same}

same_bookings-IsLocked :
    (s s' : Store) → s'.bookings ≡ s.bookings → IsLocked s.bookings → IsLocked s'.bookings
same_bookings-IsLocked s s' e locked = rw e locked

store_decision-same :
    (org : ℕ) (u : InventoryUnit) (h : UnitHold) (payload : HoldApprovalDecision) (ctx : Context)
    (t : Store)
    → (store_decision org u h payload ctx t).bookings ≡ t.bookings
store_decision-same org u h payload ctx t = ground arith

convert-same :
    (org : ℕ) (hold : Option UnitHold) (ctx : Context) (t : Store)
    → (convert org hold ctx t).bookings ≡ t.bookings
convert-same org none ctx t = refl
convert-same org (some h) ctx t = refl

module _ (org : ℕ) (ctx : Context) (s : Store) (safe : IsSafe s) where
  read_same :
      (k : ℕ) (u : InventoryUnit)
      → find org k s.units ≡ some u
      → (expire_hold (some ctx.actor_user_id) ctx.now u s).2.bookings ≡ s.bookings
  read_same k u at =
      (expire_hold-IsRead (some ctx.actor_user_id) ctx.now org k u s safe.sound at).same_bookings

  pub create_hold-IsSafe :
      (unit_id : ℕ) (payload : UnitHoldCreate) (s' : Store)
      → find org (ctx.new_id 0) s.holds ≡ none
      → create_hold org unit_id payload ctx s ≡ ok s'
      → IsSafe s'
  create_hold-IsSafe unit_id payload s' fresh h =
      let (found, salesperson, at, facts) = create_hold-inv org unit_id payload ctx s h in
      let (free, available, later, at_user, is_active, stored) = facts in
      let same : s'.bookings ≡ s.bookings =
        ap (λ (t : Store). t.bookings) stored ∙ read_same unit_id found at in
      record {
        sound = create_hold-IsSound org unit_id payload ctx s s' safe.sound fresh h;
        locked = same_bookings-IsLocked s s' same safe.locked;
      }

  pub decide_hold-IsSafe :
      (hold_id : ℕ) (payload : HoldApprovalDecision) (reply : Reply Store)
      → decide_hold org hold_id payload ctx s ≡ ok reply
      → IsSafe reply.store
  decide_hold-IsSafe hold_id payload reply h =
      let (candidate, found, at_hold, at, outcome) = decide_hold-inv org hold_id payload ctx s h in
      let r = expire_hold (some ctx.actor_user_id) ctx.now found s in
      let read = read_same candidate.unit_id found at in
      let same : reply.store.bookings ≡ s.bookings = elim outcome [
        | inl (raised, e) ↦ ap (λ (t : Store). t.bookings) e ∙ read
        | inr (hold, present, same_id, pending, other, matched, stored) ↦
            ap (λ (t : Reply Store). t.store.bookings) stored
            ∙ store_decision-same org r.1 hold payload ctx r.2
            ∙ read
      ] in
      record {
        sound = decide_hold-IsSound org hold_id payload ctx s reply safe.sound h;
        locked = same_bookings-IsLocked s reply.store same safe.locked;
      }

  pub release_hold-IsSafe :
      (unit_id : ℕ) (reason : String) (reply : Reply Store)
      → release_hold org unit_id reason ctx s ≡ ok reply
      → IsSafe reply.store
  release_hold-IsSafe unit_id reason reply h =
      let (found, at, outcome) = release_hold-inv org unit_id reason ctx s h in
      let r = expire_hold (some ctx.actor_user_id) ctx.now found s in
      let read = read_same unit_id found at in
      let same : reply.store.bookings ≡ s.bookings = elim outcome [
        | inl (absent, e) ↦ ap (λ (t : Reply Store). t.store.bookings) e ∙ read
        | inr (hold, present, stored) ↦
            ap (λ (t : Reply Store). t.store.bookings) stored
            ∙ view_units-same org ctx.now (store_release org r.1 hold reason ctx r.2)
            ∙ read
      ] in
      record {
        sound = release_hold-IsSound org unit_id reason ctx s reply safe.sound h;
        locked = same_bookings-IsLocked s reply.store same safe.locked;
      }

  pub transition_unit_status-IsSafe :
      (unit_id : ℕ) (target : UnitStatus) (reply : Reply Store)
      → transition_unit_status org unit_id target ctx s ≡ ok reply
      → IsSafe reply.store
  transition_unit_status-IsSafe unit_id target reply h =
      let (u, at, allowed, stored) = transition_unit_status-inv org unit_id target ctx s h in
      record {
        sound = transition_unit_status-IsSound org unit_id target ctx s reply safe.sound h;
        locked =
            same_bookings-IsLocked s reply.store
              (ap (λ (t : Reply Store). t.store.bookings) stored
                ∙ view_units-same org ctx.now (store_status org u target ctx s))
              safe.locked;
      }

  pub initiate_booking-IsSafe :
      (unit_id : ℕ) (payload : BookingInitiate) (s' : Store)
      → find org (ctx.new_id 0) s.bookings ≡ none
      → initiate_booking org unit_id payload ctx s ≡ ok s'
      → IsSafe s'
  initiate_booking-IsSafe unit_id payload s' fresh h =
      let (found, at, outcome) = initiate_booking-inv org unit_id payload ctx s h in
      let (open_unit, bookable, approved, stored) = outcome in
      let r = expire_hold (some ctx.actor_user_id) ctx.now found s in
      let b = draft_booking org r.1 payload ctx in
      let made : s'.bookings ≡ b ∷ s.bookings =
        ap (λ (t : Store). t.bookings) stored
        ∙ ap (λ bs. b ∷ bs) (convert-same org r.0 ctx r.2 ∙ read_same unit_id found at) in
      record {
        sound = initiate_booking-IsSound org unit_id payload ctx s s' safe.sound fresh h;
        locked = rw made (∷-IsLocked b s.bookings safe.locked refl);
      }

  -- The inventory route cancels a booking, but not soundly if it was rejected.
  pub booking_route-IsSafe :
      (booking_id : ℕ) (confirmed : Bool) (b : Booking) (s' : Store)
      → find org booking_id s.bookings ≡ some b
      → b.status ≢ BookingStatus.rejected
      → booking_route org booking_id confirmed ctx s ≡ ok s'
      → IsSafe s'
  unfolding booking_route
  booking_route-IsSafe booking_id confirmed b s' at_b open_booking h =
      let h' : transition_booking org booking_id BookingStatus.cancelled ctx s ≡ ok s' =
        ground arith in
      let (c, u, at_c, at, unfinished, outcome) =
        transition_booking-inv org booking_id BookingStatus.cancelled ctx s h' in
      let same : c ≡ b = ground arith in
      let key = safe.locked org booking_id b at_b in
      let locked : b.active_unit_key ≡ some b.unit_id = ground arith in
      let (org_b, id_b) = find-key org booking_id s.bookings c at_c in
      let at' : find c.organization_id c.id s.bookings ≡ some c = ground arith in
      record {
        sound =
            transition_booking-IsSound org booking_id BookingStatus.cancelled ctx s b s' safe.sound
              at_b locked h';
        locked = elim outcome [
          | inl (key', status, stored) ↦
              rw (ap (λ (t : Store). t.bookings) stored)
                (put-IsLocked c (confirm ctx.now c) s.bookings safe.locked at' (ground arith))
          | inr stored ↦
              rw (ap (λ (t : Store). t.bookings) stored)
                (put-IsLocked c (cancel c) s.bookings safe.locked at' refl)
        ];
      }

pub expire_due_holds-IsSafe :
    (s : Store) (of_org : Option ℕ) (limit : ℕ) (actor : Option ℕ) (now n : ℕ) (s' : Store)
    → IsSafe s
    → expire_due_holds of_org limit actor now s ≡ ok (n, s')
    → IsSafe s'
expire_due_holds-IsSafe s of_org limit actor now n s' safe h = record {
  sound = expire_due_holds-IsSound of_org limit actor now s n s' safe.sound h;
  locked =
      same_bookings-IsLocked s s' (expire_due_holds-same of_org limit actor now s n s' h)
        safe.locked;
}
