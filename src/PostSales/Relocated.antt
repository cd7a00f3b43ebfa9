-- ===== src/PostSales/Relocated.antt =====
-- A transfer that is completed keeps the inventory safe.
use real_estate_crm.Base.{
  List, ◌∙◌, ℕ, ◌≡◌, ◌≢◌, refl, ap, true, some, ◌==◌, not, ◌||◌, arith, is_id,
}
use real_estate_crm.Base.Result.{ok, >>=-eq-ok, passed}
use real_estate_crm.Base.Result.Codes.{
  resource_not_found, invalid_transfer_transition, booking_state_changed, target_unit_unavailable,
}
use real_estate_crm.Base.Table.{entity, find, put}
use real_estate_crm.Base.Table.Laws.{find-key, find-put}
use real_estate_crm.Models.Enums.{is_approved_workflow, UnitStatus, is_confirmed, is_available}
use real_estate_crm.Models.Rows.{InventoryUnit, Booking, Quotation}
use real_estate_crm.Models.PostSales.{UnitTransfer, transfer_row}
use real_estate_crm.Models.Store.{Store, Context, unit_row, booking_row, quotation_row}
use real_estate_crm.Inventory.Holds.{with_status}
use real_estate_crm.Bookings.Sound.{SameInventory}
use real_estate_crm.Workflow.Locked.{put-IsLocked}
use real_estate_crm.Workflow.Frames.{IsSafe}
use real_estate_crm.PostSales.Cancel.{is_taken}
use real_estate_crm.PostSales.Exchange.{move-IsInventory}
use real_estate_crm.PostSales.Plan.{revise_plan}
use real_estate_crm.PostSales.Transfer.{unit_is_available}
use real_estate_crm.PostSales.Move.{
  complete_transfer, settle_transfer, store_transfer, moved_booking,
}

revise_plan-SameInventory :
    (org : ℕ) (b : Booking) (t : UnitTransfer) (ctx : Context) (s s' : Store)
    → revise_plan org b t ctx s ≡ ok s'
    → SameInventory s s'
unfolding revise_plan
revise_plan-SameInventory org b t ctx s s' h = ground arith

settle_transfer-inv :
    (org : ℕ) (u v : InventoryUnit) (b : Booking) (t : UnitTransfer) (ctx : Context) (s s' : Store)
    → settle_transfer org u v b t ctx s ≡ ok s'
    → (q : Quotation) × (s1 : Store) × (find org t.quotation_id s.quotations ≡ some q)
      × (revise_plan org b t ctx s ≡ ok s1)
      × (s' ≡ store_transfer org u v q b t ctx s1)
unfolding settle_transfer
settle_transfer-inv org u v b t ctx s s' h = ground arith

module _ (org transfer_id : ℕ) (ctx : Context) (s s' : Store)
    (completed : complete_transfer org transfer_id ctx s ≡ ok s') where
  pub complete_transfer-inv :
      (t : UnitTransfer) × (u : InventoryUnit) × (v : InventoryUnit) × (b : Booking) × (find org
          transfer_id s.post_sales.transfers
        ≡ some t)
      × (find org t.from_unit_id s.units ≡ some u)
      × (find org t.to_unit_id s.units ≡ some v)
      × (find org t.booking_id s.bookings ≡ some b)
      × (u.id ≢ v.id)
      × (is_confirmed b.status ≡ true)
      × (b.unit_id ≡ u.id)
      × (b.active_unit_key ≡ some u.id)
      × (is_taken u.status ≡ true)
      × (unit_is_available org v s ≡ true)
      × (settle_transfer org u v b t ctx s ≡ ok s')
  unfolding complete_transfer
  complete_transfer-inv =
      let (t, e1, h1) = >>=-eq-ok (entity org transfer_id s.post_sales.transfers) _ completed in
      let (u, e2, h2) = >>=-eq-ok (entity org t.from_unit_id s.units) _ h1 in
      let (v, e3, h3) = >>=-eq-ok (entity org t.to_unit_id s.units) _ h2 in
      let (apart, h4) = passed (u.id == v.id) 404 resource_not_found _ h3 in
      let (b, e5, h5) = >>=-eq-ok (entity org t.booking_id s.bookings) _ h4 in
      let (approved, h6) =
        passed (not (is_approved_workflow t.status)) 409 invalid_transfer_transition _ h5 in
      let (unchanged, h7) =
        passed
          (not (is_confirmed b.status)
            || not (b.unit_id == u.id)
            || not (is_id b.active_unit_key u.id)
            || not (is_taken u.status))
          409 booking_state_changed _ h6 in
      let (free, h8) = passed (not (unit_is_available org v s)) 409 target_unit_unavailable _ h7 in
      (
        t,
        u,
        v,
        b,
        ground arith,
        ground arith,
        ground arith,
        ground arith,
        ground arith,
        ground arith,
        ground arith,
        ground arith,
        ground arith,
        ground arith,
        h8,
      )

available-is_available :
    (org : ℕ) (v : InventoryUnit) (s : Store)
    → unit_is_available org v s ≡ true
    → is_available v.status ≡ true
unfolding unit_is_available
available-is_available org v s h = ground arith

-- The booking of the transfer goes from a unit that it leaves to one that was available, at the price
-- of the transfer.
abbrev pub IsMoved : ℕ → ℕ → Store → Store → Type 0
IsMoved org transfer_id s s' =
    (t : UnitTransfer) × (b : Booking) × (b' : Booking) × (u : InventoryUnit) × (u' : InventoryUnit)
    × (v : InventoryUnit) × (v' : InventoryUnit) × (find org transfer_id s.post_sales.transfers
        ≡ some t)
    × (find org t.booking_id s.bookings ≡ some b)
    × (find org t.from_unit_id s.units ≡ some u)
    × (find org t.to_unit_id s.units ≡ some v)
    × (b.active_unit_key ≡ some t.from_unit_id)
    × (v.status ≡ UnitStatus.available)
    × (find org t.booking_id s'.bookings ≡ some b')
    × (b'.active_unit_key ≡ some t.to_unit_id)
    × (b'.unit_id ≡ t.to_unit_id)
    × (b'.agreed_price ≡ some t.new_agreed_price)
    × (find org t.from_unit_id s'.units ≡ some u')
    × (u'.status ≡ UnitStatus.cancelled_released)
    × (find org t.to_unit_id s'.units ≡ some v')
    × (v'.status ≡ UnitStatus.booked)

module _ (org transfer_id : ℕ) (ctx : Context) (s s' : Store) (safe : IsSafe s)
    (completed : complete_transfer org transfer_id ctx s ≡ ok s') where
  -- The rows of the booking and of both units.
  relocated_rows : IsMoved org transfer_id s s'
  relocated_rows =
      let (
        t, u, v, b, at_t, at_u, at_v, at_b, apart, confirmed, unit_b, key, taken, free, settled,
      ) =
        complete_transfer-inv org transfer_id ctx s s' completed in
      let (q, s1, at_q, revised, stored) = settle_transfer-inv org u v b t ctx s s' settled in
      let (same_units, same_holds, same_bookings) =
        revise_plan-SameInventory org b t ctx s s1 revised in
      let (org_u, id_u) = find-key org t.from_unit_id s.units u at_u in
      let (org_v, id_v) = find-key org t.to_unit_id s.units v at_v in
      let (org_b, id_b) = find-key org t.booking_id s.bookings b at_b in
      let b' = moved_booking v q t b in
      let u' = with_status UnitStatus.cancelled_released u in
      let v' = with_status UnitStatus.booked v in
      let units : s'.units ≡ put v' (put u' s.units) =
        ap (λ (x : Store). x.units) stored
        ∙ ap (λ (x : List InventoryUnit). put v' (put u' x)) same_units in
      let bookings : s'.bookings ≡ put b' s.bookings =
        ap (λ (x : Store). x.bookings) stored ∙ ap (λ (x : List Booking). put b' x) same_bookings in
      let open_v = available-is_available org v s free in
      let key_b : b.active_unit_key ≡ some t.from_unit_id = key ∙ ap (λ (k : ℕ). some k) id_u in
      let at_b' : find org t.booking_id s'.bookings ≡ some b' =
        ap (λ (x : List Booking). find org t.booking_id x) bookings
        ∙ ground (arith, find-put org t.booking_id b' s.bookings b) in
      let at_u' : find org t.from_unit_id s'.units ≡ some u' =
        ap (λ (x : List InventoryUnit). find org t.from_unit_id x) units
        ∙ ground (
          arith,
          find-put org t.from_unit_id v' (put u' s.units) v,
          find-put org t.from_unit_id u' s.units u,
          find-put org t.to_unit_id u' s.units u,
        ) in
      let at_v' : find org t.to_unit_id s'.units ≡ some v' =
        ap (λ (x : List InventoryUnit). find org t.to_unit_id x) units
        ∙ ground (
          arith,
          find-put org t.to_unit_id v' (put u' s.units) v,
          find-put org t.to_unit_id u' s.units u,
        ) in
      (
        t,
        b,
        b',
        u,
        u',
        v,
        v',
        at_t,
        at_b,
        at_u,
        at_v,
        key_b,
        ground arith,
        at_b',
        ground arith,
        ground arith,
        refl,
        at_u',
        refl,
        at_v',
        refl,
      )

  pub complete_transfer-IsSafe : IsSafe s'
  complete_transfer-IsSafe =
      let (
        t, u, v, b, at_t, at_u, at_v, at_b, apart, confirmed, unit_b, key, taken, free, settled,
      ) =
        complete_transfer-inv org transfer_id ctx s s' completed in
      let (q, s1, at_q, revised, stored) = settle_transfer-inv org u v b t ctx s s' settled in
      let (same_units, same_holds, same_bookings) =
        revise_plan-SameInventory org b t ctx s s1 revised in
      let (org_u, id_u) = find-key org t.from_unit_id s.units u at_u in
      let (org_v, id_v) = find-key org t.to_unit_id s.units v at_v in
      let (org_b, id_b) = find-key org t.booking_id s.bookings b at_b in
      let b' = moved_booking v q t b in
      let at_b' : find b'.organization_id b'.id s.bookings ≡ some b = ground arith in
      let here =
        move-IsInventory org b.id s u v b b' safe.sound (ground arith) (ground arith) at_b' org_u
          org_v org_b org_b apart key refl taken (available-is_available org v s free) in
      record {
        sound = rw stored (rw (same_units, same_holds, same_bookings) here);
        locked =
            rw (ap (λ (x : Store). x.bookings) stored)
              (rw same_bookings (put-IsLocked b b' s.bookings safe.locked at_b' (ground arith)));
      }

  -- From a safe store, one with a sound inventory where a booking has its unit's key exactly
  -- while it is neither rejected nor cancelled, a transfer that is completed leads to a safe
  -- store. Its booking had the key of the unit that it leaves, and is stored with the unit, the
  -- key and the price that the transfer names; the unit that it leaves is released, and the one
  -- that it takes was available and is booked.
  pub complete_transfer-moves : IsSafe s' × IsMoved org transfer_id s s'
  complete_transfer-moves = (complete_transfer-IsSafe, relocated_rows)
