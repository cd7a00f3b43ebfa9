-- ===== src/Inventory/Sound/Desk.antt =====
-- Unit status changes and the short booking path keep the inventory sound, but for one case: a
-- rejected booking that is cancelled.
use real_estate_crm.Base.{ℕ, ◌≡◌, refl, true, false, Option, none, some, ◌∷◌, arith, ◌⊎◌, inl, inr}
use real_estate_crm.Base.Result.{ok, Reply}
use real_estate_crm.Base.Table.{first, find, put, count_of}
use real_estate_crm.Base.Table.Laws.{
  find-key, find-put, le-sum_of, sum_of-put, put-IsKeyed, count_of-first-none,
}
use real_estate_crm.Models.Enums.{UnitStatus, BookingStatus}
use real_estate_crm.Models.Rows.{InventoryUnit, UnitHold, Booking}
use real_estate_crm.Models.Store.{Store, Context, unit_row, hold_row, booking_row}
use real_estate_crm.Inventory.Expiry.{expire_hold, view_units}
use real_estate_crm.Inventory.Holds.{with_status}
use real_estate_crm.Inventory.Desk.{
  occupies, transition_unit_status, unit_allowed, moved_unit, store_status, BookingInitiate,
  initiate_booking, is_bookable, awaits_approval, draft_booking, store_booking, convert,
  converted_hold, transition_booking, booking_route, is_finalized, change_booking, cancel, confirm,
}
use real_estate_crm.Inventory.Sound.Core.{IsSound, unit_change, occupied}
use real_estate_crm.Inventory.Sound.Holding.{count_of-reserves_other, count_of-reserves_end}
use real_estate_crm.Inventory.Sound.Expiry.{IsHoldOf, expire_hold-IsRead}
use real_estate_crm.Inventory.Sound.Bulk.{view_units-IsSound}

pub transition_unit_status-inv :
    (org unit_id : ℕ) (target : UnitStatus) (ctx : Context) (s : Store) {reply : Reply Store}
    → transition_unit_status org unit_id target ctx s ≡ ok reply
    → (u : InventoryUnit) × (find org unit_id s.units ≡ some u)
      × (unit_allowed u.status target ≡ true)
      × (reply ≡ view_units org ctx.now (store_status org u target ctx s))
unfolding transition_unit_status
transition_unit_status-inv org unit_id target ctx s h = ground arith

-- A status change through the inventory route keeps the inventory sound.
pub transition_unit_status-IsSound :
    (org unit_id : ℕ) (target : UnitStatus) (ctx : Context) (s : Store) (reply : Reply Store)
    → IsSound s
    → transition_unit_status org unit_id target ctx s ≡ ok reply
    → IsSound reply.store
transition_unit_status-IsSound org unit_id target ctx s reply sound h =
    let (u, at, allowed, stored) = transition_unit_status-inv org unit_id target ctx s h in
    let (same_org, same_id) = find-key org unit_id s.units u at in
    let at' : find u.organization_id u.id s.units ≡ some u = ground arith in
    let u' = moved_unit target ctx.now u in
    rw stored (
      view_units-IsSound org ctx.now (store_status org u target ctx s) (
        unit_change s.holds s.bookings u u' sound at' sound.holds_keyed sound.bookings_keyed
          (λ o k n. refl) (λ o k n. refl)
          (ground (arith, allowed, sound.held_once u.organization_id u.id u at'))
          (ground (arith, allowed, sound.occupied_once u.organization_id u.id u at'))))

module _ (org unit_id : ℕ) (payload : BookingInitiate) (ctx : Context) (s : Store) where
  pub initiate_booking-inv :
      {s' : Store}
      → initiate_booking org unit_id payload ctx s ≡ ok s'
      → (found : InventoryUnit) × (find org unit_id s.units ≡ some found)
        × (let r = expire_hold (some ctx.actor_user_id) ctx.now found s in
            (first (occupies org r.1.id) r.2.bookings ≡ none)
            × (is_bookable r.1.status ≡ true)
            × (awaits_approval r.0 ≡ false)
            × (s'
                ≡ store_booking org r.1
                    (draft_booking org r.1 payload ctx)
                    ctx
                    (convert org r.0 ctx r.2)))
  unfolding initiate_booking
  initiate_booking-inv h = ground arith

  store_booking-IsSound :
      (u : InventoryUnit) (hold : Option UnitHold) (t : Store)
      → IsSound t
      → u.organization_id ≡ org
      → find u.organization_id u.id t.units ≡ some u
      → IsHoldOf u t hold
      → first (occupies org u.id) t.bookings ≡ none
      → is_bookable u.status ≡ true
      → find org (ctx.new_id 0) t.bookings ≡ none
      → IsSound (store_booking org u (draft_booking org u payload ctx) ctx (convert org hold ctx t))
  store_booking-IsSound u none t sound same at free open_unit bookable fresh =
      unit_change t.holds (draft_booking org u payload ctx ∷ t.bookings) u
        (with_status UnitStatus.booking_initiated u) sound at sound.holds_keyed
        (fresh, sound.bookings_keyed) (λ o k n. refl) (λ o k n. ground arith) free
        (ground (arith, count_of-first-none (occupies org u.id) t.bookings open_unit))
  store_booking-IsSound u (some h) t sound same at (mine, at_hold) open_unit bookable fresh =
      let gone = converted_hold ctx.now h in
      let ended = count_of-reserves_end h gone t.holds refl refl refl at_hold u mine refl in
      let once = sound.held_once u.organization_id u.id u at in
      unit_change (put gone t.holds) (draft_booking org u payload ctx ∷ t.bookings) u
        (with_status UnitStatus.booking_initiated u) sound at
        (put-IsKeyed gone t.holds sound.holds_keyed) (fresh, sound.bookings_keyed)
        (λ o k n. count_of-reserves_other h gone t.holds refl refl refl at_hold o k u mine n)
        (λ o k n. ground arith) (ground (arith, ended, once))
        (ground (arith, count_of-first-none (occupies org u.id) t.bookings open_unit))

  -- Initiating a booking keeps the inventory sound.
  pub initiate_booking-IsSound :
      (s' : Store)
      → IsSound s
      → find org (ctx.new_id 0) s.bookings ≡ none
      → initiate_booking org unit_id payload ctx s ≡ ok s'
      → IsSound s'
  initiate_booking-IsSound s' sound fresh h =
      let (found, at, outcome) = initiate_booking-inv h in
      let (open_unit, bookable, approved, stored) = outcome in
      let r = expire_hold (some ctx.actor_user_id) ctx.now found s in
      let read = expire_hold-IsRead (some ctx.actor_user_id) ctx.now org unit_id found s sound at in
      rw stored (
        store_booking-IsSound r.1 r.0 r.2 read.sound read.same_org read.at_unit read.hold open_unit
          bookable (rw read.same_bookings fresh))

module _ (org booking_id : ℕ) (target : BookingStatus) (ctx : Context) (s : Store) where
  pub transition_booking-inv :
      {s' : Store}
      → transition_booking org booking_id target ctx s ≡ ok s'
      → (b : Booking) × (u : InventoryUnit) × (find org booking_id s.bookings ≡ some b)
        × (find org b.unit_id s.units ≡ some u)
        × (is_finalized b.status ≡ false)
        × (((b.active_unit_key ≡ some u.id)
              × (u.status ≡ UnitStatus.booking_initiated)
              × (s' ≡ change_booking org (confirm ctx.now b) u UnitStatus.booked ctx s))
            ⊎ (s' ≡ change_booking org (cancel b) u UnitStatus.cancelled_released ctx s))
  unfolding transition_booking
  transition_booking-inv h = ground arith

  pub change_booking-IsSound :
      (b b' : Booking) (u : InventoryUnit) (status : UnitStatus)
      → IsSound s
      → find org booking_id s.bookings ≡ some b
      → find org b.unit_id s.units ≡ some u
      → b'.organization_id ≡ b.organization_id
      → b'.id ≡ b.id
      → b.active_unit_key ≡ some b.unit_id
      → ((b'.active_unit_key ≡ some b.unit_id) × (status ≡ UnitStatus.booked))
        ⊎ ((b'.active_unit_key ≡ none) × (status ≡ UnitStatus.cancelled_released))
      → IsSound (change_booking org b' u status ctx s)
  change_booking-IsSound b b' u status sound at_b at same_org same_id locked outcome =
      let (org_b, id_b) = find-key org booking_id s.bookings b at_b in
      let (org_u, id_u) = find-key org b.unit_id s.units u at in
      let at' : find u.organization_id u.id s.units ≡ some u = ground arith in
      let at_b' : find b'.organization_id b'.id s.bookings ≡ some b = ground arith in
      let moves = λ (o k : ℕ). sum_of-put (occupies o k) (λ _. 1) b' s.bookings b at_b' in
      unit_change s.holds (put b' s.bookings) u (with_status status u) sound at' sound.holds_keyed
        (put-IsKeyed b' s.bookings sound.bookings_keyed) (λ o k n. refl)
        (λ o k n. ground (arith, moves o k))
        (ground (
          arith,
          moves u.organization_id u.id,
          sound.held_once u.organization_id u.id u at',
          le-sum_of (occupies u.organization_id u.id) (λ _. 1) org booking_id s.bookings b at_b,
          sound.occupied_once u.organization_id u.id u at',
        ))
        (ground (
          arith,
          moves u.organization_id u.id,
          le-sum_of (occupies u.organization_id u.id) (λ _. 1) org booking_id s.bookings b at_b,
          sound.occupied_once u.organization_id u.id u at',
        ))

  -- A booking that still has its unit is confirmed or cancelled soundly.
  pub transition_booking-IsSound :
      (b : Booking) (s' : Store)
      → IsSound s
      → find org booking_id s.bookings ≡ some b
      → b.active_unit_key ≡ some b.unit_id
      → transition_booking org booking_id target ctx s ≡ ok s'
      → IsSound s'
  transition_booking-IsSound b s' sound at_b locked h =
      let (c, u, at_c, at, open_booking, outcome) = transition_booking-inv h in
      let same : c ≡ b = ground arith in
      let locked' : c.active_unit_key ≡ some c.unit_id = rw same locked in
      elim outcome [
        | inl (key, status, stored) ↦ rw stored (
            change_booking-IsSound c (confirm ctx.now c) u UnitStatus.booked sound at_c at refl refl
              locked' (inl (locked', refl)))
        | inr stored ↦ rw stored (
            change_booking-IsSound c (cancel c) u UnitStatus.cancelled_released sound at_c at refl
              refl locked' (inr (refl, refl)))
      ]

-- In a sound inventory, where a rejected booking has given its unit back and another booking has
-- made the unit occupied, the inventory route still cancels the rejected booking: it marks the
-- unit as released while the other booking occupies it, and the inventory is no longer sound.
pub booking_route-rejected :
    (org booking_id : ℕ) (ctx : Context) (s : Store) (b : Booking) (u : InventoryUnit)
    → IsSound s
    → find org booking_id s.bookings ≡ some b
    → b.status ≡ BookingStatus.rejected
    → b.active_unit_key ≡ none
    → find org b.unit_id s.units ≡ some u
    → occupied u.status ≡ 1
    → (s' : Store) × (booking_route org booking_id false ctx s ≡ ok s')
      × (find org b.unit_id s'.units ≡ some (with_status UnitStatus.cancelled_released u))
      × (count_of (occupies org b.unit_id) s'.bookings ≡ 1)
      × (¬ IsSound s')
unfolding booking_route
booking_route-rejected org booking_id ctx s b u sound at_b rejected unlocked at busy =
    let (org_b, id_b) = find-key org booking_id s.bookings b at_b in
    let (org_u, id_u) = find-key org b.unit_id s.units u at in
    let s' = change_booking org (cancel b) u UnitStatus.cancelled_released ctx s in
    let gone = with_status UnitStatus.cancelled_released u in
    let at' : find org b.unit_id s'.units ≡ some gone =
      ground (arith, find-put org b.unit_id gone s.units u) in
    let still : count_of (occupies org b.unit_id) s'.bookings ≡ 1 = ground (
      arith,
      sum_of-put (occupies org b.unit_id) (λ _. 1) (cancel b) s.bookings b,
      sound.occupied_once org b.unit_id u at,
    ) in
    (
      s',
      ground arith,
      at',
      still,
      λ bad. omega (arith, still, bad.occupied_once org b.unit_id gone at'),
    )
