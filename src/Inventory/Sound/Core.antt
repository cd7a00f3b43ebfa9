-- ===== src/Inventory/Sound/Core.antt =====
-- The state of the inventory that every operation relies on: a unit's status says whether a hold
-- reserves it and whether a booking occupies it.
use real_estate_crm.Base.{ℕ, ◌≡◌, false, some, List, arith}
use real_estate_crm.Base.Table.{count_of, is_key, find, put, IsKeyed}
use real_estate_crm.Base.Table.Laws.{find-put}
use real_estate_crm.Models.Enums.{UnitStatus}
use real_estate_crm.Models.Rows.{InventoryUnit, UnitHold, Booking}
use real_estate_crm.Models.Store.{Store, unit_row, hold_row, booking_row}
use real_estate_crm.Inventory.Expiry.{reserves}
use real_estate_crm.Inventory.Desk.{occupies}

-- How many holds reserve a unit of this status.
abbrev pub held : UnitStatus → ℕ
held UnitStatus.soft_hold = 1
held UnitStatus.hard_hold = 1
held _ = 0

-- How many bookings occupy a unit of this status.
abbrev pub occupied : UnitStatus → ℕ
occupied UnitStatus.booking_initiated = 1
occupied UnitStatus.booked = 1
occupied UnitStatus.sold = 1
occupied _ = 0

pub record IsInventory (units : List InventoryUnit) (holds : List UnitHold)
    (bookings : List Booking) : Type 0 where
  pub holds_keyed : IsKeyed holds
  pub bookings_keyed : IsKeyed bookings
  pub held_once :
      (o k : ℕ) (u : InventoryUnit)
      → find o k units ≡ some u
      → count_of (reserves o k) holds ≡ held u.status
  pub occupied_once :
      (o k : ℕ) (u : InventoryUnit)
      → find o k units ≡ some u
      → count_of (occupies o k) bookings ≡ occupied u.status

abbrev pub IsSound : Store → Type 0
IsSound s = IsInventory s.units s.holds s.bookings

-- A step that changes one unit is checked at that unit, and must leave the counts of the others.
pub unit_change :
    {units : List InventoryUnit} {holds : List UnitHold} {bookings : List Booking}
    (holds' : List UnitHold) (bookings' : List Booking) (u u' : InventoryUnit)
    → IsInventory units holds bookings
    → find u'.organization_id u'.id units ≡ some u
    → IsKeyed holds'
    → IsKeyed bookings'
    → ((o k : ℕ)
        → is_key o k u' ≡ false
        → count_of (reserves o k) holds' ≡ count_of (reserves o k) holds)
    → ((o k : ℕ)
        → is_key o k u' ≡ false
        → count_of (occupies o k) bookings' ≡ count_of (occupies o k) bookings)
    → count_of (reserves u'.organization_id u'.id) holds' ≡ held u'.status
    → count_of (occupies u'.organization_id u'.id) bookings' ≡ occupied u'.status
    → IsInventory (put u' units) holds' bookings'
unit_change {units} holds' bookings' u u' sound at keyed keyed' others others' mine mine' = record {
  holds_keyed = keyed;
  bookings_keyed = keyed';
  held_once =
      λ o k v e. ground (arith, find-put o k u' units u at, others o k, sound.held_once o k v);
  occupied_once =
      λ o k v e. ground (arith, find-put o k u' units u at, others' o k, sound.occupied_once o k v);
}
