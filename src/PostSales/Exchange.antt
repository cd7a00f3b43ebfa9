-- ===== src/PostSales/Exchange.antt =====
-- The inventory where a booking moves to another unit, as `complete_transfer` of
-- backend/app/services/post_sales.py moves it.
use real_estate_crm.Base.{ℕ, ◌≡◌, ◌≢◌, true, some, arith, if◌then◌else◌}
use real_estate_crm.Base.Table.{find, put, is_key}
use real_estate_crm.Base.Table.Laws.{find-put, sum_of-put, put-IsKeyed}
use real_estate_crm.Models.Enums.{UnitStatus, is_available}
use real_estate_crm.Models.Rows.{InventoryUnit, Booking}
use real_estate_crm.Models.PostSales.{transfer_row}
use real_estate_crm.Models.Store.{Store, unit_row, booking_row, quotation_row}
use real_estate_crm.Inventory.Holds.{with_status}
use real_estate_crm.Inventory.Desk.{occupies}
use real_estate_crm.Inventory.Sound.Core.{IsInventory, IsSound}
use real_estate_crm.PostSales.Cancel.{is_taken}

-- A booking goes from a taken unit to an available one.
module _ (org k : ℕ) (s : Store) (u v : InventoryUnit) (b b' : Booking) (sound : IsSound s)
    (at_u : find u.organization_id u.id s.units ≡ some u)
    (at_v : find v.organization_id v.id s.units ≡ some v)
    (at_b : find b'.organization_id b'.id s.bookings ≡ some b) (org_u : u.organization_id ≡ org)
    (org_v : v.organization_id ≡ org) (org_b : b'.organization_id ≡ org)
    (same_org : b.organization_id ≡ org) (apart : u.id ≢ v.id)
    (old_key : b.active_unit_key ≡ some u.id) (new_key : b'.active_unit_key ≡ some v.id)
    (taken : is_taken u.status ≡ true) (free : is_available v.status ≡ true) where
  abbrev pub released_unit : InventoryUnit
  released_unit = with_status UnitStatus.cancelled_released u

  abbrev pub booked_unit : InventoryUnit
  booked_unit = with_status UnitStatus.booked v

  find-both :
      (o i : ℕ)
      → find o i (put booked_unit (put released_unit s.units)) ≡ (
          if is_key o i v
          then some booked_unit
          else if is_key o i u
          then some released_unit
          else find o i s.units)
  find-both o i = ground (
    arith,
    find-put o i booked_unit (put released_unit s.units) v,
    find-put o i released_unit s.units u at_u,
    find-put v.organization_id v.id released_unit s.units u at_u,
  )

  pub move-IsInventory :
      IsInventory (put booked_unit (put released_unit s.units)) s.holds (put b' s.bookings)
  move-IsInventory = record {
    holds_keyed = sound.holds_keyed;
    bookings_keyed = put-IsKeyed b' s.bookings sound.bookings_keyed;
    held_once = λ o i w e.
        ground (
          arith,
          find-both o i,
          sound.held_once o i u,
          sound.held_once o i v,
          sound.held_once o i w,
        );
    occupied_once = λ o i w e. ground (
      arith,
      find-both o i,
      sum_of-put (occupies o i) (λ _. 1) b' s.bookings b at_b,
      sound.occupied_once o i u,
      sound.occupied_once o i v,
      sound.occupied_once o i w,
    );
  }
