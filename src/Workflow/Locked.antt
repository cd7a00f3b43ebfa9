-- ===== src/Workflow/Locked.antt =====
-- A booking occupies its unit exactly while it is neither rejected nor cancelled.
use real_estate_crm.Base.{ℕ, ◌≤◌, ◌≡◌, ◌≢◌, Bool, true, Option, none, some, List, [], ◌∷◌, arith}
use real_estate_crm.Base.Table.{count_of, find, put}
use real_estate_crm.Base.Table.Laws.{find-key, find-put, sum_of-put, put-IsKeyed, le-sum_of}
use real_estate_crm.Models.Enums.{BookingStatus}
use real_estate_crm.Models.Rows.{InventoryUnit, UnitHold, Booking}
use real_estate_crm.Models.Store.{unit_row, booking_row}
use real_estate_crm.Inventory.Desk.{occupies}
use real_estate_crm.Inventory.Sound.Core.{IsInventory}

-- The key that a booking of this status has.
abbrev pub key_of : BookingStatus → ℕ → Option ℕ
key_of BookingStatus.rejected unit_id = none
key_of BookingStatus.cancelled unit_id = none
key_of _ unit_id = some unit_id

abbrev pub IsLocked : List Booking → Type 0
IsLocked bookings =
    (o k : ℕ) (b : Booking)
    → find o k bookings ≡ some b
    → b.active_unit_key ≡ key_of b.status b.unit_id

pub put-IsLocked :
    (b b' : Booking) (bookings : List Booking)
    → IsLocked bookings
    → find b'.organization_id b'.id bookings ≡ some b
    → b'.active_unit_key ≡ key_of b'.status b'.unit_id
    → IsLocked (put b' bookings)
put-IsLocked b b' bookings locked at mine o k c at_c =
    ground (arith, locked o k c, find-put o k b' bookings b at)

pub ∷-IsLocked :
    (b : Booking) (bookings : List Booking)
    → IsLocked bookings
    → b.active_unit_key ≡ key_of b.status b.unit_id
    → IsLocked (b ∷ bookings)
∷-IsLocked b bookings locked mine o k c at_c = ground (arith, locked o k c)

-- A booking that keeps its key leaves the inventory sound.
pub put-IsInventory :
    (b b' : Booking) {units : List InventoryUnit} {holds : List UnitHold} (bookings : List Booking)
    → IsInventory units holds bookings
    → find b'.organization_id b'.id bookings ≡ some b
    → b'.organization_id ≡ b.organization_id
    → b'.active_unit_key ≡ b.active_unit_key
    → IsInventory units holds (put b' bookings)
put-IsInventory b b' bookings sound at same_org same = record {
  holds_keyed = sound.holds_keyed;
  bookings_keyed = put-IsKeyed b' bookings sound.bookings_keyed;
  held_once = sound.held_once;
  occupied_once = λ o k u e.
      ground
        (arith, sum_of-put (occupies o k) (λ _. 1) b' bookings b at, sound.occupied_once o k u e);
}

-- Two rows of different identifiers that pass a test are counted twice.
two-count_of :
    (p : Booking → Bool) (o j k : ℕ) (xs : List Booking) (x y : Booking)
    → find o j xs ≡ some x
    → find o k xs ≡ some y
    → j ≢ k
    → p x ≡ true
    → p y ≡ true
    → 2 ≤ count_of p xs
two-count_of p o j k [] x y h h' n e e' = ground arith
two-count_of p o j k (z ∷ zs) x y h h' n e e' = ground (
  arith,
  two-count_of p o j k zs x y,
  le-sum_of p (λ _. 1) o j zs x,
  le-sum_of p (λ _. 1) o k zs y,
)

-- Two live bookings of one unit are the same booking.
pub one_live_booking :
    {units : List InventoryUnit} {holds : List UnitHold} (bookings : List Booking) (o i j k : ℕ)
    (u : InventoryUnit) (b c : Booking)
    → IsInventory units holds bookings
    → IsLocked bookings
    → find o i units ≡ some u
    → find o j bookings ≡ some b
    → find o k bookings ≡ some c
    → b.active_unit_key ≡ some i
    → c.active_unit_key ≡ some i
    → j ≡ k
one_live_booking bookings o i j k u b c sound locked at at_b at_c key key' =
    let (org_b, id_b) = find-key o j bookings b at_b in
    let (org_c, id_c) = find-key o k bookings c at_c in
    ground (
      arith,
      two-count_of (occupies o i) o j k bookings b c at_b at_c,
      sound.occupied_once o i u at,
    )
