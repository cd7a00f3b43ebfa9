-- ===== src/Inventory/Sound/Expiry.antt =====
-- Expiring a hold keeps the inventory sound, and after the read of a unit its hold is known.
use real_estate_crm.Base.{
  ℕ, ◌≡◌, refl, true, Option, none, some, arith, leb, inl, inr, Option-cases, Bool-cases,
}
use real_estate_crm.Base.Table.{count_of, first, find, put}
use real_estate_crm.Base.Table.Laws.{
  first-test, find_of_first, count_of-first-none, put-IsKeyed, find-put, find-key, find-none-put,
}
use real_estate_crm.Models.Rows.{InventoryUnit, UnitHold}
use real_estate_crm.Models.Store.{Store, unit_row, hold_row, booking_row}
use real_estate_crm.Inventory.Expiry.{
  reserves, mark_hold_expired, expire_hold, expired_hold, freed_unit,
}
use real_estate_crm.Inventory.Sound.Core.{IsSound, unit_change}
use real_estate_crm.Inventory.Sound.Holding.{count_of-reserves_other, count_of-reserves_end}

pub mark_hold_expired-IsSound :
    (actor : Option ℕ) (now : ℕ) (unit : InventoryUnit) (hold : UnitHold) (s : Store)
    → IsSound s
    → find unit.organization_id unit.id s.units ≡ some unit
    → find hold.organization_id hold.id s.holds ≡ some hold
    → reserves unit.organization_id unit.id hold ≡ true
    → IsSound (mark_hold_expired actor now unit hold s).1
unfolding mark_hold_expired
mark_hold_expired-IsSound actor now unit hold s sound at_unit at_hold h =
    let gone = expired_hold now hold in
    let ended = count_of-reserves_end hold gone s.holds refl refl refl at_hold unit h refl in
    let once = sound.held_once unit.organization_id unit.id unit at_unit in
    let once' = sound.occupied_once unit.organization_id unit.id unit at_unit in
    unit_change (put gone s.holds) s.bookings unit (freed_unit unit) sound at_unit
      (put-IsKeyed gone s.holds sound.holds_keyed) sound.bookings_keyed
      (λ o k n. count_of-reserves_other hold gone s.holds refl refl refl at_hold o k unit h n)
      (λ o k n. refl) (ground (arith, ended, once)) (ground (arith, ended, once, once'))

-- What the read of a unit's hold says: there is none, or it is the one that reserves the unit.
abbrev pub IsHoldOf : InventoryUnit → Store → Option UnitHold → Type 0
IsHoldOf u s none = count_of (reserves u.organization_id u.id) s.holds ≡ 0
IsHoldOf u s (some h) =
    (reserves u.organization_id u.id h ≡ true) × (find h.organization_id h.id s.holds ≡ some h)

-- The state after the read of a unit, with its hold, the unit as it is now, and the store.
pub record IsRead (o k : ℕ) (s : Store) (r : Option UnitHold × InventoryUnit × Store) : Type 0 where
  pub fresh : (o' k' : ℕ) → find o' k' s.holds ≡ none → find o' k' r.2.holds ≡ none
  pub same_bookings : r.2.bookings ≡ s.bookings
  pub sound : IsSound r.2
  pub same_org : r.1.organization_id ≡ o
  pub same_id : r.1.id ≡ k
  pub at_unit : find r.1.organization_id r.1.id r.2.units ≡ some r.1
  pub hold : IsHoldOf r.1 r.2 r.0

pub expire_hold-IsRead :
    (actor : Option ℕ) (now o k : ℕ) (unit : InventoryUnit) (s : Store)
    → IsSound s
    → find o k s.units ≡ some unit
    → IsRead o k s (expire_hold actor now unit s)
unfolding expire_hold mark_hold_expired
expire_hold-IsRead actor now o k unit s sound e =
    let (same_org, same_id) = find-key o k s.units unit e in
    let at_unit : find unit.organization_id unit.id s.units ≡ some unit = ground arith in
    elim (Option-cases (first (reserves unit.organization_id unit.id) s.holds)) [
      | inl absent ↦
          rw (absent, expire_hold)
            (record {
              fresh = λ o' k' n. n;
              same_bookings = refl;
              sound = sound;
              same_org = same_org;
              same_id = same_id;
              at_unit = at_unit;
              hold = count_of-first-none _ s.holds absent;
            })
      | inr (h, present) ↦
          let mine = first-test (reserves unit.organization_id unit.id) s.holds h present in
          let at_hold =
            find_of_first (reserves unit.organization_id unit.id) s.holds h sound.holds_keyed
              present in
          elim (Bool-cases (leb h.expires_at now)) [
            | inl due ↦
                rw (present, due, expire_hold)
                  (record {
                    fresh = λ o' k' n. find-none-put o' k' (expired_hold now h) s.holds n;
                    same_bookings = refl;
                    sound = mark_hold_expired-IsSound actor now unit h s sound at_unit at_hold mine;
                    same_org = same_org;
                    same_id = same_id;
                    at_unit = ground (
                      arith,
                      find-put unit.organization_id unit.id (freed_unit unit) s.units unit at_unit,
                    );
                    hold = ground (
                      arith,
                      count_of-reserves_end h (expired_hold now h) s.holds refl refl refl at_hold
                          unit mine refl,
                      sound.held_once unit.organization_id unit.id unit at_unit,
                    );
                  })
            | inr later ↦
                rw (present, later, expire_hold)
                  (record {
                    fresh = λ o' k' n. n;
                    same_bookings = refl;
                    sound = sound;
                    same_org = same_org;
                    same_id = same_id;
                    at_unit = at_unit;
                    hold = (mine, at_hold);
                  })
          ]
    ]
