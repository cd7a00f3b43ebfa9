-- ===== src/Inventory/Sound/Bulk.antt =====
-- The bulk expiry of holds, and with it the view of units, keeps the inventory sound.
use real_estate_crm.Base.{
  ℕ, ◌+◌, ◌≡◌, ◌&&◌, Option, none, some, List, [], ◌∷◌, ◌==◌, arith, ◌⊎◌, inl, inr, subst,
}
use real_estate_crm.Base.Result.{ok, >>=-eq-ok, Result-cases}
use real_estate_crm.Base.Table.{first, find}
use real_estate_crm.Base.Table.Laws.{first-test, find_of_first, find-key}
use real_estate_crm.Models.Rows.{InventoryUnit, UnitHold}
use real_estate_crm.Models.Store.{Store, unit_row, hold_row}
use real_estate_crm.Inventory.Expiry.{
  is_due, mark_hold_expired, expire_candidate, expire_loop, expire_due_holds, candidates,
  view_units,
}
use real_estate_crm.Inventory.Sound.Core.{IsSound}
use real_estate_crm.Inventory.Sound.Expiry.{mark_hold_expired-IsSound}

pub expire_candidate-inv :
    (actor : Option ℕ) (now k : ℕ) (acc acc' : ℕ × Store)
    → expire_candidate actor now k acc ≡ ok acc'
    → (acc' ≡ acc)
      ⊎ ((candidate : UnitHold) × (unit : InventoryUnit) × (hold : UnitHold) × (first
              (λ h. h.id == k)
              acc.1.holds
            ≡ some candidate)
          × (find candidate.organization_id candidate.unit_id acc.1.units ≡ some unit)
          × (first
                (λ h.
                  (h.organization_id == candidate.organization_id) && (h.id == k) && is_due now h)
                acc.1.holds
              ≡ some hold)
          × (acc' ≡ (acc.0 + 1, (mark_hold_expired actor now unit hold acc.1).1)))
unfolding expire_candidate
expire_candidate-inv actor now k acc acc' h = ground arith

expire_candidate-IsSound :
    (actor : Option ℕ) (now k : ℕ) (acc acc' : ℕ × Store)
    → IsSound acc.1
    → expire_candidate actor now k acc ≡ ok acc'
    → IsSound acc'.1
expire_candidate-IsSound actor now k acc acc' sound h =
    elim (expire_candidate-inv actor now k acc acc' h) [
      | inl same ↦ rw same sound
      | inr (c, unit, hold, is_c, at, is_hold, stored) ↦
          let p = λ (h : UnitHold).
            (h.organization_id == c.organization_id) && (h.id == k) && is_due now h in
          let at_c = find_of_first (λ h. h.id == k) acc.1.holds c sound.holds_keyed is_c in
          let at_hold = find_of_first p acc.1.holds hold sound.holds_keyed is_hold in
          let id_c = first-test (λ h. h.id == k) acc.1.holds c is_c in
          let test = first-test p acc.1.holds hold is_hold in
          let (same_org, same_id) = find-key c.organization_id c.unit_id acc.1.units unit at in
          let is_c' : hold ≡ c = ground arith in
          rw stored (
            mark_hold_expired-IsSound actor now unit hold acc.1 sound (ground arith) at_hold
              (ground arith))
    ]

expire_loop-IsSound :
    (actor : Option ℕ) (now : ℕ) (ks : List ℕ) (acc acc' : ℕ × Store)
    → IsSound acc.1
    → expire_loop actor now ks acc ≡ ok acc'
    → IsSound acc'.1
unfolding expire_loop
expire_loop-IsSound actor now [] acc acc' sound h =
    let e : acc ≡ acc' = ground arith in subst (λ (a : ℕ × Store). IsSound a.1) e sound
expire_loop-IsSound actor now (k ∷ ks) acc acc' sound h =
    let (mid, first_round, rest) =
      >>=-eq-ok (expire_candidate actor now k acc) (expire_loop actor now ks) h in
    expire_loop-IsSound actor now ks mid acc'
      (expire_candidate-IsSound actor now k acc mid sound first_round) rest

-- If each unit's status says how many holds reserve it and how many bookings occupy it, this
-- still holds after the bulk expiry of due holds.
pub expire_due_holds-IsSound :
    (org : Option ℕ) (limit : ℕ) (actor : Option ℕ) (now : ℕ) (s : Store) (n : ℕ) (s' : Store)
    → IsSound s
    → expire_due_holds org limit actor now s ≡ ok (n, s')
    → IsSound s'
unfolding expire_due_holds
expire_due_holds-IsSound org limit actor now s n s' sound h =
    expire_loop-IsSound actor now (candidates org limit now s.holds) (0, s) (n, s') sound h

-- So does the view of units at the end of a request.
pub view_units-IsSound :
    (org now : ℕ) (s : Store) → IsSound s → IsSound (view_units org now s).store
unfolding view_units
view_units-IsSound org now s sound =
    elim (Result-cases (expire_due_holds (some org) 200 none now s)) [
      | inl ((n, s'), e) ↦
          rw (e, view_units) (expire_due_holds-IsSound (some org) 200 none now s n s' sound e)
      | inr (e, failed) ↦ rw (failed, view_units) sound
    ]
