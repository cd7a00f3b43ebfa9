-- ===== src/Inventory/Expiry.antt =====
-- The expiry of holds, at the read of a unit and in bulk: `_mark_hold_expired`, `_expire_hold` and
-- `expire_due_holds` of backend/app/services/inventory.py.
use real_estate_crm.Base.{
  ℕ, zero, suc, ◌+◌, Bool, true, ◌&&◌, Option, none, some, List, [], ◌∷◌, map, leb, ◌==◌,
  if◌then◌else◌,
}
use real_estate_crm.Base.Result.{Result, ok, err, ◌>>=◌, Reply, done}
use real_estate_crm.Base.Table.{select, first, put, entity}
use real_estate_crm.Models.Enums.{UnitStatus, HoldStatus, is_held, is_reserving}
use real_estate_crm.Models.Rows.{InventoryUnit, UnitHold}
use real_estate_crm.Models.Store.{Store, audit, queue_in_app, unit_row, hold_row}

-- `UnitHold.unit_id == k` with a status of `RESERVING_HOLD_STATUSES`, in organization `o`.
abbrev pub reserves : ℕ → ℕ → UnitHold → Bool
reserves o k h = (h.organization_id == o) && (h.unit_id == k) && is_reserving h.status

abbrev pub expired_hold : ℕ → UnitHold → UnitHold
expired_hold now hold = record hold {
  status = HoldStatus.expired;
  active_unit_key = none;
  released_at = some now;
  release_reason = some "Expired automatically";
}

abbrev pub freed_unit : InventoryUnit → InventoryUnit
freed_unit unit = record unit {
  status = if is_held unit.status then UnitStatus.available else unit.status;
}

-- The unit is changed in place, so it is returned beside the store.
unfoldable pub mark_hold_expired :
    Option ℕ → ℕ → InventoryUnit → UnitHold → Store → InventoryUnit × Store
mark_hold_expired actor now unit hold s =
    let unit' = freed_unit unit in
    let s1 = audit unit.organization_id actor now "unit.hold.expired" "unit_hold" hold.id s in
    (
      unit',
      record s1 {
        holds = put (expired_hold now hold) s.holds;
        units = put unit' s.units;
        notifications =
            queue_in_app unit.organization_id (some hold.held_by_user_id ∷ []) "UNIT_HOLD_EXPIRED"
              "unit_hold" hold.id now s.notifications;
      },
    )

-- The reserving hold of a unit, unless it is due: then it is expired.
unfoldable pub expire_hold :
    Option ℕ → ℕ → InventoryUnit → Store → Option UnitHold × InventoryUnit × Store
unfolding mark_hold_expired
expire_hold actor now unit s = elim (first (reserves unit.organization_id unit.id) s.holds) [
  | none ↦ (none, unit, s)
  | some hold ↦
      if leb hold.expires_at now
      then (let (unit', s') = mark_hold_expired actor now unit hold s in (none, unit', s'))
      else (some hold, unit, s)
]

-- `UnitHold.status.in_(RESERVING_HOLD_STATUSES), UnitHold.expires_at <= _now()`
abbrev pub is_due : ℕ → UnitHold → Bool
is_due now h = is_reserving h.status && leb h.expires_at now

abbrev pub of_org : Option ℕ → UnitHold → Bool
of_org none h = true
of_org (some o) h = h.organization_id == o

-- `order_by(UnitHold.expires_at)`
unfoldable pub insert_by_expiry : UnitHold → List UnitHold → List UnitHold
insert_by_expiry h [] = h ∷ []
insert_by_expiry h (g ∷ gs) =
    if leb h.expires_at g.expires_at then h ∷ g ∷ gs else g ∷ insert_by_expiry h gs

unfoldable pub sort_by_expiry : List UnitHold → List UnitHold
unfolding insert_by_expiry
sort_by_expiry [] = []
sort_by_expiry (h ∷ hs) = insert_by_expiry h (sort_by_expiry hs)

-- `limit(limit)`
unfoldable pub take {ℓ} : {A : Type ℓ} → ℕ → List A → List A
take zero xs = []
take (suc n) [] = []
take (suc n) (x ∷ xs) = x ∷ take n xs

unfoldable pub candidates : Option ℕ → ℕ → ℕ → List UnitHold → List ℕ
unfolding sort_by_expiry take
candidates org limit now holds =
    map (λ h. h.id) (take limit (sort_by_expiry (select (λ h. is_due now h && of_org org h) holds)))

-- One round of the loop, on the number of holds expired so far.
unfoldable pub expire_candidate : Option ℕ → ℕ → ℕ → ℕ × Store → Result (ℕ × Store)
unfolding mark_hold_expired
expire_candidate actor now k (expired, s) = elim (first (λ h. h.id == k) s.holds) [
  | none ↦ ok (expired, s)
  | some candidate ↦ do
    unit ← entity candidate.organization_id candidate.unit_id s.units
    elim (first
        (λ h. (h.organization_id == candidate.organization_id) && (h.id == k) && is_due now h)
        s.holds) [
          | none ↦ ok (expired, s)
          | some hold ↦ ok (expired + 1, (mark_hold_expired actor now unit hold s).1)
        ]
]

unfoldable pub expire_loop : Option ℕ → ℕ → List ℕ → ℕ × Store → Result (ℕ × Store)
expire_loop actor now [] acc = ok acc
expire_loop actor now (k ∷ ks) acc = expire_candidate actor now k acc >>= expire_loop actor now ks

unfoldable pub expire_due_holds : Option ℕ → ℕ → Option ℕ → ℕ → Store → Result (ℕ × Store)
unfolding expire_loop expire_candidate candidates
expire_due_holds org limit actor now s =
    expire_loop actor now (candidates org limit now s.holds) (0, s)

-- `_unit_views` of one unit begins with this, after the request has committed: what it raises
-- does not undo the request.
unfoldable pub view_units : ℕ → ℕ → Store → Reply Store
unfolding expire_due_holds
view_units org now s = elim (expire_due_holds (some org) 200 none now s) [
  | ok (expired, s') ↦ done s'
  | err e ↦ record { store = s; raised = some e }
]
