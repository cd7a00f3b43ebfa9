-- ===== src/Inventory/Sound/Holds.antt =====
-- Creating, deciding and releasing a hold keeps the inventory sound.
use real_estate_crm.Base.{
  ℕ, String, ◌<◌, ◌≡◌, refl, true, false, none, some, ◌∷◌, arith, subst, inl, inr, ◌⊎◌, ◌≢◌,
  Bool-cases, or_else, is_some,
}
use real_estate_crm.Base.Result.{ok, Reply, done, raised_after_commit}
use real_estate_crm.Base.Table.{count_of, find, put}
use real_estate_crm.Base.Table.Laws.{put-IsKeyed}
use real_estate_crm.Models.Enums.{UnitStatus, HoldStatus, of_hold_type}
use real_estate_crm.Models.Rows.{InventoryUnit, UnitHold, User}
use real_estate_crm.Models.Store.{Store, Context, unit_row, hold_row, booking_row, user_row}
use real_estate_crm.Inventory.Expiry.{reserves, expire_hold, view_units}
use real_estate_crm.Inventory.Sound.Bulk.{view_units-IsSound}
use real_estate_crm.Base.Result.Codes.{no_active_hold}
use real_estate_crm.Inventory.Holds.{
  UnitHoldCreate, HoldApprovalDecision, create_hold, new_hold, store_hold, with_status, decide_hold,
  is_mismatched, store_decision, approve, reject, release_hold, released_hold, store_release,
}
use real_estate_crm.Inventory.Sound.Core.{IsSound, unit_change}
use real_estate_crm.Inventory.Sound.Holding.{
  count_of-reserves_other, count_of-reserves_end, count_of-reserves_keep,
}
use real_estate_crm.Inventory.Sound.Expiry.{IsHoldOf, expire_hold-IsRead}

module _ (org unit_id : ℕ) (payload : UnitHoldCreate) (ctx : Context) (s : Store) where
  -- What a hold that was created had to meet, and what it stored.
  pub create_hold-inv :
      {s' : Store}
      → create_hold org unit_id payload ctx s ≡ ok s'
      → (found : InventoryUnit) × (salesperson : User) × (find org unit_id s.units ≡ some found)
        × (let r = expire_hold (some ctx.actor_user_id) ctx.now found s in
            (r.0 ≡ none)
            × (r.1.status ≡ UnitStatus.available)
            × (ctx.now < payload.expires_at)
            × (find org (or_else payload.salesperson_user_id ctx.actor_user_id) r.2.users
                ≡ some salesperson)
            × (salesperson.is_active ≡ true)
            × (s'
                ≡ store_hold org r.1
                    (new_hold org r.1 salesperson.id payload ctx)
                    payload.hold_type
                    ctx
                    r.2))
  unfolding create_hold
  create_hold-inv h = ground arith

  store_hold-IsSound :
      (u : InventoryUnit) (salesperson_id : ℕ) (t : Store)
      → IsSound t
      → u.organization_id ≡ org
      → find u.organization_id u.id t.units ≡ some u
      → u.status ≡ UnitStatus.available
      → count_of (reserves u.organization_id u.id) t.holds ≡ 0
      → find org (ctx.new_id 0) t.holds ≡ none
      → IsSound
          (store_hold org u (new_hold org u salesperson_id payload ctx) payload.hold_type ctx t)
  store_hold-IsSound u salesperson_id t sound same at free empty fresh =
      let h = new_hold org u salesperson_id payload ctx in
      unit_change (h ∷ t.holds) t.bookings u (with_status (of_hold_type payload.hold_type) u) sound
        at (fresh, sound.holds_keyed) sound.bookings_keyed (λ o k n. ground arith) (λ o k n. refl)
        (ground arith) (ground (arith, sound.occupied_once u.organization_id u.id u at))

  -- If each unit's status says how many holds reserve it and how many bookings occupy it, this
  -- still holds after a hold with a new identifier is created.
  pub create_hold-IsSound :
      (s' : Store)
      → IsSound s
      → find org (ctx.new_id 0) s.holds ≡ none
      → create_hold org unit_id payload ctx s ≡ ok s'
      → IsSound s'
  create_hold-IsSound s' sound fresh h =
      let (found, salesperson, at, facts) = create_hold-inv h in
      let (free, available, later, at_user, is_active, stored) = facts in
      let r = expire_hold (some ctx.actor_user_id) ctx.now found s in
      let read = expire_hold-IsRead (some ctx.actor_user_id) ctx.now org unit_id found s sound at in
      rw stored (
        store_hold-IsSound r.1 salesperson.id r.2 read.sound read.same_org read.at_unit available
          (subst (IsHoldOf r.1 r.2) free read.hold) (read.fresh org (ctx.new_id 0) fresh))

-- What a decision on a hold did: it changed nothing but an expiry, or it decided the hold that
-- reserves the unit, by another user than the one who holds it.
module _ (org hold_id : ℕ) (payload : HoldApprovalDecision) (ctx : Context) (s : Store) where
  pub decide_hold-inv :
      {reply : Reply Store}
      → decide_hold org hold_id payload ctx s ≡ ok reply
      → (candidate : UnitHold) × (found : InventoryUnit) × (find org hold_id s.holds
          ≡ some candidate)
        × (find org candidate.unit_id s.units ≡ some found)
        × (let r = expire_hold (some ctx.actor_user_id) ctx.now found s in
            ((is_some reply.raised ≡ true) × (reply.store ≡ r.2))
            ⊎ ((hold : UnitHold) × (r.0 ≡ some hold)
                × (hold.id ≡ hold_id)
                × (hold.status ≡ HoldStatus.pending_approval)
                × (hold.held_by_user_id ≢ ctx.actor_user_id)
                × (is_mismatched hold.hold_type r.1.status ≡ false)
                × (reply ≡ done (store_decision org r.1 hold payload ctx r.2))))
  unfolding decide_hold
  decide_hold-inv h = ground arith

  store_decision-IsSound :
      (u : InventoryUnit) (h : UnitHold) (t : Store)
      → IsSound t
      → find u.organization_id u.id t.units ≡ some u
      → reserves u.organization_id u.id h ≡ true
      → find h.organization_id h.id t.holds ≡ some h
      → h.status ≡ HoldStatus.pending_approval
      → IsSound (store_decision org u h payload ctx t)
  store_decision-IsSound u h t sound at mine at_hold pending =
      let yes_hold = approve payload ctx h in
      let no_hold = reject payload ctx h in
      let ended = count_of-reserves_end h no_hold t.holds refl refl refl at_hold u mine refl in
      let once = sound.held_once u.organization_id u.id u at in
      let once' = sound.occupied_once u.organization_id u.id u at in
      elim (Bool-cases payload.approved) [
        | inl e ↦ rw e (record {
          holds_keyed = put-IsKeyed yes_hold t.holds sound.holds_keyed;
          bookings_keyed = sound.bookings_keyed;
          held_once = λ o k v f. ground (
            arith,
            count_of-reserves_keep h yes_hold t.holds refl refl refl at_hold o k,
            sound.held_once o k v f,
          );
          occupied_once = sound.occupied_once;
        })
        | inr e ↦ rw e (
            unit_change (put no_hold t.holds) t.bookings u (with_status UnitStatus.available u)
              sound at (put-IsKeyed no_hold t.holds sound.holds_keyed) sound.bookings_keyed
              (λ o k n.
                count_of-reserves_other h no_hold t.holds refl refl refl at_hold o k u mine n)
              (λ o k n. refl) (ground (arith, ended, once)) (ground (arith, ended, once, once')))
      ]

  -- Deciding a hold keeps the inventory sound, also where it raises after the commit of an expiry.
  pub decide_hold-IsSound :
      (reply : Reply Store)
      → IsSound s
      → decide_hold org hold_id payload ctx s ≡ ok reply
      → IsSound reply.store
  decide_hold-IsSound reply sound h =
      let (candidate, found, at_hold, at, outcome) = decide_hold-inv h in
      let r = expire_hold (some ctx.actor_user_id) ctx.now found s in
      let read =
        expire_hold-IsRead (some ctx.actor_user_id) ctx.now org candidate.unit_id found s sound
          at in
      elim outcome [
        | inl (raised, same) ↦ rw same read.sound
        | inr (hold, present, same_id, pending, other, matched, stored) ↦
            let (mine, at_hold') = subst (IsHoldOf r.1 r.2) present read.hold in
            rw stored
              (store_decision-IsSound r.1 hold r.2 read.sound read.at_unit mine at_hold' pending)
      ]

module _ (org unit_id : ℕ) (reason : String) (ctx : Context) (s : Store) where
  pub release_hold-inv :
      {reply : Reply Store}
      → release_hold org unit_id reason ctx s ≡ ok reply
      → (found : InventoryUnit) × (find org unit_id s.units ≡ some found)
        × (let r = expire_hold (some ctx.actor_user_id) ctx.now found s in
            ((r.0 ≡ none) × (reply ≡ raised_after_commit r.2 409 no_active_hold))
            ⊎ ((hold : UnitHold) × (r.0 ≡ some hold)
                × (reply ≡ view_units org ctx.now (store_release org r.1 hold reason ctx r.2))))
  unfolding release_hold
  release_hold-inv h = ground arith

  store_release-IsSound :
      (u : InventoryUnit) (h : UnitHold) (t : Store)
      → IsSound t
      → find u.organization_id u.id t.units ≡ some u
      → reserves u.organization_id u.id h ≡ true
      → find h.organization_id h.id t.holds ≡ some h
      → IsSound (store_release org u h reason ctx t)
  store_release-IsSound u h t sound at mine at_hold =
      let gone = released_hold reason ctx.now h in
      let ended = count_of-reserves_end h gone t.holds refl refl refl at_hold u mine refl in
      let once = sound.held_once u.organization_id u.id u at in
      let once' = sound.occupied_once u.organization_id u.id u at in
      unit_change (put gone t.holds) t.bookings u (with_status UnitStatus.available u) sound at
        (put-IsKeyed gone t.holds sound.holds_keyed) sound.bookings_keyed
        (λ o k n. count_of-reserves_other h gone t.holds refl refl refl at_hold o k u mine n)
        (λ o k n. refl) (ground (arith, ended, once)) (ground (arith, ended, once, once'))

  -- If each unit's status says how many holds reserve it and how many bookings occupy it, this
  -- still holds after a request to release a unit's hold that is not refused before a commit,
  -- with the expiry that it begins with and the one that the view of the unit ends with.
  pub release_hold-IsSound :
      (reply : Reply Store)
      → IsSound s
      → release_hold org unit_id reason ctx s ≡ ok reply
      → IsSound reply.store
  release_hold-IsSound reply sound h =
      let (found, at, outcome) = release_hold-inv h in
      let r = expire_hold (some ctx.actor_user_id) ctx.now found s in
      let read = expire_hold-IsRead (some ctx.actor_user_id) ctx.now org unit_id found s sound at in
      elim outcome [
        | inl (absent, same) ↦ rw same read.sound
        | inr (hold, present, stored) ↦
            let (mine, at_hold) = subst (IsHoldOf r.1 r.2) present read.hold in
            rw stored (
              view_units-IsSound org ctx.now (store_release org r.1 hold reason ctx r.2)
                (store_release-IsSound r.1 hold r.2 read.sound read.at_unit mine at_hold))
      ]
