-- ===== src/Workflow/Frames.antt =====
-- How each operation changes the bookings, and that it keeps them locked.
use real_estate_crm.Base.{
  ℕ, ◌≡◌, refl, inl, inr, Bool, Option, none, some, List, [], ◌∷◌, ◌∙◌, arith,
}
use real_estate_crm.Base.Result.{ok, Result-cases, >>=-eq-ok}
use real_estate_crm.Base.Table.{find, put}
use real_estate_crm.Base.Table.Laws.{find-key}
use real_estate_crm.Models.Rows.{Booking}
use real_estate_crm.Models.Store.{Store, Context, booking_row, unit_row}
use real_estate_crm.Inventory.Expiry.{
  expire_candidate, expire_loop, expire_due_holds, candidates, view_units, mark_hold_expired,
}
use real_estate_crm.Inventory.Sound.Bulk.{expire_candidate-inv}
use real_estate_crm.Inventory.Sound.Core.{IsSound}
use real_estate_crm.Bookings.Sound.{SameInventory}
use real_estate_crm.Bookings.Made.{add_plan-SameInventory}
use real_estate_crm.Bookings.Parts.{PaymentPlanInput, FinancingInput, add_plan, upsert_financing}
use real_estate_crm.Bookings.Flow.{set_payment_plan, set_financing, decide_payment}
use real_estate_crm.Workflow.Locked.{IsLocked, key_of, put-IsLocked, put-IsInventory}

expire_candidate-same :
    (actor : Option ℕ) (now k : ℕ) (acc acc' : ℕ × Store)
    → expire_candidate actor now k acc ≡ ok acc'
    → acc'.1.bookings ≡ acc.1.bookings
unfolding mark_hold_expired
expire_candidate-same actor now k acc acc' h = elim (expire_candidate-inv actor now k acc acc' h) [
  | inl same ↦ rw same refl
  | inr (c, unit, hold, is_c, at, is_hold, stored) ↦ rw stored refl
]

expire_loop-same :
    (actor : Option ℕ) (now : ℕ) (ks : List ℕ) (acc acc' : ℕ × Store)
    → expire_loop actor now ks acc ≡ ok acc'
    → acc'.1.bookings ≡ acc.1.bookings
unfolding expire_loop
expire_loop-same actor now [] acc acc' h = ground arith
expire_loop-same actor now (k ∷ ks) acc acc' h =
    let (mid, first_round, rest) =
      >>=-eq-ok (expire_candidate actor now k acc) (expire_loop actor now ks) h in
    expire_loop-same actor now ks mid acc' rest
    ∙ expire_candidate-same actor now k acc mid first_round

pub expire_due_holds-same :
    (org : Option ℕ) (limit : ℕ) (actor : Option ℕ) (now : ℕ) (s : Store) (n : ℕ) (s' : Store)
    → expire_due_holds org limit actor now s ≡ ok (n, s')
    → s'.bookings ≡ s.bookings
unfolding expire_due_holds
expire_due_holds-same org limit actor now s n s' h =
    expire_loop-same actor now (candidates org limit now s.holds) (0, s) (n, s') h

pub view_units-same : (org now : ℕ) (s : Store) → (view_units org now s).store.bookings ≡ s.bookings
unfolding view_units
view_units-same org now s = elim (Result-cases (expire_due_holds (some org) 200 none now s)) [
  | inl ((n, s'), e) ↦ rw (e, view_units) (expire_due_holds-same (some org) 200 none now s n s' e)
  | inr (e, failed) ↦ rw (failed, view_units) refl
]

-- The inventory is sound and its bookings are locked.
pub record IsSafe (s : Store) : Type 0 where
  pub sound : IsSound s
  pub locked : IsLocked s.bookings

-- A step that writes one booking, which keeps its key, is safe.
pub put-IsSafe :
    (org booking_id : ℕ) (b b' : Booking) (s s' : Store)
    → IsSafe s
    → find org booking_id s.bookings ≡ some b
    → b'.organization_id ≡ b.organization_id
    → b'.id ≡ b.id
    → b'.active_unit_key ≡ b.active_unit_key
    → b'.unit_id ≡ b.unit_id
    → key_of b'.status b.unit_id ≡ key_of b.status b.unit_id
    → s'.units ≡ s.units
    → s'.holds ≡ s.holds
    → s'.bookings ≡ put b' s.bookings
    → IsSafe s'
put-IsSafe org booking_id b b' s s' safe at same_org same_id same_key same_unit same_status e e'
      e'' =
    let (org_b, id_b) = find-key org booking_id s.bookings b at in
    let at' : find b'.organization_id b'.id s.bookings ≡ some b = ground arith in
    record {
      sound = rw (e, e', e'') (put-IsInventory b b' s.bookings safe.sound at' same_org same_key);
      locked = rw e'' (
          put-IsLocked b b' s.bookings safe.locked at'
            (ground (arith, safe.locked org booking_id b at)));
    }

pub SameInventory-IsSafe : (s t : Store) → SameInventory s t → IsSafe s → IsSafe t
SameInventory-IsSafe s t (e, e', e'') safe = record {
  sound = rw (e, e', e'') safe.sound;
  locked = rw e'' safe.locked;
}

module _ (org booking_id : ℕ) (ctx : Context) (s : Store) where
  set_payment_plan-inv :
      (payload : PaymentPlanInput) {s' : Store}
      → set_payment_plan org booking_id payload ctx s ≡ ok s'
      → (b : Booking) × (t : Store) × (find org booking_id s.bookings ≡ some b)
        × (add_plan org b payload ctx s ≡ ok t)
        × SameInventory t s'
  unfolding set_payment_plan
  set_payment_plan-inv payload h = ground arith

  pub set_payment_plan-IsSafe :
      (payload : PaymentPlanInput) (s' : Store)
      → IsSafe s
      → set_payment_plan org booking_id payload ctx s ≡ ok s'
      → IsSafe s'
  set_payment_plan-IsSafe payload s' safe h =
      let (b, t, at, added, same) = set_payment_plan-inv payload h in
      SameInventory-IsSafe t s' same
        (SameInventory-IsSafe s t (add_plan-SameInventory org ctx s b payload t added) safe)

  pub decide_payment-IsSafe :
      (payment_id : ℕ) (completed : Bool) (s' : Store)
      → IsSafe s
      → decide_payment org booking_id payment_id completed ctx s ≡ ok s'
      → IsSafe s'
  unfolding decide_payment
  decide_payment-IsSafe payment_id completed s' safe h =
      let same : SameInventory s s' = ground arith in SameInventory-IsSafe s s' same safe

  pub set_financing-IsSafe :
      (payload : FinancingInput) (s' : Store)
      → IsSafe s
      → set_financing org booking_id payload ctx s ≡ ok s'
      → IsSafe s'
  unfolding set_financing upsert_financing
  set_financing-IsSafe payload s' safe h =
      let same : SameInventory s s' = ground arith in SameInventory-IsSafe s s' same safe
