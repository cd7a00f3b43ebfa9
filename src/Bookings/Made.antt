-- ===== src/Bookings/Made.antt =====
-- A booking that is created keeps the inventory sound: `create_booking` of
-- backend/app/services/bookings.py.
use real_estate_crm.Base.{ℕ, ◌≡◌, refl, true, none, some, List, ◌∷◌, arith, or_else, inl, inr}
use real_estate_crm.Base.Result.{ok, Result-cases, >>=-eq-ok}
use real_estate_crm.Base.Table.{first, find, put}
use real_estate_crm.Base.Table.Laws.{find-key, put-IsKeyed, count_of-first-none}
use real_estate_crm.Models.Enums.{UnitStatus, HoldStatus, is_held, is_accepted}
use real_estate_crm.Models.Rows.{InventoryUnit, UnitHold, Booking, Quotation, Customer, User}
use real_estate_crm.Models.Store.{
  Store, Context, unit_row, hold_row, booking_row, quotation_row, customer_row, user_row,
}
use real_estate_crm.Inventory.Expiry.{reserves}
use real_estate_crm.Inventory.Holds.{with_status}
use real_estate_crm.Inventory.Desk.{occupies, converted_hold}
use real_estate_crm.Inventory.Sound.Core.{IsSound, unit_change}
use real_estate_crm.Inventory.Sound.Holding.{count_of-reserves_other, count_of-reserves_end}
use real_estate_crm.Bookings.Sound.{SameInventory}
use real_estate_crm.Bookings.Documents.{expire_due_documents, has_verified_kyc}
use real_estate_crm.Bookings.Parts.{
  JointApplicantInput, PaymentPlanInput, FinancingInput, no_financing, add_applicants, add_plan,
  upsert_financing,
}
use real_estate_crm.Bookings.Create.{
  BookingCreate, create_booking, create_body, check_offer, open_booking, add_booking, new_booking,
  add_parts, convert_hold,
}

module _ (org : ℕ) (ctx : Context) (s : Store) where
  add_applicants-SameInventory :
      (k : ℕ) (customer : Customer) (items : List JointApplicantInput) (s' : Store)
      → add_applicants org k customer items ctx s ≡ ok s'
      → SameInventory s s'
  unfolding add_applicants
  add_applicants-SameInventory k customer items s' h = ground arith

  pub add_plan-SameInventory :
      (b : Booking) (payload : PaymentPlanInput) (s' : Store)
      → add_plan org b payload ctx s ≡ ok s'
      → SameInventory s s'
  unfolding add_plan
  add_plan-SameInventory b payload s' h = ground arith

  pub upsert_financing-SameInventory :
      (k : ℕ) (payload : FinancingInput) → SameInventory s (upsert_financing org k payload ctx s)
  unfolding upsert_financing
  upsert_financing-SameInventory k payload = ground arith

module _ (org : ℕ) (ctx : Context) (s : Store) where
  pub add_parts-SameInventory :
      (b : Booking) (customer : Customer) (payload : BookingCreate) (s' : Store)
      → add_parts org b customer payload ctx s ≡ ok s'
      → SameInventory s s'
  unfolding add_parts
  add_parts-SameInventory b customer payload s' h =
      let (s1, first_part, rest) =
        >>=-eq-ok (add_applicants org b.id customer payload.joint_applicants ctx s) _ h in
      let (s2, second, third) = >>=-eq-ok (add_plan org b payload.payment_plan ctx s1) _ rest in
      let same =
        add_applicants-SameInventory org ctx s b.id customer payload.joint_applicants s1
          first_part in
      let same' = add_plan-SameInventory org ctx s1 b payload.payment_plan s2 second in
      let same'' =
        upsert_financing-SameInventory org ctx s2 b.id (or_else payload.financing no_financing) in
      ground arith

module _ (org : ℕ) (ctx : Context) (s : Store) where
  pub check_offer-inv :
      (u : InventoryUnit) (quote : Quotation) (customer_id : ℕ) (hold : UnitHold)
      → check_offer org u quote customer_id hold ctx s ≡ ok tt
      → (is_accepted quote.status ≡ true)
        × (hold.unit_id ≡ u.id)
        × (hold.customer_id ≡ some customer_id)
        × (hold.status ≡ HoldStatus.active)
        × (is_held u.status ≡ true)
        × (first (occupies org u.id) s.bookings ≡ none)
  unfolding check_offer
  check_offer-inv u quote customer_id hold h = ground arith

  pub add_booking-inv :
      (u : InventoryUnit) (hold : UnitHold) (b : Booking) (customer : Customer)
      (payload : BookingCreate) {s' : Store}
      → add_booking org u hold b customer payload ctx s ≡ ok s'
      → (t : Store) × (add_parts org b customer payload ctx (record s { bookings = b ∷ s.bookings })
          ≡ ok t)
        × (s' ≡ convert_hold org u hold b ctx t)
  unfolding add_booking
  add_booking-inv u hold b customer payload h = ground arith

  pub open_booking-inv :
      (quote : Quotation) (u : InventoryUnit) (hold : UnitHold) (customer_id : ℕ)
      (payload : BookingCreate) {s' : Store}
      → open_booking org quote u hold customer_id payload ctx s ≡ ok s'
      → (customer : Customer) × (salesperson : User) × (amount : ℕ) × (find org customer_id
            s.customers
          ≡ some customer)
        × (find org (or_else payload.salesperson_user_id ctx.actor_user_id) s.users
            ≡ some salesperson)
        × (has_verified_kyc org customer.id s ≡ true)
        × (quote.booking_amount ≡ some amount)
        × (add_booking org u hold
              (new_booking org u quote hold customer salesperson.id amount payload ctx)
              customer
              payload
              ctx
              s
            ≡ ok s')
  unfolding open_booking
  open_booking-inv quote u hold customer_id payload h = ground arith

  pub create_body-inv :
      (payload : BookingCreate) {s' : Store}
      → create_body org payload ctx s ≡ ok s'
      → (quote : Quotation) × (unit_id : ℕ) × (customer_id : ℕ) × (u : InventoryUnit)
        × (hold : UnitHold) × (find org payload.quotation_id s.quotations ≡ some quote)
        × (quote.unit_id ≡ some unit_id)
        × (quote.customer_id ≡ some customer_id)
        × (find org unit_id s.units ≡ some u)
        × (find org payload.unit_hold_id s.holds ≡ some hold)
        × (check_offer org u quote customer_id hold ctx s ≡ ok tt)
        × (open_booking org quote u hold customer_id payload ctx s ≡ ok s')
  unfolding create_body
  create_body-inv payload h = ground arith

  convert_hold-IsSound :
      (u : InventoryUnit) (hold : UnitHold) (b : Booking) (t : Store)
      → IsSound s
      → find org u.id s.units ≡ some u
      → find org hold.id s.holds ≡ some hold
      → hold.unit_id ≡ u.id
      → hold.status ≡ HoldStatus.active
      → first (occupies org u.id) s.bookings ≡ none
      → b.organization_id ≡ org
      → b.active_unit_key ≡ some u.id
      → find b.organization_id b.id s.bookings ≡ none
      → SameInventory (record s { bookings = b ∷ s.bookings }) t
      → IsSound (convert_hold org u hold b ctx t)
  convert_hold-IsSound u hold b t sound at at_h of_unit active open_unit same_org key fresh same =
      let (same_units, same_holds, same_bookings) = same in
      let gone = converted_hold ctx.now hold in
      let (org_u, id_u) = find-key org u.id s.units u at in
      let (org_h, id_h) = find-key org hold.id s.holds hold at_h in
      let at' : find u.organization_id u.id s.units ≡ some u = ground arith in
      let at_h' : find hold.organization_id hold.id s.holds ≡ some hold = ground arith in
      let mine : reserves u.organization_id u.id hold ≡ true = ground arith in
      let ended = count_of-reserves_end hold gone s.holds refl refl refl at_h' u mine refl in
      let once = sound.held_once u.organization_id u.id u at' in
      let none_occupies = count_of-first-none (occupies org u.id) s.bookings open_unit in
      rw (same_units, same_holds, same_bookings)
        (unit_change (put gone s.holds) (b ∷ s.bookings) u
          (with_status UnitStatus.booking_initiated u) sound at'
          (put-IsKeyed gone s.holds sound.holds_keyed) (fresh, sound.bookings_keyed)
          (λ o k n. count_of-reserves_other hold gone s.holds refl refl refl at_h' o k u mine n)
          (λ o k n. ground arith) (ground (arith, ended, once)) (ground (arith, none_occupies)))

  create_body-IsSound :
      (payload : BookingCreate) (s' : Store)
      → IsSound s
      → find org (ctx.new_id 0) s.bookings ≡ none
      → create_body org payload ctx s ≡ ok s'
      → IsSound s'
  create_body-IsSound payload s' sound fresh h =
      let (
        quote, unit_id, customer_id, u, hold, at_q, q_unit, q_customer, at, at_h, checked, opened,
      ) =
        create_body-inv payload h in
      let (accepted, of_unit, of_customer, active, is_held_unit, open_unit) =
        check_offer-inv u quote customer_id hold checked in
      let (customer, salesperson, amount, at_c, at_s, kyc, priced, added) =
        open_booking-inv quote u hold customer_id payload opened in
      let b = new_booking org u quote hold customer salesperson.id amount payload ctx in
      let (t, parts, stored) = add_booking-inv u hold b customer payload added in
      let (org_u, id_u) = find-key org unit_id s.units u at in
      let (org_h, id_h) = find-key org payload.unit_hold_id s.holds hold at_h in
      let at' : find org u.id s.units ≡ some u = ground arith in
      let at_h' : find org hold.id s.holds ≡ some hold = ground arith in
      rw stored (
        convert_hold-IsSound u hold b t sound at' at_h' of_unit active open_unit refl refl fresh (
          add_parts-SameInventory org ctx (record s { bookings = b ∷ s.bookings }) b customer
            payload t parts))

-- If each unit's status says how many holds reserve it and how many bookings occupy it, this
-- still holds after a request for a booking with a new identifier, whether it succeeds or fails
-- after its first commit.
pub create_booking-IsSound :
    (org : ℕ) (payload : BookingCreate) (ctx : Context) (s : Store)
    → IsSound s
    → find org (ctx.new_id 0) s.bookings ≡ none
    → IsSound (create_booking org payload ctx s).store
unfolding create_booking expire_due_documents
create_booking-IsSound org payload ctx s sound fresh =
    let t = expire_due_documents org ctx s in
    elim (Result-cases (create_body org payload ctx t)) [
      | inl (s', made) ↦
          rw (made, create_booking) (create_body-IsSound org ctx t payload s' sound fresh made)
      | inr (e, failed) ↦ rw (failed, create_booking) sound
    ]
