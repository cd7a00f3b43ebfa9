-- ===== src/Inventory/Sound/Holding.antt =====
-- How the counts of reserving holds move when one hold is written.
use real_estate_crm.Base.{ℕ, ◌+◌, ◌≡◌, true, false, some, List, arith}
use real_estate_crm.Base.Table.{count_of, is_key, find, put}
use real_estate_crm.Base.Table.Laws.{sum_of-put}
use real_estate_crm.Models.Enums.{is_reserving}
use real_estate_crm.Models.Rows.{InventoryUnit, UnitHold}
use real_estate_crm.Models.Store.{unit_row, hold_row}
use real_estate_crm.Inventory.Expiry.{reserves}

module _ (hold hold' : UnitHold) (holds : List UnitHold)
    (same_org : hold'.organization_id ≡ hold.organization_id) (same_id : hold'.id ≡ hold.id)
    (same_unit : hold'.unit_id ≡ hold.unit_id)
    (at : find hold.organization_id hold.id holds ≡ some hold) where
  found : find hold'.organization_id hold'.id holds ≡ some hold
  found = ground arith

  -- The holds of other units count as before.
  pub count_of-reserves_other :
      (o k : ℕ) (u : InventoryUnit)
      → reserves u.organization_id u.id hold ≡ true
      → is_key o k u ≡ false
      → count_of (reserves o k) (put hold' holds) ≡ count_of (reserves o k) holds
  count_of-reserves_other o k u h n =
      ground (arith, sum_of-put (reserves o k) (λ _. 1) hold' holds hold found)

  -- A hold that stops reserving is one less for its unit.
  pub count_of-reserves_end :
      (u : InventoryUnit)
      → reserves u.organization_id u.id hold ≡ true
      → is_reserving hold'.status ≡ false
      → count_of (reserves u.organization_id u.id) (put hold' holds) + 1
        ≡ count_of (reserves u.organization_id u.id) holds
  count_of-reserves_end u h e =
      ground (arith, sum_of-put (reserves u.organization_id u.id) (λ _. 1) hold' holds hold found)

  -- A hold that goes on reserving leaves the counts alone.
  pub count_of-reserves_keep :
      (o k : ℕ)
      → is_reserving hold'.status ≡ is_reserving hold.status
      → count_of (reserves o k) (put hold' holds) ≡ count_of (reserves o k) holds
  count_of-reserves_keep o k e =
      ground (arith, sum_of-put (reserves o k) (λ _. 1) hold' holds hold found)
