-- ===== src/Inventory/Sound/Progress.antt =====
-- The bulk expiry of holds does not fail where every hold has its unit, and expires what is due:
-- `expire_due_holds` of backend/app/services/inventory.py.
use real_estate_crm.Base.{
  none, ◌≤◌, sym, ap, ◌∙◌, subst, false, elem, Bool-cases, if◌then◌else◌, ℕ, ◌+◌, ◌≡◌, refl, Bool,
  true, ◌&&◌, Option, some, List, [], ◌∷◌, ◌==◌, arith, is_some, inl, inr, Option-cases,
}
use real_estate_crm.Base.Result.{ok}
use real_estate_crm.Base.Table.{first, find, put, count_of}
use real_estate_crm.Base.Table.Laws.{find-put, find-key, find-update_all}
use real_estate_crm.Models.Rows.{InventoryUnit, UnitHold}
use real_estate_crm.Models.Store.{Store, unit_row, hold_row}
use real_estate_crm.Inventory.Expiry.{
  is_due, mark_hold_expired, expired_hold, freed_unit, expire_candidate, expire_loop,
  expire_due_holds, candidates, of_org,
}
use real_estate_crm.Inventory.Sound.Due.{
  HaveIds, expired_rows, rows-absent, rows-late, rows-put, rows-nil, rows-rows, rows-HaveIds,
  first_due, elem-candidates,
}

-- The foreign key from holds to units.
abbrev pub HaveUnits : List InventoryUnit → List UnitHold → Type 0
HaveUnits units [] = Unit
HaveUnits units (h ∷ hs) =
    (is_some (find h.organization_id h.unit_id units) ≡ true) × HaveUnits units hs

first-HaveUnits :
    (units : List InventoryUnit) (p : UnitHold → Bool) (hs : List UnitHold) (h : UnitHold)
    → HaveUnits units hs
    → first p hs ≡ some h
    → is_some (find h.organization_id h.unit_id units) ≡ true
first-HaveUnits units p [] h have e = ground arith
first-HaveUnits units p (g ∷ gs) h have e =
    ground (arith, have, first-HaveUnits units p gs h have.1)

put-HaveUnits :
    (units : List InventoryUnit) (x : UnitHold) (hs : List UnitHold)
    → is_some (find x.organization_id x.unit_id units) ≡ true
    → HaveUnits units hs
    → HaveUnits units (put x hs)
put-HaveUnits units x [] has have = tt
put-HaveUnits units x (h ∷ hs) has have = ground (arith, have, put-HaveUnits units x hs has have.1)

freed-HaveUnits :
    (units : List InventoryUnit) (u u' : InventoryUnit) (hs : List UnitHold)
    → find u'.organization_id u'.id units ≡ some u
    → HaveUnits units hs
    → HaveUnits (put u' units) hs
freed-HaveUnits units u u' [] at have = tt
freed-HaveUnits units u u' (h ∷ hs) at have = (
  ground (arith, have.0, find-put h.organization_id h.unit_id u' units u at),
  freed-HaveUnits units u u' hs at have.1,
)

and_again : (a b : Bool) → ((a && b) && a) ≡ (a && b)
and_again true true = refl
and_again true false = refl
and_again false b = refl

module _ (actor : Option ℕ) (now : ℕ) where
  mark_hold_expired-HaveUnits :
      (u : InventoryUnit) (h : UnitHold) (s : Store)
      → find u.organization_id u.id s.units ≡ some u
      → is_some (find h.organization_id h.unit_id s.units) ≡ true
      → HaveUnits s.units s.holds
      → HaveUnits
          (mark_hold_expired actor now u h s).1.units
          (mark_hold_expired actor now u h s).1.holds
  unfolding mark_hold_expired
  mark_hold_expired-HaveUnits u h s at has have =
      freed-HaveUnits s.units u (freed_unit u) (put (expired_hold now h) s.holds) at
        (put-HaveUnits s.units (expired_hold now h) s.holds has have)

  expire_candidate-runs :
      (k n : ℕ) (s : Store)
      → HaveUnits s.units s.holds
      → HaveIds s.holds
      → (n' : ℕ) × (s' : Store) × (expire_candidate actor now k (n, s) ≡ ok (n', s'))
        × HaveUnits s'.units s'.holds
        × (s'.holds ≡ expired_rows now (k ∷ []) s.holds)
  unfolding expire_candidate mark_hold_expired
  expire_candidate-runs k n s have ids =
      elim (Option-cases (first (λ (h : UnitHold). h.id == k) s.holds)) [
        | inl gone ↦
            (n, s, rw (gone, expire_candidate) refl, have, sym (rows-absent now k s.holds gone))
        | inr (c, is_c) ↦
            let has = first-HaveUnits s.units (λ h. h.id == k) s.holds c have is_c in
            let picked = first_due now k c.organization_id s.holds c ids is_c (ground arith) in
            elim (Option-cases (find c.organization_id c.unit_id s.units)) [
              | inl lost ↦ absurd (ground arith)
              | inr (u, at) ↦
                  let (same_org, same_id) = find-key c.organization_id c.unit_id s.units u at in
                  elim (Bool-cases (is_due now c)) [
                    | inr late ↦
                        let none_due =
                          picked ∙ ap (λ (b : Bool). if b then some c else none) late in
                        (
                          n,
                          s,
                          rw (is_c, at, none_due, expire_candidate) refl,
                          have,
                          sym (rows-late now k s.holds c ids is_c late),
                        )
                    | inl due ↦
                        let this = picked ∙ ap (λ (b : Bool). if b then some c else none) due in
                        (
                          n + 1,
                          (mark_hold_expired actor now u c s).1,
                          rw (is_c, at, this, expire_candidate) refl,
                          mark_hold_expired-HaveUnits u c s (ground arith) has have,
                          rows-put now k s.holds c ids is_c due,
                        )
                  ]
            ]
      ]

  expire_loop-runs :
      (ks : List ℕ) (n : ℕ) (s : Store)
      → HaveUnits s.units s.holds
      → HaveIds s.holds
      → (n' : ℕ) × (s' : Store) × (expire_loop actor now ks (n, s) ≡ ok (n', s'))
        × HaveUnits s'.units s'.holds
        × (s'.holds ≡ expired_rows now ks s.holds)
  unfolding expire_loop
  expire_loop-runs [] n s have ids = (n, s, refl, have, sym (rows-nil now s.holds))
  expire_loop-runs (k ∷ ks) n s have ids =
      let (n1, s1, ran, have1, rows1) = expire_candidate-runs k n s have ids in
      let ids1 = subst HaveIds (sym rows1) (rows-HaveIds now k s.holds ids) in
      let (n2, s2, ran', have2, rows2) = expire_loop-runs ks n1 s1 have1 ids1 in
      (
        n2,
        s2,
        rw (ran, expire_loop) ran',
        have2,
        rows2 ∙ ap (expired_rows now ks) rows1 ∙ rows-rows now k ks s.holds,
      )

-- Where every hold has its unit, holds differ in their identifiers, and no more holds are due
-- than one run takes, the bulk expiry of due holds returns without an error, every hold still has
-- its unit, and each hold is expired if it is due and of the organization asked for, and
-- otherwise as it was.
pub expire_due_holds-runs :
    (org : Option ℕ) (limit : ℕ) (actor : Option ℕ) (now : ℕ) (s : Store) (o k : ℕ) (h : UnitHold)
    → HaveUnits s.units s.holds
    → HaveIds s.holds
    → count_of (λ (g : UnitHold). is_due now g && of_org org g) s.holds ≤ limit
    → find o k s.holds ≡ some h
    → (n : ℕ) × (s' : Store) × (expire_due_holds org limit actor now s ≡ ok (n, s'))
      × HaveUnits s'.units s'.holds
      × (find o k s'.holds ≡ some (if is_due now h && of_org org h then expired_hold now h else h))
unfolding expire_due_holds
expire_due_holds-runs org limit actor now s o k h have ids few at =
    let ks = candidates org limit now s.holds in
    let (n, s', ran, have', rows) = expire_loop-runs actor now ks 0 s have ids in
    let (org_h, id_h) = find-key o k s.holds h at in
    let picked : elem k ks ≡ (is_due now h && of_org org h) =
      elem-candidates org limit now o k s.holds h ids few at in
    let test : (elem h.id ks && is_due now h) ≡ (is_due now h && of_org org h) =
      ap (λ (j : ℕ). elem j ks && is_due now h) id_h
      ∙ ap (λ (b : Bool). b && is_due now h) picked
      ∙ and_again (is_due now h) (of_org org h) in
    (
      n,
      s',
      ran,
      have',
      ap (λ (hs : List UnitHold). find o k hs) rows
          ∙ find-update_all (λ (g : UnitHold). elem g.id ks && is_due now g) (expired_hold now) o k
              s.holds h (λ y. (refl, refl)) at
          ∙ ap (λ (b : Bool). some (if b then expired_hold now h else h)) test,
    )
