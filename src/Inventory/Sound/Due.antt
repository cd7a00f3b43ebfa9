-- ===== src/Inventory/Sound/Due.antt =====
-- The holds that the bulk expiry picks and what becomes of their rows: `expire_due_holds` of
-- backend/app/services/inventory.py.
use real_estate_crm.Base.{
  ℕ, zero, suc, ◌+◌, ◌≤◌, ◌≡◌, refl, ap, ◌∙◌, Bool, true, false, ◌&&◌, ◌||◌, Option, none, some,
  List, [], ◌∷◌, ◌==◌, elem, map, is_some, if◌then◌else◌, arith, inl, inr, Bool-cases,
}
use real_estate_crm.Base.Table.{first, find, select, put, count_of, update_all}
use real_estate_crm.Base.Table.Laws.{first-test}
use real_estate_crm.Models.Rows.{UnitHold}
use real_estate_crm.Models.Store.{hold_row}
use real_estate_crm.Inventory.Expiry.{
  is_due, of_org, expired_hold, take, insert_by_expiry, sort_by_expiry, candidates,
}

-- Identifiers are unique in the table.
abbrev pub HaveIds : List UnitHold → Type 0
HaveIds [] = Unit
HaveIds (h ∷ hs) = (first (λ (g : UnitHold). g.id == h.id) hs ≡ none) × HaveIds hs

-- Every hold of an identifier of the list that is due becomes an expired one.
abbrev pub expired_rows : ℕ → List ℕ → List UnitHold → List UnitHold
expired_rows now ks = update_all (λ h. elem h.id ks && is_due now h) (expired_hold now)

module _ (now k : ℕ) where
  rows-none :
      (hs : List UnitHold)
      → first (λ (h : UnitHold). h.id == k) hs ≡ none
      → expired_rows now (k ∷ []) hs ≡ hs
  rows-none [] absent = refl
  rows-none (h ∷ hs) absent = ground (arith, rows-none hs)

  pub rows-late :
      (hs : List UnitHold) (c : UnitHold)
      → HaveIds hs
      → first (λ (h : UnitHold). h.id == k) hs ≡ some c
      → is_due now c ≡ false
      → expired_rows now (k ∷ []) hs ≡ hs
  rows-late [] c ids at late = refl
  rows-late (h ∷ hs) c ids at late = ground (arith, ids, rows-late hs c ids.1, rows-none hs)

  pub rows-put :
      (hs : List UnitHold) (c : UnitHold)
      → HaveIds hs
      → first (λ (h : UnitHold). h.id == k) hs ≡ some c
      → is_due now c ≡ true
      → put (expired_hold now c) hs ≡ expired_rows now (k ∷ []) hs
  rows-put [] c ids at due = refl
  rows-put (h ∷ hs) c ids at due =
      ground (
        arith,
        ids,
        rows-put hs c ids.1,
        rows-none hs,
        first-test (λ (g : UnitHold). g.id == k) hs c,
      )

  pub rows-absent :
      (hs : List UnitHold)
      → first (λ (h : UnitHold). h.id == k) hs ≡ none
      → expired_rows now (k ∷ []) hs ≡ hs
  rows-absent = rows-none

  first-and :
      (p : UnitHold → Bool) (hs : List UnitHold)
      → first (λ (h : UnitHold). h.id == k) hs ≡ none
      → first (λ (h : UnitHold). (h.id == k) && p h) hs ≡ none
  first-and p [] absent = refl
  first-and p (h ∷ hs) absent = ground (arith, first-and p hs)

  none_due :
      (o : ℕ) (hs : List UnitHold)
      → first (λ (h : UnitHold). h.id == k) hs ≡ none
      → first (λ (h : UnitHold). (h.organization_id == o) && (h.id == k) && is_due now h) hs ≡ none
  none_due o [] absent = refl
  none_due o (h ∷ hs) absent = ground (arith, none_due o hs)

  -- With unique identifiers, the second query of a round finds the row of the first.
  pub first_due :
      (o : ℕ) (hs : List UnitHold) (c : UnitHold)
      → HaveIds hs
      → first (λ (h : UnitHold). h.id == k) hs ≡ some c
      → (c.organization_id == o) ≡ true
      → first (λ (h : UnitHold). (h.organization_id == o) && (h.id == k) && is_due now h) hs
        ≡ (if is_due now c then some c else none)
  first_due o [] c ids at same = absurd (cc)
  first_due o (h ∷ hs) c ids at same = elim (Bool-cases (h.id == k)) [
    | inl mine ↦
        let this : h ≡ c = ground arith in
        let absent : first (λ (g : UnitHold). g.id == k) hs ≡ none = ground (arith, ids) in
        let rest = none_due o hs absent in
        rw (← this)
          (elim (Bool-cases (is_due now h)) [ inl due ↦ ground arith | inr late ↦ ground arith ])
    | inr other ↦
        let later : first (λ (g : UnitHold). g.id == k) hs ≡ some c = ground arith in
        let rest = first_due o hs c ids.1 later same in
        elim (Bool-cases (h.organization_id == o)) [
          | inl here ↦ rw (here, other) rest
          | inr there ↦ rw there rest
        ]
  ]

  rows-first :
      (j : ℕ) (hs : List UnitHold)
      → first (λ (h : UnitHold). h.id == j) hs ≡ none
      → first (λ (h : UnitHold). h.id == j) (expired_rows now (k ∷ []) hs) ≡ none
  rows-first j [] absent = refl
  rows-first j (h ∷ hs) absent = ground (arith, rows-first j hs)

  pub rows-HaveIds : (hs : List UnitHold) → HaveIds hs → HaveIds (expired_rows now (k ∷ []) hs)
  rows-HaveIds [] ids = tt
  rows-HaveIds (h ∷ hs) ids = ground (arith, rows-HaveIds hs ids.1, rows-first h.id hs ids.0)

  -- A round and the rounds after it.
  pub rows-rows :
      (ks : List ℕ) (hs : List UnitHold)
      → expired_rows now ks (expired_rows now (k ∷ []) hs) ≡ expired_rows now (k ∷ ks) hs
  rows-rows ks [] = refl
  rows-rows ks (h ∷ hs) = ground (arith, rows-rows ks hs)

pub rows-nil : (now : ℕ) (hs : List UnitHold) → expired_rows now [] hs ≡ hs
rows-nil now [] = refl
rows-nil now (h ∷ hs) = ground (arith, rows-nil now hs)

take-all : (n : ℕ) (hs : List UnitHold) → count_of (λ (h : UnitHold). true) hs ≤ n → take n hs ≡ hs
unfolding take
take-all zero [] h = refl
take-all zero (g ∷ gs) h = absurd (omega arith)
take-all (suc n) [] h = refl
take-all (suc n) (g ∷ gs) h = ap (λ (xs : List UnitHold). g ∷ xs) (take-all n gs (omega arith))

count_of-insert_by_expiry :
    (h : UnitHold) (hs : List UnitHold)
    → count_of (λ (g : UnitHold). true) (insert_by_expiry h hs)
      ≡ 1 + count_of (λ (g : UnitHold). true) hs
unfolding insert_by_expiry
count_of-insert_by_expiry h [] = refl
count_of-insert_by_expiry h (g ∷ gs) = ground (arith, count_of-insert_by_expiry h gs)

count_of-sort_by_expiry :
    (p : UnitHold → Bool) (hs : List UnitHold)
    → count_of (λ (g : UnitHold). true) (sort_by_expiry (select p hs)) ≡ count_of p hs
unfolding sort_by_expiry
count_of-sort_by_expiry p [] = refl
count_of-sort_by_expiry p (h ∷ hs) = ground (
  arith,
  count_of-sort_by_expiry p hs,
  count_of-insert_by_expiry h (sort_by_expiry (select p hs)),
)

elem-insert_by_expiry :
    (j : ℕ) (h : UnitHold) (hs : List UnitHold)
    → elem j (map (λ (g : UnitHold). g.id) (insert_by_expiry h hs))
      ≡ ((j == h.id) || elem j (map (λ (g : UnitHold). g.id) hs))
unfolding insert_by_expiry
elem-insert_by_expiry j h [] = refl
elem-insert_by_expiry j h (g ∷ gs) = ground (arith, elem-insert_by_expiry j h gs)

elem-sort_by_expiry :
    (j : ℕ) (p : UnitHold → Bool) (hs : List UnitHold)
    → elem j (map (λ (g : UnitHold). g.id) (sort_by_expiry (select p hs)))
      ≡ is_some (first (λ (g : UnitHold). (g.id == j) && p g) hs)
unfolding sort_by_expiry
elem-sort_by_expiry j p [] = refl
elem-sort_by_expiry j p (h ∷ hs) =
    ground
      (arith, elem-sort_by_expiry j p hs, elem-insert_by_expiry j h (sort_by_expiry (select p hs)))

find-first :
    (o k : ℕ) (hs : List UnitHold) (h : UnitHold)
    → find o k hs ≡ some h
    → is_some (first (λ (g : UnitHold). g.id == k) hs) ≡ true
find-first o k [] h at = ground arith
find-first o k (g ∷ gs) h at = ground (arith, find-first o k gs h)

first_of_find :
    (p : UnitHold → Bool) (o k : ℕ) (hs : List UnitHold) (h : UnitHold)
    → HaveIds hs
    → find o k hs ≡ some h
    → is_some (first (λ (g : UnitHold). (g.id == k) && p g) hs) ≡ p h
first_of_find p o k [] h ids at = ground arith
first_of_find p o k (g ∷ gs) h ids at =
    ground (arith, ids, first_of_find p o k gs h ids.1, find-first o k gs h, first-and 0 k p gs)

-- Where at most `limit` holds are due, a hold is picked exactly where it is due and asked for.
pub elem-candidates :
    (org : Option ℕ) (limit now o k : ℕ) (hs : List UnitHold) (h : UnitHold)
    → HaveIds hs
    → count_of (λ (g : UnitHold). is_due now g && of_org org g) hs ≤ limit
    → find o k hs ≡ some h
    → elem k (candidates org limit now hs) ≡ (is_due now h && of_org org h)
unfolding candidates
elem-candidates org limit now o k hs h ids few at =
    let p = λ (g : UnitHold). is_due now g && of_org org g in
    let whole : take limit (sort_by_expiry (select p hs)) ≡ sort_by_expiry (select p hs) =
      take-all limit (sort_by_expiry (select p hs))
        (omega (arith, few, count_of-sort_by_expiry p hs)) in
    ap (λ (xs : List UnitHold). elem k (map (λ (g : UnitHold). g.id) xs)) whole
    ∙ elem-sort_by_expiry k p hs
    ∙ first_of_find p o k hs h ids at
