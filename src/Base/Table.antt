-- ===== src/Base/Table.antt =====
-- A table of the database as a list of the rows of every organization. A row is found by its
-- organization and its identifier, which make the primary key.
pub mod Laws
use Prim.Native.Nat.{ℕ, ◌+◌}
use mathlib.Core.Path.{◌≡◌}
use mathlib.Core.Bool.{Bool, true, false, ◌&&◌}
use mathlib.Core.Option.{Option, none, some}
use mathlib.Core.List.{List, [], ◌∷◌}
use real_estate_crm.Base.Tests.{◌==◌, if◌then◌else◌}
use real_estate_crm.Base.Result.{Result, or_raise}
use real_estate_crm.Base.Result.Codes.{resource_not_found}

-- The columns of `OrganizationOwnedMixin` and `UUIDPrimaryKeyMixin`.
pub record Row {ℓ} (A : Type ℓ) : Type ℓ where
  pub org_of : A → ℕ
  pub id_of : A → ℕ

module _ {ℓ} {A : Type ℓ} where
  -- `select(model).where(...)`
  abbrev pub select : (A → Bool) → List A → List A
  select p [] = []
  select p (x ∷ xs) = if p x then x ∷ select p xs else select p xs

  -- `(await db.scalars(select(model).where(...))).first()`
  abbrev pub first : (A → Bool) → List A → Option A
  first p [] = none
  first p (x ∷ xs) = if p x then some x else first p xs

  -- `func.sum` of a column over the rows that pass a test.
  abbrev pub sum_of : (A → Bool) → (A → ℕ) → List A → ℕ
  sum_of p f [] = 0
  sum_of p f (x ∷ xs) = (if p x then f x else 0) + sum_of p f xs

  -- `func.count` of the rows that pass a test.
  abbrev pub count_of : (A → Bool) → List A → ℕ
  count_of p = sum_of p (λ _. 1)

  -- `update(model).where(...).values(...)`
  abbrev pub update_all : (A → Bool) → (A → A) → List A → List A
  update_all p f [] = []
  update_all p f (x ∷ xs) = (if p x then f x else x) ∷ update_all p f xs

module _ {ℓ} {A : Type ℓ} ⦃r : Row A⦄ where
  abbrev pub is_key : ℕ → ℕ → A → Bool
  is_key o k x = (r.org_of x == o) && (r.id_of x == k)

  -- `select(model).where(model.organization_id == o, model.id == k)`
  abbrev pub find : ℕ → ℕ → List A → Option A
  find o k [] = none
  find o k (x ∷ xs) = if is_key o k x then some x else find o k xs

  -- The update of one row: the row with the key of `x` becomes `x`.
  abbrev pub put : A → List A → List A
  put x [] = []
  put x (y ∷ ys) = if is_key (r.org_of x) (r.id_of x) y then x ∷ ys else y ∷ put x ys

  -- No key occurs twice.
  abbrev pub IsKeyed : List A → Type ℓ
  IsKeyed [] = Unit
  IsKeyed (x ∷ xs) = (find (r.org_of x) (r.id_of x) xs ≡ none) × IsKeyed xs

  -- The helper `_entity` of every service.
  abbrev pub entity : ℕ → ℕ → List A → Result A
  entity o k xs = or_raise (find o k xs) 404 resource_not_found

-- `order_by(...)` and `.first()`: a row that no other row goes before.
module _ {ℓ} {A : Type ℓ} where
  abbrev pub earlier : (A → A → Bool) → A → Option A → A
  earlier before x none = x
  earlier before x (some y) = if before y x then y else x

  abbrev pub first_by : (A → A → Bool) → List A → Option A
  first_by before [] = none
  first_by before (x ∷ xs) = some (earlier before x (first_by before xs))

-- `order_by(...)` and `list.sort(...)`: a stable sort by a test of "not after".
module _ {ℓ} {A : Type ℓ} where
  abbrev pub insert_by : (A → A → Bool) → A → List A → List A
  insert_by le x [] = x ∷ []
  insert_by le x (y ∷ ys) = if le x y then x ∷ y ∷ ys else y ∷ insert_by le x ys

  abbrev pub sort_by : (A → A → Bool) → List A → List A
  sort_by le [] = []
  sort_by le (x ∷ xs) = insert_by le x (sort_by le xs)

module _ {ℓ} {A : Type ℓ} ⦃r : Row A⦄ where
  -- The updates of several rows at the flush.
  abbrev pub put_all : List A → List A → List A
  put_all [] xs = xs
  put_all (y ∷ ys) xs = put_all ys (put y xs)
