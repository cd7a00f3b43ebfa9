-- ===== src/Base/Table/Laws.antt =====
-- Laws of the queries and updates of a table.
use Prim.Native.Nat.{ℕ, ◌+◌, ◌≤◌}
use mathlib.Core.Path.{◌≡◌, refl}
use mathlib.Core.Bool.{Bool, true}
use mathlib.Core.Option.{none, some}
use mathlib.Core.List.{List, [], ◌∷◌}
use native.Mathlib.Omega.{arith}
use real_estate_crm.Base.Tests.{if◌then◌else◌}
use real_estate_crm.Base.Table.{
  Row, first, sum_of, count_of, update_all, is_key, find, put, IsKeyed,
}

module _ {ℓ} {A : Type ℓ} where
  pub sum_of-update_all :
      (p q : A → Bool) (f g : A → ℕ) (h : A → A) (xs : List A)
      → ((x : A)
          → (if p (if q x then h x else x) then f (if q x then h x else x) else 0)
            ≡ (if p x then g x else 0))
      → sum_of p f (update_all q h xs) ≡ sum_of p g xs
  sum_of-update_all p q f g h [] e = refl
  sum_of-update_all p q f g h (x ∷ xs) e = omega (arith, e x, sum_of-update_all p q f g h xs e)

  pub first-test : (p : A → Bool) (xs : List A) (x : A) → first p xs ≡ some x → p x ≡ true
  first-test p [] x h = ground arith
  first-test p (y ∷ ys) x h = ground (arith, first-test p ys x)

  pub count_of-first-none : (p : A → Bool) (xs : List A) → first p xs ≡ none → count_of p xs ≡ 0
  count_of-first-none p [] h = refl
  count_of-first-none p (y ∷ ys) h = ground (arith, count_of-first-none p ys)

module _ {ℓ} {A : Type ℓ} ⦃r : Row A⦄ where
  -- A row that is found has the key.
  pub find-key :
      (o k : ℕ) (xs : List A) (x : A) → find o k xs ≡ some x → (r.org_of x ≡ o) × (r.id_of x ≡ k)
  find-key o k [] x h = ground arith
  find-key o k (y ∷ ys) x h = ground (arith, find-key o k ys x)

  pub find-put :
      (o k : ℕ) (x : A) (xs : List A) (old : A)
      → find (r.org_of x) (r.id_of x) xs ≡ some old
      → find o k (put x xs) ≡ (if is_key o k x then some x else find o k xs)
  find-put o k x [] old h = ground arith
  find-put o k x (y ∷ ys) old h =
      ground (arith, find-put o k x ys old, find-key (r.org_of x) (r.id_of x) ys old)

  pub sum_of-put :
      (p : A → Bool) (f : A → ℕ) (x : A) (xs : List A) (old : A)
      → find (r.org_of x) (r.id_of x) xs ≡ some old
      → sum_of p f (put x xs) + (if p old then f old else 0)
        ≡ sum_of p f xs + (if p x then f x else 0)
  sum_of-put p f x [] old h = ground arith
  sum_of-put p f x (y ∷ ys) old h = ground (arith, sum_of-put p f x ys old)

  pub find-none-put :
      (o k : ℕ) (x : A) (xs : List A) → find o k xs ≡ none → find o k (put x xs) ≡ none
  find-none-put o k x [] h = refl
  find-none-put o k x (y ∷ ys) h = ground (arith, find-none-put o k x ys)

  pub put-IsKeyed : (x : A) (xs : List A) → IsKeyed xs → IsKeyed (put x xs)
  put-IsKeyed x [] h = tt
  put-IsKeyed x (y ∷ ys) h =
      ground (arith, put-IsKeyed x ys h.1, find-none-put (r.org_of y) (r.id_of y) x ys h.0)

  -- With unique keys, the row that a query selects is the row that its key finds.
  pub find_of_first :
      (p : A → Bool) (xs : List A) (x : A)
      → IsKeyed xs
      → first p xs ≡ some x
      → find (r.org_of x) (r.id_of x) xs ≡ some x
  find_of_first p [] x u h = ground arith
  find_of_first p (y ∷ ys) x u h = ground (arith, find_of_first p ys x u.1)

  pub le-sum_of :
      (p : A → Bool) (f : A → ℕ) (o k : ℕ) (xs : List A) (x : A)
      → find o k xs ≡ some x
      → (if p x then f x else 0) ≤ sum_of p f xs
  le-sum_of p f o k [] x h = ground arith
  le-sum_of p f o k (y ∷ ys) x h = ground (arith, le-sum_of p f o k ys x)

  pub find-update_all :
      (p : A → Bool) (f : A → A) (o k : ℕ) (xs : List A) (x : A)
      → ((y : A) → (r.org_of (f y) ≡ r.org_of y) × (r.id_of (f y) ≡ r.id_of y))
      → find o k xs ≡ some x
      → find o k (update_all p f xs) ≡ some (if p x then f x else x)
  find-update_all p f o k [] x keeps h = ground arith
  find-update_all p f o k (y ∷ ys) x keeps h =
      ground (arith, find-update_all p f o k ys x keeps, keeps y)
