-- ===== src/Quotations/Levels.antt =====
-- Who approves a discount: `DiscountPolicy.valid_matrix` of backend/app/schemas/quotations.py and
-- `_approval_level` of backend/app/services/quotations.py. Percentages are only compared, so they
-- count a unit that all of them share.
use real_estate_crm.Base.{
  ℕ, ◌<◌, ◌≡◌, refl, String, Bool, true, not, ◌&&◌, Option, none, some, List, [], ◌∷◌, ltb, leb,
  if◌then◌else◌, arith, ◌⊎◌, inl, inr, Bool-cases,
}
use real_estate_crm.Base.Table.{insert_by, sort_by}

pub record DiscountApprovalLevel : Type 0 where
  pub name : String
  pub minimum_discount_percent : ℕ
  pub maximum_discount_percent : Option ℕ
  pub approver_user_ids : List ℕ
  pub approver_role_ids : List ℕ

abbrev pub by_minimum : List DiscountApprovalLevel → List DiscountApprovalLevel
by_minimum = sort_by (λ l k. leb l.minimum_discount_percent k.minimum_discount_percent)

-- `discount_percent <= level.maximum_discount_percent`, where no maximum is no limit.
abbrev pub is_up_to : ℕ → Option ℕ → Bool
is_up_to percent none = true
is_up_to percent (some m) = leb percent m

-- `level.maximum_discount_percent < level.minimum_discount_percent`
abbrev is_empty : DiscountApprovalLevel → Bool
is_empty l = not (is_up_to l.minimum_discount_percent l.maximum_discount_percent)

-- `previous_maximum is None or level.minimum_discount_percent <= previous_maximum`
abbrev overlaps : DiscountApprovalLevel → DiscountApprovalLevel → Bool
overlaps previous l = is_up_to l.minimum_discount_percent previous.maximum_discount_percent

-- The checks of the validator after each level of the sorted matrix.
unfoldable pub is_valid_after : DiscountApprovalLevel → List DiscountApprovalLevel → Bool
is_valid_after previous [] = true
is_valid_after previous (l ∷ ls) =
    not (is_empty l) && not (overlaps previous l) && is_valid_after l ls

unfoldable pub is_valid_from : List DiscountApprovalLevel → Bool
unfolding is_valid_after
is_valid_from [] = true
is_valid_from (l ∷ ls) = not (is_empty l) && is_valid_after l ls

unfoldable pub is_valid_matrix : List DiscountApprovalLevel → Bool
unfolding is_valid_from
is_valid_matrix matrix = is_valid_from (by_minimum matrix)

abbrev pub covers : ℕ → DiscountApprovalLevel → Bool
covers percent l =
    not (ltb percent l.minimum_discount_percent) && is_up_to percent l.maximum_discount_percent

unfoldable pub level_from : ℕ → List DiscountApprovalLevel → Option DiscountApprovalLevel
level_from percent [] = none
level_from percent (l ∷ ls) = if covers percent l then some l else level_from percent ls

unfoldable pub approval_level : List DiscountApprovalLevel → ℕ → Option DiscountApprovalLevel
unfolding level_from
approval_level matrix percent = level_from percent (by_minimum matrix)

abbrev pub IsIn : DiscountApprovalLevel → List DiscountApprovalLevel → Type 0
IsIn l [] = ⊥
IsIn l (k ∷ ks) = (l ≡ k) ⊎ IsIn l ks

IsIn-insert_by :
    (le : DiscountApprovalLevel → DiscountApprovalLevel → Bool) (l k : DiscountApprovalLevel)
    (ls : List DiscountApprovalLevel)
    → IsIn l (k ∷ ls)
    → IsIn l (insert_by le k ls)
IsIn-insert_by le l k [] h = h
IsIn-insert_by le l k (m ∷ ms) h = ground (arith, h, IsIn-insert_by le l k ms)

IsIn-sort_by :
    (le : DiscountApprovalLevel → DiscountApprovalLevel → Bool) (l : DiscountApprovalLevel)
    (ls : List DiscountApprovalLevel)
    → IsIn l ls
    → IsIn l (sort_by le ls)
IsIn-sort_by le l [] h = h
IsIn-sort_by le l (k ∷ ks) (inl e) = IsIn-insert_by le l k (sort_by le ks) (inl e)
IsIn-sort_by le l (k ∷ ks) (inr h) =
    IsIn-insert_by le l k (sort_by le ks) (inr (IsIn-sort_by le l ks h))

member_of_inserted :
    (le : DiscountApprovalLevel → DiscountApprovalLevel → Bool) (l k : DiscountApprovalLevel)
    (ls : List DiscountApprovalLevel)
    → IsIn l (insert_by le k ls)
    → IsIn l (k ∷ ls)
member_of_inserted le l k [] h = h
member_of_inserted le l k (m ∷ ms) h = ground (arith, h, member_of_inserted le l k ms)

pub member_of_sorted :
    (le : DiscountApprovalLevel → DiscountApprovalLevel → Bool) (l : DiscountApprovalLevel)
    (ls : List DiscountApprovalLevel)
    → IsIn l (sort_by le ls)
    → IsIn l ls
member_of_sorted le l [] h = h
member_of_sorted le l (k ∷ ks) h = elim (member_of_inserted le l k (sort_by le ks) h) [
  | inl e ↦ inl e
  | inr later ↦ inr (member_of_sorted le l ks later)
]

-- A level that stands later begins above what an earlier one covers.
later_begins_above :
    (percent : ℕ) (k l : DiscountApprovalLevel) (ls : List DiscountApprovalLevel)
    → is_up_to percent k.maximum_discount_percent ≡ true
    → is_valid_after k ls ≡ true
    → IsIn l ls
    → percent < l.minimum_discount_percent
unfolding is_valid_after
later_begins_above percent k l [] up valid h = absurd h
later_begins_above percent k l (m ∷ ms) up valid (inl e) = ground arith
later_begins_above percent k l (m ∷ ms) up valid (inr h) =
    later_begins_above percent m l ms (ground arith) (ground arith) h

rest-is_valid :
    (k : DiscountApprovalLevel) (ks : List DiscountApprovalLevel)
    → is_valid_from (k ∷ ks) ≡ true
    → is_valid_from ks ≡ true
unfolding is_valid_from is_valid_after
rest-is_valid k [] valid = refl
rest-is_valid k (m ∷ ms) valid = ground arith

level_from-covers :
    (percent : ℕ) (ls : List DiscountApprovalLevel) (l : DiscountApprovalLevel)
    → is_valid_from ls ≡ true
    → IsIn l ls
    → covers percent l ≡ true
    → level_from percent ls ≡ some l
unfolding is_valid_from level_from
level_from-covers percent [] l valid h c = absurd h
level_from-covers percent (k ∷ ks) l valid (inl e) c = ground arith
level_from-covers percent (k ∷ ks) l valid (inr h) c = elim (Bool-cases (covers percent k)) [
  | inl ck ↦
      let above = later_begins_above percent k l ks (ground arith) (ground arith) h in ground arith
  | inr nk ↦ rw (nk, level_from) (level_from-covers percent ks l (rest-is_valid k ks valid) h c)
]

-- In an approval matrix that the validator accepts, a level of the matrix that covers the
-- percentage of a discount is the one that is found for it, whatever the order of the matrix.
pub approval_level-covers :
    (matrix : List DiscountApprovalLevel) (percent : ℕ) (l : DiscountApprovalLevel)
    → is_valid_matrix matrix ≡ true
    → IsIn l matrix
    → covers percent l ≡ true
    → approval_level matrix percent ≡ some l
unfolding is_valid_matrix approval_level
approval_level-covers matrix percent l valid h c =
    level_from-covers percent (by_minimum matrix) l valid
      (IsIn-sort_by (λ l k. leb l.minimum_discount_percent k.minimum_discount_percent) l matrix h) c
