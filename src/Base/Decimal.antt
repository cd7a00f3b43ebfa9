-- ===== src/Base/Decimal.antt =====
-- `Decimal` of Python as a signed whole number over a power of ten. The sums and products of a
-- price stay below the 28 digits of the default context, so they are exact here as there.
use Prim.Native.Nat.{ℕ, zero, suc, ◌+◌, ◌*◌, ◌/◌, ◌^◌}
use mathlib.Core.Path.{◌≡◌, refl, ap}
use mathlib.Core.Bool.{Bool, true, false}
use native.Mathlib.Omega.{arith}
use real_estate_crm.Base.Tests.{ltb}
use real_estate_crm.Base.Int.{ℤ, pos, negsuc, pos_part, neg_part, sub_ℕ, ◌+ℤ◌}
use real_estate_crm.Base.Money.{round_div}

-- `digits` / 10 ^ `places`
pub record Decimal : Type 0 where
  pub digits : ℤ
  pub places : ℕ

-- A field that its schema or its table keeps at zero or above.
pub record Unsigned : Type 0 where
  pub digits : ℕ
  pub places : ℕ

abbrev pub signed : Unsigned → Decimal
signed u = record { digits = pos u.digits; places = u.places }

abbrev pub opposite : ℕ → ℤ
opposite zero = pos zero
opposite (suc n) = negsuc n

abbrev pub negate : ℤ → ℤ
negate a = sub_ℕ (neg_part a) (pos_part a)

-- An integer times a natural number.
abbrev pub times : ℤ → ℕ → ℤ
times a n = sub_ℕ (pos_part a * n) (neg_part a * n)

-- A whole number of cents, and of anything else.
abbrev pub of_cents : ℤ → Decimal
of_cents a = record { digits = a; places = 2 }

abbrev pub whole : ℕ → Unsigned
whole n = record { digits = n; places = 0 }

unfoldable pub plus : Decimal → Decimal → Decimal
plus a b = record {
  digits = times a.digits (10 ^ b.places) +ℤ times b.digits (10 ^ a.places);
  places = a.places + b.places;
}

unfoldable pub scaled : Decimal → Unsigned → Decimal
scaled a u = record { digits = times a.digits u.digits; places = a.places + u.places }

-- `x * rate / HUNDRED`
unfoldable pub percent_of : Decimal → Unsigned → Decimal
unfolding scaled
percent_of a rate =
    let product = scaled a rate in record { digits = product.digits; places = product.places + 2 }

unfoldable pub minus_cents : ℤ → Unsigned → Decimal
minus_cents a u = record {
  digits = sub_ℕ (pos_part a * 10 ^ u.places) (neg_part a * 10 ^ u.places + u.digits * 100);
  places = u.places + 2;
}

-- `a == ZERO`
abbrev pub is_zero_ℤ : ℤ → Bool
is_zero_ℤ (pos zero) = true
is_zero_ℤ _ = false

abbrev pub is_zero : Decimal → Bool
is_zero a = is_zero_ℤ a.digits

-- `cents < u`
abbrev pub exceeds_cents : ℤ → Unsigned → Bool
exceeds_cents a u = ltb (pos_part a * 10 ^ u.places) (neg_part a * 10 ^ u.places + u.digits * 100)

-- `_money`: to whole cents, a tie going away from zero.
unfoldable pub to_cents : ℤ → ℕ → ℤ
unfolding round_div
to_cents (pos n) unit = pos (round_div (n * 100) unit)
to_cents (negsuc n) unit = opposite (round_div (suc n * 100) unit)

unfoldable pub money : Decimal → ℤ
unfolding to_cents
money a = to_cents a.digits (10 ^ a.places)

cents_again : (n : ℕ) → round_div (n * 100) 100 ≡ n
unfolding round_div
cents_again n = omega arith

to_cents-again : (a : ℤ) → to_cents a 100 ≡ a
unfolding to_cents
to_cents-again (pos n) = ap pos (cents_again n)
to_cents-again (negsuc n) = ap opposite (cents_again (suc n))

-- A whole number of cents is not rounded.
pub money-of_cents : (a : ℤ) → money (of_cents a) ≡ a
unfolding money
money-of_cents a = to_cents-again a

half_of-double : (n : ℕ) → suc n / (2 * suc n) ≡ 0
half_of-double n = grind arith

to_cents-zero : (unit : ℕ) → to_cents (pos 0) unit ≡ pos 0
unfolding to_cents round_div
to_cents-zero zero = refl
to_cents-zero (suc n) = ground (arith, half_of-double n)

pub money-zero : (a : Decimal) → is_zero a ≡ true → money a ≡ pos 0
unfolding money
money-zero a h =
    let none_left : a.digits ≡ pos 0 = ground arith in rw none_left (to_cents-zero (10 ^ a.places))
