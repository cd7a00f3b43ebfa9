-- ===== src/Base/Money.antt =====
-- Amounts in whole cents, and the rounding of `_money`.
use Prim.Native.Nat.{ℕ, ◌+◌, ◌*◌, ◌/◌, ◌≤◌, ◌<◌}
use native.Mathlib.Omega.{arith}

-- `_money` of a quotient of whole numbers of cents: `quantize` with `ROUND_HALF_UP`.
unfoldable pub round_div : ℕ → ℕ → ℕ
round_div n d = (2 * n + d) / (2 * d)

-- The rounded quotient is a nearest one, and a tie goes up.
pub round_div_nearest :
    (n d : ℕ)
    → 0 < d
    → (2 * (round_div n d * d) ≤ 2 * n + d) × (2 * n < 2 * (round_div n d * d) + d)
unfolding round_div
round_div_nearest n d h = grind arith

-- A share of at most the whole is at most the whole.
pub round_div-le : (a p d : ℕ) → 0 < d → p ≤ d → round_div (a * p) d ≤ a
round_div-le a p d h k = grind (arith, round_div_nearest (a * p) d h)
