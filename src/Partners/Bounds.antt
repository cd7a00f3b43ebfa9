-- ===== src/Partners/Bounds.antt =====
-- The size of a commission and of interest: the rounding of `_money` in
-- backend/app/services/partners.py and finance.py.
use real_estate_crm.Base.{ℕ, zero, suc, ◌^◌, ◌+◌, ◌*◌, ◌≤◌, ◌<◌, arith, none}
use real_estate_crm.Base.Decimal.{Unsigned}
use real_estate_crm.Base.Money.{round_div_nearest, round_div-le}
use real_estate_crm.Partners.{commission_amount}
use real_estate_crm.Finance.Charges.{charge_amount}

-- With a rate of at most 100 percent, a commission is a nearest whole number of cents to the
-- share of the price, a tie going up, and it is at most the price.
pub commission_amount_nearest :
    (price rate : ℕ)
    → rate ≤ 1_000_000
    → (2 * (commission_amount price rate * 1_000_000) ≤ 2 * (price * rate) + 1_000_000)
      × (2 * (price * rate) < 2 * (commission_amount price rate * 1_000_000) + 1_000_000)
      × (commission_amount price rate ≤ price)
unfolding commission_amount
commission_amount_nearest price rate h =
    let (low, high) = round_div_nearest (price * rate) 1_000_000 (omega arith) in
    (low, high, round_div-le price rate 1_000_000 (omega arith) h)

power_pos : (n : ℕ) → 0 < 10 ^ n
power_pos zero = omega arith
power_pos (suc n) = omega (arith, power_pos n)

-- Interest without a fixed amount is a nearest whole number of cents to principal times rate
-- times days over a year of 365 days, a tie going up.
charge_amount_nearest :
    (principal : ℕ) (rate : Unsigned) (days : ℕ)
    → (let amount = charge_amount none principal rate days in
        let share = principal * rate.digits * days in
        let unit = 36_500 * 10 ^ rate.places in
        (2 * (amount * unit) ≤ 2 * share + unit) × (2 * share < 2 * (amount * unit) + unit))
unfolding charge_amount
charge_amount_nearest principal rate days =
    round_div_nearest (principal * rate.digits * days) (36_500 * 10 ^ rate.places)
      (omega (arith, power_pos rate.places))
