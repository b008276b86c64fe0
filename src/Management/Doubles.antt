-- ===== src/Management/Doubles.antt =====
-- The total of a purchase's line: backend/src/management.controller.ts, `PurchasesController.create`,
-- `Math.round(item.quantity * item.unit_cost_cents)`. A quantity is the double nearest to its
-- thousandths, its product with the cost is rounded to a double again, and `Math.round` takes the
-- floor of that and a half. A double is a mantissa of 53 bits over a power of two; quantities are
-- below 2 ^ 53 and so are costs, for which the scales here are enough, and no total is so large
-- that it overflows.
use comandas_multitenant_off.Prelude.{
  ℕ, zero, suc, ◌+◌, ◌*◌, ◌/◌, ◌%◌, ◌≡◌, refl, ltb, leb, if◌then◌else◌,
}

pow2 : ℕ → ℕ
pow2 zero = 1
pow2 (suc n) = 2 * pow2 n

-- `n / d` to the nearest integer, a half to the even one
half_even : ℕ → ℕ → ℕ
half_even n d =
    if ltb (2 * (n % d)) d
    then n / d
    else if ltb d (2 * (n % d))
    then n / d + 1
    else n / d + (n / d) % 2

-- How often `n` is doubled, up to `fuel` times, until `n / d` has 53 bits before the point.
doublings : ℕ → ℕ → ℕ → ℕ
doublings zero n d = 0
doublings (suc fuel) n d =
    let rest = doublings fuel (2 * n) d in if leb (4503599627370496 * d) n then 0 else suc rest

-- How often `n` is halved until it has 53 bits.
halvings : ℕ → ℕ → ℕ
halvings zero n = 0
halvings (suc fuel) n =
    let rest = halvings fuel (n / 2) in if ltb n 9007199254740992 then 0 else suc rest

-- An integer to the nearest double
to_double : ℕ → ℕ
unfolding half_even pow2 halvings
to_double n = let p = pow2 (halvings 54 n) in half_even n p * p

-- `Math.round` of `m / p`
math_round : ℕ → ℕ → ℕ
math_round m p = (2 * m + p) / (2 * p)

-- the product of the mantissa with the cost, above the power of two
rounded_product : ℕ → ℕ → ℕ → ℕ
unfolding half_even math_round to_double
rounded_product quantity p unit_cost =
    math_round (to_double (half_even (quantity * p) 1000 * unit_cost)) p

unfoldable pub line_total : ℕ → ℕ → ℕ
unfolding pow2 doublings rounded_product
line_total quantity unit_cost =
    rounded_product quantity (pow2 (doublings 63 quantity 1000)) unit_cost

-- 1.005 at 100 cents comes to 100 cents, and 12.5 at 299 cents, half a cent over, is rounded up.
line_totals :
    (line_total 1005 100 ≡ 100)
    × (line_total 12500 299 ≡ 3738)
    × (line_total 0 5 ≡ 0)
    × (line_total 2000 250 ≡ 500)
unfolding line_total doublings pow2 rounded_product
line_totals = (refl, refl, refl, refl)
