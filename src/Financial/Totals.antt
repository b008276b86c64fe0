-- ===== src/Financial/Totals.antt =====
-- The totals of a bill (`calculateBillTotals`).
use comandas_multitenant_off.Prelude.{ℕ, ◌+◌, ◌*◌, ◌≤◌, ◌<◌, ◌≡◌, arith, or_else}
use comandas_multitenant_off.Prelude.Int.{pos, pos_part}
use comandas_multitenant_off.Http.{ok}
use comandas_multitenant_off.Financial.{BillInput, Bill, round_bps, calculate_bill_totals}

-- The nearest integer to n / 10000, the larger one of two.
pub round_bps_nearest :
    (n : ℕ) → (10000 * round_bps n ≤ n + 5000) × (n + 5000 < 10000 * round_bps n + 10000)
unfolding round_bps
round_bps_nearest n = omega arith

-- What a bill promises: the parts add up, and the fee is the share of the discounted subtotal,
-- rounded once.
pub record IsBalanced (b : Bill) : Type 0 where
  pub discount_fits : b.discount_cents ≤ b.subtotal_cents
  pub discounted : b.discounted_subtotal_cents + b.discount_cents ≡ b.subtotal_cents
  pub fee_low : 10000 * b.service_fee_cents ≤ b.discounted_subtotal_cents * b.service_fee_bps + 5000
  pub fee_high :
      b.discounted_subtotal_cents * b.service_fee_bps + 5000 < 10000 * b.service_fee_cents + 10000
  pub total : b.total_cents ≡ b.discounted_subtotal_cents + b.service_fee_cents

-- Every bill that `calculateBillTotals` returns is balanced, over the given subtotal, discount and
-- rate with negative ones read as zero and the rate 1000 where none is given.
pub calculate_bill_totals-IsBalanced :
    (input : BillInput) (b : Bill)
    → calculate_bill_totals input ≡ ok b
    → IsBalanced b
      × (b.subtotal_cents ≡ pos_part input.subtotal_cents)
      × (b.discount_cents ≡ pos_part (or_else input.discount_cents (pos 0)))
      × (b.service_fee_bps ≡ pos_part (or_else input.service_fee_bps (pos 1000)))
unfolding calculate_bill_totals
calculate_bill_totals-IsBalanced input b h = ground arith
