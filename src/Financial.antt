-- ===== src/Financial.antt =====
-- backend/src/financial.utils.ts: the totals of a bill and the check of its payments. Inputs are
-- integers, as the DTOs validate them, so `Math.floor` is the identity and `Math.max(0, n)` is the
-- part of `n` above zero. `Math.round(n / 10000)` rounds halves up; it is exact in doubles while
-- n < 2 ^ 53.
pub mod Totals
pub mod Payments
mod Tests
use comandas_multitenant_off.Prelude.{
  ℕ, zero, suc, ◌+◌, ◌-◌, ◌*◌, ◌/◌, ◌==◌, Bool, true, false, Option, none, some, List, [], ◌∷◌,
  ◌++◌, ltb, or_else, if◌then◌else◌,
}
use comandas_multitenant_off.Prelude.Int.{ℤ, pos, negsuc, pos_part, ltb_ℤ, eqb_ℤ}
use comandas_multitenant_off.Http.{
  Result, ok, err, bad_request, discount_exceeds_subtotal, no_payments, bad_payment_amount,
  bad_payment_method, short_tender, tender_not_cash, unsettled_total,
}
use comandas_multitenant_off.Store.{Method, cash, pix, credit, debit, voucher, other}

-- `BillCalculationInput`
pub record BillInput : Type 0 where
  pub subtotal_cents : ℤ
  pub discount_cents : Option ℤ
  pub service_fee_bps : Option ℤ

-- `BillCalculationResult`
pub record Bill : Type 0 where
  pub subtotal_cents : ℕ
  pub discount_cents : ℕ
  pub discounted_subtotal_cents : ℕ
  pub service_fee_bps : ℕ
  pub service_fee_cents : ℕ
  pub total_cents : ℕ

-- `Math.round(n / 10000)`
unfoldable pub round_bps : ℕ → ℕ
round_bps n = (n + 5000) / 10000

bill_of : ℕ → ℕ → ℕ → Bill
bill_of subtotal discount bps =
    let discounted = subtotal - discount in
    let fee = round_bps (discounted * bps) in
    record {
      subtotal_cents = subtotal;
      discount_cents = discount;
      discounted_subtotal_cents = discounted;
      service_fee_bps = bps;
      service_fee_cents = fee;
      total_cents = discounted + fee;
    }

unfoldable pub calculate_bill_totals : BillInput → Result Bill
unfolding bill_of round_bps
calculate_bill_totals input =
    let subtotal = pos_part input.subtotal_cents in
    let discount = pos_part (or_else input.discount_cents (pos 0)) in
    let bps = pos_part (or_else input.service_fee_bps (pos 1000)) in
    if ltb subtotal discount
    then err (bad_request discount_exceeds_subtotal)
    else ok (bill_of subtotal discount bps)

pub record PaymentInput : Type 0 where
  pub method : Method
  pub amount_cents : ℤ
  pub tendered_cents : Option ℤ

pub record ValidatedPayment : Type 0 where
  pub method : Method
  pub amount_cents : ℕ
  pub tendered_cents : Option ℕ
  pub change_cents : ℕ

-- `PaymentValidationResult`
pub record PaymentCheck : Type 0 where
  pub total_paid_cents : ℕ
  pub total_change_cents : ℕ
  pub payments : List ValidatedPayment

validated : Method → ℕ → Option ℕ → ℕ → ValidatedPayment
validated method amount tendered change = record {
  method = method;
  amount_cents = amount;
  tendered_cents = tendered;
  change_cents = change;
}

-- The branch on `p.method === 'cash'`.
check_tender : Method → ℕ → Option ℤ → Result ValidatedPayment
unfolding validated
check_tender cash amount none = ok (validated cash amount (some amount) 0)
check_tender cash amount (some t) =
    if ltb_ℤ t (pos amount)
    then err (bad_request short_tender)
    else ok (validated cash amount (some (pos_part t)) (pos_part t - amount))
check_tender method amount none = ok (validated method amount none 0)
check_tender method amount (some t) =
    if eqb_ℤ t (pos amount)
    then ok (validated method amount (some amount) 0)
    else err (bad_request tender_not_cash)

check_method : Method → ℕ → Option ℤ → Result ValidatedPayment
unfolding check_tender
check_method other amount tendered = err (bad_request bad_payment_method)
check_method method amount tendered = check_tender method amount tendered

check_amount : ℤ → Method → Option ℤ → Result ValidatedPayment
unfolding check_method
check_amount (negsuc n) method tendered = err (bad_request bad_payment_amount)
check_amount (pos zero) method tendered = err (bad_request bad_payment_amount)
check_amount (pos (suc n)) method tendered = check_method method (suc n) tendered

-- The body of the loop over the payments, but for the sums.
unfoldable pub check_payment : PaymentInput → Result ValidatedPayment
unfolding check_amount
check_payment p = check_amount p.amount_cents p.method p.tendered_cents

unfoldable pub check_payments : PaymentCheck → List PaymentInput → Result PaymentCheck
check_payments c [] = ok c
check_payments c (p ∷ ps) = elim (check_payment p) [
  | err e ↦ err e
  | ok v ↦
      check_payments
        (record {
          total_paid_cents = c.total_paid_cents + v.amount_cents;
          total_change_cents = c.total_change_cents + v.change_cents;
          payments = c.payments ++ v ∷ [];
        })
        ps
]

abbrev pub no_checks : PaymentCheck
no_checks = record { total_paid_cents = 0; total_change_cents = 0; payments = [] }

expect_total : ℕ → Result PaymentCheck → Result PaymentCheck
expect_total expected (err e) = err e
expect_total expected (ok c) =
    if c.total_paid_cents == expected then ok c else err (bad_request unsettled_total)

unfoldable pub validate_payments_total : ℕ → List PaymentInput → Result PaymentCheck
unfolding expect_total check_payments
validate_payments_total expected [] = err (bad_request no_payments)
validate_payments_total expected (p ∷ ps) =
    expect_total expected (check_payments no_checks (p ∷ ps))
