-- ===== src/Financial/Tests.antt =====
-- Bills and payments at concrete amounts.
use comandas_multitenant_off.Prelude.{◌≡◌, ◌↔◌, refl, none, some, List, [], ◌∷◌, ◌≢◌, or_else}
use comandas_multitenant_off.Prelude.Int.{pos, pos_part}
use comandas_multitenant_off.Prelude.Lists.{All}
use comandas_multitenant_off.Http.{ok, err, bad_request, unsettled_total}
use comandas_multitenant_off.Store.{cash, pix}
use comandas_multitenant_off.Financial.{
  BillInput, Bill, PaymentInput, PaymentCheck, calculate_bill_totals, check_payment,
  validate_payments_total,
}
use comandas_multitenant_off.Financial.Totals.{IsBalanced, calculate_bill_totals-IsBalanced}
use comandas_multitenant_off.Financial.Payments.{
  IsTallied, IsAcceptable, paid, validate_payments_total_iff, validate_payments_total-IsTallied,
}

abbrev table_bill : BillInput
table_bill = record {
  subtotal_cents = pos 6805;
  discount_cents = some (pos 300);
  service_fee_bps = none;
}

abbrev table_totals : Bill
table_totals = record {
  subtotal_cents = 6805;
  discount_cents = 300;
  discounted_subtotal_cents = 6505;
  service_fee_bps = 1000;
  service_fee_cents = 651;
  total_cents = 7156;
}

table_bill_totals : calculate_bill_totals table_bill ≡ ok table_totals
unfolding calculate_bill_totals
table_bill_totals = refl

calculate_bill_totals-IsBalanced_example :
    IsBalanced table_totals
    × (6805 ≡ pos_part table_bill.subtotal_cents)
    × (300 ≡ pos_part (or_else table_bill.discount_cents (pos 0)))
    × (1000 ≡ pos_part (or_else table_bill.service_fee_bps (pos 1000)))
calculate_bill_totals-IsBalanced_example =
    calculate_bill_totals-IsBalanced table_bill table_totals table_bill_totals

abbrev too_cheap : BillInput
too_cheap = record {
  subtotal_cents = pos 100;
  discount_cents = some (pos 101);
  service_fee_bps = none;
}

abbrev split_payment : List PaymentInput
split_payment =
    record { method = cash; amount_cents = pos 5000; tendered_cents = some (pos 6000) }
    ∷ record { method = pix; amount_cents = pos 2156; tendered_cents = none }
    ∷ []

abbrev split_check : PaymentCheck
split_check = record {
  total_paid_cents = 7156;
  total_change_cents = 1000;
  payments =
      record { method = cash; amount_cents = 5000; tendered_cents = some 6000; change_cents = 1000 }
      ∷ record { method = pix; amount_cents = 2156; tendered_cents = none; change_cents = 0 }
      ∷ [];
}

split_payment_settles : validate_payments_total 7156 split_payment ≡ ok split_check
unfolding validate_payments_total check_payment
split_payment_settles = refl

split_payment_short : validate_payments_total 7157 split_payment ≡ err (bad_request unsettled_total)
unfolding validate_payments_total check_payment
split_payment_short = refl

validate_payments_total_iff_example :
    ((c : PaymentCheck) × (validate_payments_total 7156 split_payment ≡ ok c))
    ↔ ((split_payment ≢ []) × All IsAcceptable split_payment × (paid split_payment ≡ 7156))
validate_payments_total_iff_example = validate_payments_total_iff 7156 split_payment

validate_payments_total-IsTallied_example :
    (split_check.total_paid_cents ≡ 7156) × IsTallied split_check
validate_payments_total-IsTallied_example =
    validate_payments_total-IsTallied 7156 split_payment split_check split_payment_settles
