-- ===== src/Reports/Agreement.antt =====
-- The reports agree with the orders, with the expenses and with each other:
-- backend/src/reports.controller.ts.
use comandas_multitenant_off.Prelude.{
  ℕ, ◌+◌, ◌≡◌, refl, sym, ap, ◌∙◌, List, [], ◌∷◌, ◌==◌, arith, subst,
}
use comandas_multitenant_off.Prelude.Int.{pos, ◌-ℤ◌, int_laws}
use comandas_multitenant_off.Prelude.Lists.{sum_by, All}
use comandas_multitenant_off.Store.{State, Order}
use comandas_multitenant_off.Orders.Lifecycle.Invariant.{paid_cents, IsPaid}
use comandas_multitenant_off.Reports.{
  cost_of_sales, Period, Axis, competence, payment, CmvMode, sales, sold_orders, group_into,
  same_method, method_rows, by_amount, expense_categories, expense_report, expense_rows,
  spent_cents, profit_margin,
}
use comandas_multitenant_off.Reports.Sums.{
  total, total-group_into, total-by_amount, total-amounts, amounts, amounts-named_row, IsDescending,
  by_amount-IsDescending, total-method_rows,
}

received_lem :
    (os : List Order)
    → All IsPaid os
    → sum_by (λ o. paid_cents o.payments) os ≡ sum_by (λ o. o.total_cents) os
received_lem [] h = refl
received_lem (o ∷ os) (h, hs) = omega (arith, h.covers, received_lem os hs)

balance_lem :
    (os : List Order)
    → All IsPaid os
    → sum_by (λ o. o.total_cents) os + sum_by (λ o. o.discount_cents) os
      ≡ sum_by (λ o. o.subtotal_cents) os + sum_by (λ o. o.service_fee_cents) os
balance_lem [] h = refl
balance_lem (o ∷ os) (h, hs) = omega (arith, h.total, balance_lem os hs)

-- Where the orders of a sales report were paid, the methods of payment add up to what was received,
-- which with the discounts is the gross revenue and the service fees.
pub sales_balances :
    (p : Period) (tenant : ℕ) (s : State)
    → All IsPaid (sold_orders p tenant s)
    → (total (sales p tenant s).payment_methods ≡ (sales p tenant s).received_cents)
      × ((sales p tenant s).received_cents + (sales p tenant s).discounts_cents
          ≡ (sales p tenant s).gross_revenue_cents + (sales p tenant s).service_fees_cents)
unfolding sales
sales_balances p tenant s h =
    let os : List Order = sold_orders p tenant s in
    (
      omega (
        arith,
        total-group_into same_method (method_rows os) [],
        total-method_rows os,
        received_lem os h,
      ),
      balance_lem os h,
    )

spent_lem :
    (axis : Axis) (p : Period) (tenant : ℕ) (s : State)
    → spent_cents axis p tenant s ≡ total (expense_rows axis p tenant s)
unfolding spent_cents
spent_lem competence p tenant s =
    omega (arith, total-group_into (λ a b. a == b) (expense_rows competence p tenant s) [])
spent_lem payment p tenant s = refl

categories_lem :
    (axis : Axis) (p : Period) (tenant : ℕ) (s : State)
    → amounts (expense_categories axis p tenant s)
      ≡ by_amount (group_into (λ a b. a == b) (expense_rows axis p tenant s) [])
unfolding expense_categories
categories_lem axis p tenant s =
    amounts-named_row axis tenant s
      (by_amount (group_into (λ a b. a == b) (expense_rows axis p tenant s) []))

-- The report of the expenses and the profit margin come to the same expenses, which are those of the
-- rows of the axis, and the categories stand from the largest amount to the smallest.
pub expense_reports_agree :
    (axis : Axis) (mode : CmvMode) (p : Period) (tenant : ℕ) (s : State)
    → ((expense_report axis p tenant s).total_cents ≡ total (expense_rows axis p tenant s))
      × ((profit_margin mode axis p tenant s).expenses_cents
          ≡ (expense_report axis p tenant s).total_cents)
      × IsDescending (amounts (expense_report axis p tenant s).categories)
unfolding expense_report profit_margin
expense_reports_agree axis mode p tenant s =
    let rows : List (ℕ × ℕ) = expense_rows axis p tenant s in
    let grouped : List (ℕ × ℕ) = group_into (λ a b. a == b) rows [] in
    let listed = categories_lem axis p tenant s in
    let whole : sum_by (λ r. r.amount_cents) (expense_categories axis p tenant s) ≡ total rows =
      omega (
        arith,
        total-amounts (expense_categories axis p tenant s),
        ap total listed,
        total-by_amount grouped,
        total-group_into (λ a b. a == b) rows [],
      ) in
    (
      whole,
      spent_lem axis p tenant s ∙ sym whole,
      subst IsDescending (sym listed) (by_amount-IsDescending grouped),
    )

-- Where the orders were paid, the operating result is what the sales report has as received, less
-- the service fees, the cost of the sales and the expenses of the report of the same axis.
pub profit_margin_agrees :
    (axis : Axis) (mode : CmvMode) (p : Period) (tenant : ℕ) (s : State)
    → All IsPaid (sold_orders p tenant s)
    → (profit_margin mode axis p tenant s).operating_result_cents
      ≡ pos (sales p tenant s).received_cents
        -ℤ pos (
            (sales p tenant s).service_fees_cents
            + cost_of_sales mode p tenant s
            + (expense_report axis p tenant s).total_cents)
unfolding profit_margin sales
profit_margin_agrees axis mode p tenant s h =
    let (whole, agree, sorted) = expense_reports_agree axis mode p tenant s in
    let spent : spent_cents axis p tenant s ≡ (expense_report axis p tenant s).total_cents =
      spent_lem axis p tenant s ∙ sym whole in
    let balance = balance_lem (sold_orders p tenant s) h in omega (int_laws, spent, balance)
