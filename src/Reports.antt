-- ===== src/Reports.antt =====
-- backend/src/reports.controller.ts: sales, expenses and the profit margin of a period. A time is
-- what `rank` gives for a date. `aggregate` and `groupBy` are sums over the rows of the query, with
-- 0 for the sum of no rows; rows come in the order of their tables.
pub mod Sums
pub mod Agreement
pub mod Reached
mod Tests
use comandas_multitenant_off.Prelude.{
  ℕ, suc, ◌+◌, ◌*◌, String, Bool, true, false, Option, none, some, List, [], ◌∷◌, ◌++◌, map, ◌==◌,
  ◌&&◌, not, leb, ltb, is_some, if◌then◌else◌,
}
use comandas_multitenant_off.Prelude.Int.{ℤ, pos, ◌-ℤ◌}
use comandas_multitenant_off.Prelude.Dict.{Dict, get}
use comandas_multitenant_off.Prelude.Lists.{length, sum_by, keep}
use comandas_multitenant_off.Calendar.{Date, rank, is_before, month_start}
use comandas_multitenant_off.Http.{Result, ok, err, bad_request, bad_period}
use comandas_multitenant_off.Store.{
  State, Order, OrderItem, OrderPayment, Method, cash, pix, credit, debit, voucher, other,
  is_closed,
}
use comandas_multitenant_off.Store.Books.{
  ExpenseCategory, Expense, ExpensePayment, Purchase, PurchaseStatus,
}

pub record Period : Type 0 where
  pub start : Date
  pub end : Date

period_of : Option Date → Option Date → Result Period
period_of (some a) (some b) =
    if is_before b a then err (bad_request bad_period) else ok (record { start = a; end = b })
period_of a b = err (bad_request bad_period)

-- `from ? new Date(from) : ...`; a text that is no date is `some none`
given_or : Date → Option (Option Date) → Option Date
given_or d none = some d
given_or d (some x) = x

unfoldable pub range : Date → Option (Option Date) → Option (Option Date) → Result Period
unfolding period_of given_or
range now from to = period_of (given_or (month_start now) from) (given_or now to)

-- `{ gte: start, lte: end }`
abbrev pub is_within : Period → ℕ → Bool
is_within p x = leb (rank p.start) x && leb x (rank p.end)

unfoldable pub settled_within : Period → Option ℕ → Bool
settled_within p none = false
settled_within p (some x) = is_within p x

-- `where: { tenantId, status: 'closed', settled_at: { gte, lte } }`
unfoldable pub sold_orders : Period → ℕ → State → List Order
unfolding settled_within
sold_orders p tenant s =
    map (λ r. r.1)
      (keep (λ r. r.1.tenant == tenant && is_closed r.1.status && settled_within p r.1.settled_at)
        s.orders)

-- Rows added up under a key, in the order in which the keys come.
module _ {K : Type 0} (same : K → K → Bool) where
  unfoldable pub add_to : K → ℕ → List (K × ℕ) → List (K × ℕ)
  add_to k n [] = (k, n) ∷ []
  add_to k n ((j, m) ∷ rows) = if same j k then (j, m + n) ∷ rows else (j, m) ∷ add_to k n rows

  unfoldable pub group_into : List (K × ℕ) → List (K × ℕ) → List (K × ℕ)
  group_into [] rows = rows
  group_into ((k, n) ∷ xs) rows = group_into xs (add_to k n rows)

abbrev pub same_method : Method → Method → Bool
same_method cash cash = true
same_method pix pix = true
same_method credit credit = true
same_method debit debit = true
same_method voucher voucher = true
same_method other other = true
same_method a b = false

abbrev pub method_row : OrderPayment → Method × ℕ
method_row p = (p.method, p.amount_cents)

-- The payments of the orders, one order after the other.
unfoldable pub method_rows : List Order → List (Method × ℕ)
method_rows [] = []
method_rows (o ∷ os) = map method_row o.payments ++ method_rows os

pub record Sales : Type 0 where
  pub period : Period
  pub orders : ℕ
  pub gross_revenue_cents : ℕ
  pub discounts_cents : ℕ
  pub service_fees_cents : ℕ
  pub received_cents : ℕ
  pub payment_methods : List (Method × ℕ)

sales_of : Period → List Order → Sales
sales_of p os = record {
  period = p;
  orders = length os;
  gross_revenue_cents = sum_by (λ o. o.subtotal_cents) os;
  discounts_cents = sum_by (λ o. o.discount_cents) os;
  service_fees_cents = sum_by (λ o. o.service_fee_cents) os;
  received_cents = sum_by (λ o. o.total_cents) os;
  payment_methods = group_into same_method (method_rows os) [];
}

-- `sales`, of a period
unfoldable pub sales : Period → ℕ → State → Sales
unfolding sales_of
sales p tenant s = sales_of p (sold_orders p tenant s)

pub data Axis : Type 0 where
  competence payment : Axis

abbrev is_open : ℕ → Expense → Bool
is_open tenant e = e.tenant == tenant && not (is_some e.canceled_at)

-- `where: { tenantId, canceled_at: null, competence_date: { gte, lte } }`, by category
unfoldable pub competence_rows : Period → ℕ → State → List (ℕ × ℕ)
competence_rows p tenant s =
    map (λ r. (r.1.category, r.1.amount_cents))
      (keep (λ r. is_open tenant r.1 && is_within p (rank r.1.competence_date)) s.expenses)

paid_rows : Period → Expense → List (ℕ × ℕ)
paid_rows p e =
    map (λ x. (e.category, x.amount_cents)) (keep (λ x. is_within p (rank x.paid_at)) e.payments)

-- The payments of the period, with the categories of their expenses.
payment_rows_of : Period → ℕ → Dict Expense → List (ℕ × ℕ)
unfolding paid_rows
payment_rows_of p tenant [] = []
payment_rows_of p tenant ((id, e) ∷ es) =
    (if is_open tenant e then paid_rows p e else []) ++ payment_rows_of p tenant es

-- The rows behind a report of the expenses.
unfoldable pub expense_rows : Axis → Period → ℕ → State → List (ℕ × ℕ)
unfolding payment_rows_of
expense_rows competence p tenant s = competence_rows p tenant s
expense_rows payment p tenant s = payment_rows_of p tenant s.expenses

-- `sort((a, b) => b.amount_cents - a.amount_cents)`, which is stable
unfoldable pub insert_sorted : ℕ × ℕ → List (ℕ × ℕ) → List (ℕ × ℕ)
insert_sorted x [] = x ∷ []
insert_sorted x (y ∷ ys) = if ltb x.1 y.1 then y ∷ insert_sorted x ys else x ∷ y ∷ ys

unfoldable pub by_amount : List (ℕ × ℕ) → List (ℕ × ℕ)
by_amount [] = []
by_amount (x ∷ xs) = insert_sorted x (by_amount xs)

pub record CategoryRow : Type 0 where
  pub category_id : ℕ
  pub category : String
  pub amount_cents : ℕ

-- By competence the categories of the tenant are looked up (`catMap.get(categoryId) ?? ''`); by
-- payment the name comes with the expense.
category_name : Axis → ℕ → Option ExpenseCategory → String
category_name axis tenant none = ""
category_name competence tenant (some c) = if c.tenant == tenant then c.name else ""
category_name payment tenant (some c) = c.name

unfoldable pub named_row : Axis → ℕ → State → ℕ × ℕ → CategoryRow
unfolding category_name
named_row axis tenant s (id, amount) = record {
  category_id = id;
  category = category_name axis tenant (get id s.expense_categories);
  amount_cents = amount;
}

unfoldable pub expense_categories : Axis → Period → ℕ → State → List CategoryRow
unfolding named_row
expense_categories axis p tenant s =
    map (named_row axis tenant s)
      (by_amount (group_into (λ a b. a == b) (expense_rows axis p tenant s) []))

pub record ExpenseReport : Type 0 where
  pub period : Period
  pub axis : Axis
  pub total_cents : ℕ
  pub categories : List CategoryRow

-- `expenses`, of a period and an axis
unfoldable pub expense_report : Axis → Period → ℕ → State → ExpenseReport
expense_report axis p tenant s = record {
  period = p;
  axis = axis;
  total_cents = sum_by (λ r. r.amount_cents) (expense_categories axis p tenant s);
  categories = expense_categories axis p tenant s;
}

pub data CmvMode : Type 0 where
  product_cost purchases : CmvMode

items_cost : Order → ℕ
items_cost o = sum_by (λ i. i.quantity * i.unit_cost_cents) o.items

is_confirmed : PurchaseStatus → Bool
is_confirmed PurchaseStatus.confirmed = true
is_confirmed s = false

unfoldable pub cost_of_sales : CmvMode → Period → ℕ → State → ℕ
unfolding items_cost is_confirmed
cost_of_sales product_cost p tenant s = sum_by items_cost (sold_orders p tenant s)
cost_of_sales purchases p tenant s =
    sum_by (λ r. r.1.total_cents)
      (keep
        (λ r.
          r.1.tenant == tenant && is_confirmed r.1.status && is_within p (rank r.1.purchased_at))
        s.purchases)

pub record ProfitMargin : Type 0 where
  pub revenue_cents : ℕ
  pub discounts_cents : ℕ
  pub net_revenue_cents : ℤ
  pub cmv_cents : ℕ
  pub gross_profit_cents : ℤ
  pub expenses_cents : ℕ
  pub operating_result_cents : ℤ
  pub categories : List CategoryRow

-- `expensesCents`, added up group by group or payment by payment
unfoldable pub spent_cents : Axis → Period → ℕ → State → ℕ
spent_cents competence p tenant s =
    sum_by (λ r. r.1) (group_into (λ a b. a == b) (expense_rows competence p tenant s) [])
spent_cents payment p tenant s = sum_by (λ r. r.1) (expense_rows payment p tenant s)

-- `profitMargin`, of a period and two modes
unfoldable pub profit_margin : CmvMode → Axis → Period → ℕ → State → ProfitMargin
profit_margin mode axis p tenant s =
    let revenue : ℕ = sum_by (λ o. o.subtotal_cents) (sold_orders p tenant s) in
    let discounts : ℕ = sum_by (λ o. o.discount_cents) (sold_orders p tenant s) in
    let net : ℤ = pos revenue -ℤ pos discounts in
    let cmv : ℕ = cost_of_sales mode p tenant s in
    let spent : ℕ = spent_cents axis p tenant s in
    record {
      revenue_cents = revenue;
      discounts_cents = discounts;
      net_revenue_cents = net;
      cmv_cents = cmv;
      gross_profit_cents = net -ℤ pos cmv;
      expenses_cents = spent;
      operating_result_cents = net -ℤ pos cmv -ℤ pos spent;
      categories = expense_categories axis p tenant s;
    }
