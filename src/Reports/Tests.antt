-- ===== src/Reports/Tests.antt =====
-- The reports of a day with one paid order and two expenses.
use comandas_multitenant_off.Prelude.{
  sym, subst, inr, ℕ, ◌≡◌, ◌+◌, refl, none, some, [], ◌∷◌, arith,
}
use comandas_multitenant_off.Prelude.Int.{pos, ◌-ℤ◌}
use comandas_multitenant_off.Prelude.Lists.{All}
use comandas_multitenant_off.Calendar.{Date}
use comandas_multitenant_off.Prelude.Dict.{get}
use comandas_multitenant_off.Pagination.Cuts.{IsUnique}
use comandas_multitenant_off.Orders.Lifecycle.Invariant.{IsSound, IsValid}
use comandas_multitenant_off.Reports.Reached.{sales_of_valid_state}
use comandas_multitenant_off.Store.{delivered, State, Order, OrderType, closed, cash}
use comandas_multitenant_off.Store.Books.{Expense}
use comandas_multitenant_off.Orders.Tests.{bar}
use comandas_multitenant_off.Orders.Lifecycle.Invariant.{IsPaid}
use comandas_multitenant_off.Reports.{
  Period, competence, product_cost, sales, sold_orders, expense_report, expense_rows, profit_margin,
  cost_of_sales,
}
use comandas_multitenant_off.Reports.Sums.{total, amounts, IsDescending}
use comandas_multitenant_off.Reports.Agreement.{expense_reports_agree, profit_margin_agrees}

abbrev at_time : ℕ → Date
at_time t = record { year = 0; month = 1; day = 1; time = t }

abbrev day : Period
day = record { start = at_time 0; end = at_time 5000 }

-- Two cans for 16.00 and a service fee of 1.60, paid in cash.
abbrev sold : Order
sold = record {
  tenant = 1;
  table_id = none;
  table_label = "Mesa 3";
  order_type = OrderType.table;
  status = closed;
  version = 4;
  subtotal_cents = 1600;
  discount_cents = 0;
  discount_type = none;
  discount_value = none;
  discount_authorized_by = none;
  service_fee_bps = 1000;
  service_fee_cents = 160;
  total_cents = 1760;
  settled_at = some 1000;
  settled_by = some 5;
  items =
      record {
        product = some 4;
        product_name = "Refrigerante lata";
        quantity = 2;
        unit_price_cents = 800;
        unit_cost_cents = 300;
        selected_options = none;
        notes = none;
      }
      ∷ [];
  payments =
      record {
        method = cash;
        amount_cents = 1760;
        tendered_cents = some 2000;
        change_cents = 240;
        pix_charge = none;
      }
      ∷ [];
  history = record { from_status = some delivered; to_status = closed; changed_by = some 5 } ∷ [];
}

abbrev spent : ℕ → ℕ → Expense
spent category amount = record {
  tenant = 1;
  supplier = none;
  category = category;
  recurring_template = none;
  description = "Conta";
  amount_cents = amount;
  due_date = at_time 10;
  competence_date = at_time 0;
  notes = none;
  canceled_at = none;
  created_by = none;
  payments = [];
}

abbrev books : State
books = record bar {
  next_id = 30;
  orders = (10, sold) ∷ [];
  expenses = (20, spent 6 300) ∷ (21, spent 7 500) ∷ (22, spent 6 100) ∷ [];
}

sold-IsPaid : IsPaid sold
sold-IsPaid = record {
  is_closed = refl;
  covers = refl;
  of_items = refl;
  total = refl;
  discount_fits = omega arith;
}

paid_orders : All IsPaid (sold_orders day 1 books)
unfolding sold_orders
paid_orders = (sold-IsPaid, tt)

sold-IsSound : IsSound sold
sold-IsSound = record {
  versioned = omega arith;
  logged = refl;
  freed = λ e. refl;
  paid = inr sold-IsPaid;
  settled = inr sold-IsPaid;
}

only_order : (k : ℕ) (o : Order) → get k books.orders ≡ some o → (k ≡ 10) × (o ≡ sold)
unfolding get
only_order k o e = ground arith

books-IsValid : IsValid books
books-IsValid = record {
  fresh = λ k o e. omega (arith, (only_order k o e).0);
  sound = λ k o e. subst IsSound (sym (only_order k o e).1) sold-IsSound;
  exclusive = record {
    at = λ i j t o p e f same u v. omega (arith, (only_order i o e).0, (only_order j p f).0);
  };
}

sales_of_valid_state_example :
    (total (sales day 1 books).payment_methods ≡ (sales day 1 books).received_cents)
    × ((sales day 1 books).received_cents + (sales day 1 books).discounts_cents
        ≡ (sales day 1 books).gross_revenue_cents + (sales day 1 books).service_fees_cents)
unfolding IsUnique get
sales_of_valid_state_example = sales_of_valid_state day 1 books (refl, tt) books-IsValid

expense_reports_agree_example :
    ((expense_report competence day 1 books).total_cents
      ≡ total (expense_rows competence day 1 books))
    × ((profit_margin product_cost competence day 1 books).expenses_cents
        ≡ (expense_report competence day 1 books).total_cents)
    × IsDescending (amounts (expense_report competence day 1 books).categories)
expense_reports_agree_example = expense_reports_agree competence product_cost day 1 books

profit_margin_agrees_example :
    (profit_margin product_cost competence day 1 books).operating_result_cents
    ≡ pos (sales day 1 books).received_cents
      -ℤ pos (
          (sales day 1 books).service_fees_cents
          + cost_of_sales product_cost day 1 books
          + (expense_report competence day 1 books).total_cents)
profit_margin_agrees_example = profit_margin_agrees competence product_cost day 1 books paid_orders
