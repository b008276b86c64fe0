-- ===== src/Management/Witnesses.antt =====
-- The recurring expenses and the stock of a small establishment, and the theorems about them.
use comandas_multitenant_off.Prelude.{
  Bool-cases, inl, inr, ◌==◌, ap, sym, ◌∙◌, ℕ, ◌≡◌, refl, true, Option, none, some, [], ◌∷◌, arith,
}
use comandas_multitenant_off.Prelude.Int.{◌+ℤ◌, pos, ℤ}
use comandas_multitenant_off.Prelude.Dict.{Dict, get, put, find_row}
use comandas_multitenant_off.Calendar.{parse_date, month_start, due_date_for_month, last_day}
use comandas_multitenant_off.Http.{ok, ◌>>=◌}
use comandas_multitenant_off.Store.{State, Product}
use comandas_multitenant_off.Store.Queries.{find_product}
use comandas_multitenant_off.Dto.Management.{GenerateRecurringExpensesDto, CreatePurchaseDto}
use comandas_multitenant_off.Management.Recurring.{
  generate_recurring, generate_all, generate_one, due_templates, is_generated, is_due,
  generated_expense,
}
use comandas_multitenant_off.Management.Recurring.Once.{AreFresh, generate_twice}
use comandas_multitenant_off.Management.Inventory.Ledger.{HasLedger, sell_all-HasLedger}
use comandas_multitenant_off.Management.Warehouse.{purchasing, serve_stock, serve_stock-HasLedger}
use comandas_multitenant_off.Management.Tests.{today, env}
use comandas_multitenant_off.Orders.Stock.{Sale, sell_all, sell_found, record_sale, has_sale}
use comandas_multitenant_off.Orders.Tests.{bar, request}

-- A template that is due on the 31st.
abbrev monthly : State
monthly = record bar {
  templates =
      (
        7,
        record {
          tenant = 1;
          category = 6;
          supplier = none;
          description = "Aluguel";
          amount_cents = 100000;
          due_day = 31;
          start_date = record today { month = 1 };
          end_date = none;
          active = true;
        },
      )
      ∷ [];
}

abbrev this_month : GenerateRecurringExpensesDto
this_month = record { competence = some today }

abbrev generated : State
generated = (generate_recurring env (request "r") this_month monthly).1

monthly-AreFresh : AreFresh monthly
unfolding get
monthly-AreFresh = record { at = λ k e g. absurd (cc) }

generate_twice_example : generate_recurring env (request "r") this_month generated ≡ (
  ok (record { competence = month_start today; templates = 1; created = 0; skipped = 1 }),
  generated,
)
unfolding generate_recurring parse_date due_templates is_due generate_all generate_one
    generated_expense is_generated find_row get put month_start due_date_for_month last_day ◌>>=◌
generate_twice_example =
    generate_twice env (request "r") this_month monthly generated
      (record { competence = month_start today; templates = 1; created = 1; skipped = 0 })
      (λ t. refl) monthly-AreFresh refl

-- Twelve cans for 2.995 each.
abbrev cans : CreatePurchaseDto
cans = record {
  supplier_id = none;
  document_no = some "NF 12";
  purchased_at = some today;
  notes = none;
  items = record { product_id = 4; quantity = 12500; unit_cost_cents = 299 } ∷ [];
  create_payable = none;
  expense_category_id = none;
  due_date = none;
}

-- The balance before the first movement.
abbrev opening : ℕ → ℤ
opening id = pos 24000

stock_or : Option Product → ℤ
stock_or none = pos 24000
stock_or (some p) = p.stock_quantity

stock_at : (id : ℕ) → stock_or (get id bar.products) ≡ pos 24000
unfolding stock_or get
stock_at id = elim (Bool-cases (4 == id)) [ inl same ↦ rw same refl | inr other ↦ rw other refl ]

bar-HasLedger : HasLedger opening bar
unfolding stock_or ◌+ℤ◌
bar-HasLedger = record { at = λ id p g. ap stock_or (sym g) ∙ stock_at id }

serve_stock-HasLedger_example :
    HasLedger opening (serve_stock (purchasing cans) env (request "p") bar)
serve_stock-HasLedger_example =
    serve_stock-HasLedger opening (purchasing cans) env (request "p") bar (λ t h. h) bar-HasLedger

abbrev two_sold : Dict Sale
two_sold = (4, record { quantity = 2; unit_cost_cents = 300 }) ∷ []

abbrev sold : State
sold = (sell_all (find_product 1) 1 10 (some 5) two_sold bar).1

selling : sell_all (find_product 1) 1 10 (some 5) two_sold bar ≡ (ok tt, sold)
unfolding sell_all sell_found record_sale has_sale find_product get put
selling = refl

sell_all-HasLedger_example : HasLedger opening sold
unfolding find_product
sell_all-HasLedger_example =
    sell_all-HasLedger opening (find_product 1) 1 10 (some 5) two_sold bar sold
      (λ id s p found. ground arith) selling bar-HasLedger
