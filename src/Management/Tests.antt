-- ===== src/Management/Tests.antt =====
-- The books and the stock of a small establishment, and the theorems about them at its rows.
use comandas_multitenant_off.Prelude.{ℕ, refl, none, some, [], ◌∷◌, arith}
use comandas_multitenant_off.Prelude.Dict.{get}
use comandas_multitenant_off.Calendar.{Date}
use comandas_multitenant_off.Store.{State}
use comandas_multitenant_off.Store.Books.{Expense, ExpensePayment}
use comandas_multitenant_off.Dto.Management.{CreateExpensePaymentDto}
use comandas_multitenant_off.Management.{Env}
use comandas_multitenant_off.Management.Expenses.{find_open_expense, find_expense, update_expense}
use comandas_multitenant_off.Management.Expenses.Covered.{AreCovered}
use comandas_multitenant_off.Management.Expenses.Balance.{
  paying, serve_expense, new_amount, serve_expense-AreCovered, update_race_overpays,
}
use comandas_multitenant_off.Orders.Tests.{bar, request, one_hash}

abbrev pub today : Date
today = record { year = 2026; month = 7; day = 14; time = 0 }

abbrev pub env : Env
env = record {
  hash = one_hash;
  now = today;
  subscriptions = [];
  show_id = λ n. "purchase";
  between = λ s. s;
}

abbrev part : ℕ → ExpensePayment
part amount = record {
  amount_cents = amount;
  paid_at = today;
  payment_method = some "pix";
  notes = none;
  created_by = some 5;
}

-- The rent, of which 400.00 are paid.
abbrev rent : Expense
rent = record {
  tenant = 1;
  supplier = none;
  category = 6;
  recurring_template = none;
  description = "Aluguel";
  amount_cents = 100000;
  due_date = record today { day = 10 };
  competence_date = record today { day = 1 };
  notes = none;
  canceled_at = none;
  created_by = some 5;
  payments = part 40000 ∷ [];
}

abbrev unpaid : Expense
unpaid = record rent { payments = [] }

abbrev pub books : State
books = record bar { expenses = (8, rent) ∷ [] }

abbrev the_rest : CreateExpensePaymentDto
the_rest = record {
  amount_cents = 60000;
  paid_at = some today;
  payment_method = none;
  notes = none;
}

books-AreCovered : AreCovered books
unfolding get
books-AreCovered = record { at = λ id e g. ground arith }

serve_expense-AreCovered_example :
    AreCovered (serve_expense (paying 8 the_rest) env (request "e") books)
serve_expense-AreCovered_example =
    serve_expense-AreCovered (paying 8 the_rest) env (request "e") books (λ t h. h) tt
      books-AreCovered

-- Meanwhile another request pays 500.00.
abbrev meanwhile : Expense
meanwhile = record rent { payments = part 40000 ∷ part 50000 ∷ [] }

abbrev busy_env : Env
busy_env = record env { between = λ s. record s { expenses = (8, meanwhile) ∷ [] } }

update_race_overpays_example :
    ¬ (AreCovered (update_expense busy_env (request "f") 8 (new_amount 50000) books).1)
unfolding find_open_expense find_expense get
update_race_overpays_example =
    update_race_overpays busy_env (request "f") 8 50000 rent meanwhile books refl (omega arith) refl
      (omega arith)
