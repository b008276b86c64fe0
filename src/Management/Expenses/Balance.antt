-- ===== src/Management/Expenses/Balance.antt =====
-- No expense is paid beyond its amount: backend/src/management.controller.ts, `FinanceController`.
use comandas_multitenant_off.Prelude.{◌<◌, subst, ℕ, ◌≤◌, ◌≡◌, inl, inr, none, some, arith}
use comandas_multitenant_off.Prelude.Dict.{get, get-put_self}
use comandas_multitenant_off.Http.{Result-cases, ◌>>=◌}
use comandas_multitenant_off.Store.{State}
use comandas_multitenant_off.Store.Books.{Expense}
use comandas_multitenant_off.Dto.Management.{
  CreateExpenseDto, UpdateExpenseDto, CreateExpensePaymentDto,
}
use comandas_multitenant_off.Dto.{post_expenses, expense, post_expense_payments, expense_payment}
use comandas_multitenant_off.Orders.{Request}
use comandas_multitenant_off.Management.Keeps.{once-keeps}
use comandas_multitenant_off.Management.{Env, assert_finance_references}
use comandas_multitenant_off.Management.Expenses.{
  paid_cents, find_open_expense, write_expense, open_expense, create_expense, change_expense,
  update_expense, settle_expense, pay_expense, cancel_expense, check_references, parse_optional,
  below_paid,
}
use comandas_multitenant_off.Management.Expenses.Covered.{
  AreCovered, AreCovered-IgnoresKeys, open_expense-AreCovered, settle_expense-AreCovered,
  check_references-reads, update_expense-AreCovered, cancel_expense-AreCovered,
}

-- `{ amount_cents }` alone
abbrev pub new_amount : ℕ → UpdateExpenseDto
new_amount amount = record {
  supplier_id = none;
  category_id = none;
  description = none;
  amount_cents = some amount;
  due_date = none;
  competence_date = none;
  notes = none;
}

-- A request about an expense.
pub data ExpenseCall : Type 0 where
  creating : CreateExpenseDto → ExpenseCall
  updating : ℕ → UpdateExpenseDto → ExpenseCall
  paying : ℕ → CreateExpensePaymentDto → ExpenseCall
  canceling : ℕ → ExpenseCall

unfoldable pub serve_expense : ExpenseCall → Env → Request → State → State
serve_expense (creating body) env req s = (create_expense env req body s).1
serve_expense (updating id body) env req s = (update_expense env req id body s).1
serve_expense (paying id body) env req s = (pay_expense env req id body s).1
serve_expense (canceling id) env req s = (cancel_expense env req id s).1

-- Nothing comes between an update's look at an expense and its write.
abbrev pub IsQuiet : ExpenseCall → Env → Type 0
IsQuiet (updating id body) env = (t : State) → env.between t ≡ t
IsQuiet call env = Unit

module _ (env : Env) (req : Request)
    (others : (s : State) → AreCovered s → AreCovered (env.between s)) where
  create_expense-AreCovered :
      (body : CreateExpenseDto) (s : State)
      → AreCovered s
      → AreCovered (create_expense env req body s).1
  unfolding create_expense assert_finance_references check_references ◌>>=◌
  create_expense-AreCovered body s h =
      let reads : (assert_finance_references req.tenant body.category_id body.supplier_id s).1 ≡ s =
        check_references-reads env req (some body.category_id) body.supplier_id 0 s in
      elim (Result-cases
        (assert_finance_references req.tenant body.category_id body.supplier_id s).0) [
          | inr (e, fault) ↦ subst AreCovered (ground arith) h
          | inl (u, known) ↦ subst AreCovered (ground arith) (
              once-keeps AreCovered AreCovered-IgnoresKeys env req others post_expenses
                (expense body) (open_expense env req body) (open_expense-AreCovered env req body) s
                h)
        ]

-- No request about expenses, retried or not, and whatever other requests commit in between, leaves
-- an expense with payments beyond its amount; of an update this holds if nothing comes between its
-- look at the expense and its write.
pub serve_expense-AreCovered :
    (call : ExpenseCall) (env : Env) (req : Request) (s : State)
    → ((t : State) → AreCovered t → AreCovered (env.between t))
    → IsQuiet call env
    → AreCovered s
    → AreCovered (serve_expense call env req s)
unfolding serve_expense pay_expense
serve_expense-AreCovered (creating body) env req s others quiet h =
    create_expense-AreCovered env req others body s h
serve_expense-AreCovered (updating id body) env req s others quiet h =
    update_expense-AreCovered env req id body s (quiet s) h
serve_expense-AreCovered (paying id body) env req s others quiet h =
    once-keeps AreCovered AreCovered-IgnoresKeys env req others (post_expense_payments id)
      (expense_payment body) (settle_expense env req id body)
      (settle_expense-AreCovered env req id body) s h
serve_expense-AreCovered (canceling id) env req s others quiet h =
    cancel_expense-AreCovered env req id s others h

-- An update that lowers an amount reads the payments before it writes: where a payment comes
-- between, the expense is left with payments beyond its amount.
pub update_race_overpays :
    (env : Env) (req : Request) (id amount : ℕ) (x y : Expense) (s : State)
    → find_open_expense req.tenant id s ≡ some x
    → paid_cents x ≤ amount
    → get id (env.between s).expenses ≡ some y
    → amount < paid_cents y
    → ¬ (AreCovered (update_expense env req id (new_amount amount) s).1)
unfolding update_expense check_references below_paid parse_optional change_expense write_expense
    ◌>>=◌
update_race_overpays env req id amount x y s found fits here over h =
    let n : Expense = record y { amount_cents = amount } in
    ground (arith, h.at id n, get-put_self id n (env.between s).expenses)
