-- ===== src/Management/Expenses.antt =====
-- backend/src/management.controller.ts: accounts payable, `FinanceController`.
pub mod Covered
pub mod Balance
pub mod Listing
use comandas_multitenant_off.Prelude.{
  ℕ, zero, suc, ◌+◌, ◌-◌, ◌*◌, ◌/◌, ◌≤◌, ◌≡◌, ◌⊎◌, inl, inr, refl, sym, ap, ◌∙◌, String, Bool, true,
  false, Option, none, some, List, [], ◌∷◌, ◌++◌, map, arith, ◌==◌, ◌&&◌, ◌||◌, not, ltb, leb,
  is_some, or_else, if◌then◌else◌, Bool-cases, Option-cases, ==_refl, eq_of_==,
}
use comandas_multitenant_off.Prelude.Dict.{
  Dict, get, put, find_row, map_rows, get-put, put-put, get-put_self, get-map_rows,
  find_row-map_rows, find_row-none, find_row-some, dict_laws,
}
use comandas_multitenant_off.Prelude.Lists.{length, sum_by}
use comandas_multitenant_off.Prelude.Trim.{trim}
use comandas_multitenant_off.Calendar.{Date, is_before, parse_date, month_start}
use comandas_multitenant_off.Http.{
  Result, ok, err, not_found, bad_request, record_missing, expense_not_found, amount_below_paid,
  payment_exceeds_balance, Exec, pure, raise_if, gets, lift, or_raise, modify, ◌>>=◌, ◌>>◌,
}
use comandas_multitenant_off.Store.{State, Response, expense_response}
use comandas_multitenant_off.Store.Books.{
  Expense, ExpensePayment, ExpenseStatus, pending, partially_paid, paid, overdue, canceled,
  ExpenseView,
}
use comandas_multitenant_off.Dto.{post_expenses, expense, post_expense_payments, expense_payment}
use comandas_multitenant_off.Dto.Management.{
  CreateExpenseDto, UpdateExpenseDto, CreateExpensePaymentDto,
}
use comandas_multitenant_off.Orders.{Request, or_old}
use comandas_multitenant_off.Catalog.{or_same}
use comandas_multitenant_off.Management.{Env, once, assert_finance_references}

-- `expense.payments.reduce((sum, payment) => sum + payment.amount_cents, 0)`
abbrev pub paid_cents : Expense → ℕ
paid_cents e = sum_by (λ p. p.amount_cents) e.payments

expense_status : Date → Expense → ExpenseStatus
expense_status now e = elim e.canceled_at [
  | some d ↦ canceled
  | none ↦
      if e.amount_cents - paid_cents e == 0
      then paid
      else if ltb 0 (paid_cents e)
      then partially_paid
      else if is_before e.due_date now
      then overdue
      else pending
]

-- `withExpenseStatus`; `Math.max(0, a - b)` is the subtraction on naturals
unfoldable pub with_expense_status : Date → Expense → ExpenseView
unfolding expense_status
with_expense_status now e = record {
  expense = e;
  paid_cents = paid_cents e;
  balance_cents = e.amount_cents - paid_cents e;
  status = expense_status now e;
}

-- `payableExpense.findFirst({ where: { id, tenantId } })`
unfoldable pub find_expense : ℕ → ℕ → State → Option Expense
find_expense tenant id s = elim (get id s.expenses) [
  | none ↦ none
  | some e ↦ if e.tenant == tenant then some e else none
]

-- `payableExpense.findFirst({ where: { id, tenantId, canceled_at: null } })`
unfoldable pub find_open_expense : ℕ → ℕ → State → Option Expense
unfolding find_expense
find_open_expense tenant id s = elim (find_expense tenant id s) [
  | none ↦ none
  | some e ↦ if is_some e.canceled_at then none else some e
]

-- `payableExpense.update({ where: { id } })`, or a row of its payments
unfoldable pub write_expense : ℕ → (Expense → Expense) → Exec State Expense
write_expense id f s = elim (get id s.expenses) [
  | none ↦ (err record_missing, s)
  | some e ↦ (ok (f e), record s { expenses = put id (f e) s.expenses })
]

-- `payableExpense.create` of an expense with no template, which no unique index refuses
unfoldable pub insert_expense : Expense → Exec State (ℕ × Expense)
insert_expense e s =
    (ok (s.next_id, e), record s { next_id = suc s.next_id; expenses = put s.next_id e s.expenses })

new_expense : Request → CreateExpenseDto → Date → Date → Expense
new_expense req body due competence = record {
  tenant = req.tenant;
  supplier = body.supplier_id;
  category = body.category_id;
  recurring_template = none;
  description = trim body.description;
  amount_cents = body.amount_cents;
  due_date = due;
  competence_date = month_start competence;
  notes = body.notes;
  canceled_at = none;
  created_by = req.user;
  payments = [];
}

unfoldable pub open_expense : Env → Request → CreateExpenseDto → Exec State Response
unfolding new_expense
open_expense env req body = do
  due ← lift (parse_date body.due_date)
  competence ← lift (parse_date body.competence_date)
  row ← insert_expense (new_expense req body due competence)
  pure (expense_response row.0 (with_expense_status env.now row.1))

unfoldable pub create_expense : Env → Request → CreateExpenseDto → Exec State Response
create_expense env req body = do
  assert_finance_references req.tenant body.category_id body.supplier_id
  once env req post_expenses (expense body) (open_expense env req body)

-- `body.due_date ? parseDate(body.due_date) : undefined`
unfoldable pub parse_optional : Option (Option Date) → Result (Option Date)
parse_optional none = ok none
parse_optional (some none) = elim (parse_date none) [ ok d ↦ ok (some d) | err e ↦ err e ]
parse_optional (some (some d)) = elim (parse_date (some d)) [ ok d ↦ ok (some d) | err e ↦ err e ]

-- The references are looked up where one of them is new.
unfoldable pub check_references : ℕ → Option ℕ → Option ℕ → ℕ → Exec State (Unit {0})
check_references tenant none none old = pure tt
check_references tenant category supplier_id old =
    assert_finance_references tenant (or_else category old) supplier_id

below_paid : Option ℕ → Expense → Bool
below_paid none e = false
below_paid (some amount) e = ltb amount (paid_cents e)

unfoldable pub change_expense : UpdateExpenseDto → Option Date → Option Date → Expense → Expense
change_expense body due competence e = record e {
  supplier = or_old body.supplier_id e.supplier;
  category = or_same body.category_id e.category;
  description = elim body.description [ none ↦ e.description | some d ↦ trim d ];
  amount_cents = or_same body.amount_cents e.amount_cents;
  due_date = or_same due e.due_date;
  competence_date = elim competence [ none ↦ e.competence_date | some d ↦ month_start d ];
  notes = or_old body.notes e.notes;
}

unfoldable pub update_expense : Env → Request → ℕ → UpdateExpenseDto → Exec State ExpenseView
unfolding parse_optional check_references below_paid
update_expense env req id body = do
  found ← gets (find_open_expense req.tenant id)
  e ← or_raise found (not_found expense_not_found)
  check_references req.tenant body.category_id body.supplier_id e.category
  raise_if (below_paid body.amount_cents e) (bad_request amount_below_paid)
  due ← lift (parse_optional body.due_date)
  competence ← lift (parse_optional body.competence_date)
  modify env.between
  changed ← write_expense id (change_expense body due competence)
  pure (with_expense_status env.now changed)

unfoldable pub add_payment : ExpensePayment → Expense → Expense
add_payment p e = record e { payments = e.payments ++ p ∷ [] }

payment_of : Request → CreateExpensePaymentDto → Date → ExpensePayment
payment_of req body d = record {
  amount_cents = body.amount_cents;
  paid_at = d;
  payment_method = body.payment_method;
  notes = body.notes;
  created_by = req.user;
}

-- The mutation of `payExpense`.
unfoldable pub settle_expense : Env → Request → ℕ → CreateExpensePaymentDto → Exec State Response
unfolding payment_of
settle_expense env req id body = do
  found ← gets (find_open_expense req.tenant id)
  e ← or_raise found (not_found expense_not_found)
  raise_if (ltb e.amount_cents (paid_cents e + body.amount_cents))
      (bad_request payment_exceeds_balance)
  d ← lift (parse_date body.paid_at)
  updated ← write_expense id (add_payment (payment_of req body d))
  pure (expense_response id (with_expense_status env.now updated))

unfoldable pub pay_expense : Env → Request → ℕ → CreateExpensePaymentDto → Exec State Response
pay_expense env req id body =
    once env req (post_expense_payments id) (expense_payment body) (settle_expense env req id body)

unfoldable pub cancel_expense : Env → Request → ℕ → Exec State Expense
cancel_expense env req id = do
  found ← gets (find_expense req.tenant id)
  or_raise found (not_found expense_not_found)
  modify env.between
  write_expense id (λ e. record e { canceled_at = some env.now })
