-- ===== src/Management/Recurring.antt =====
-- backend/src/management.controller.ts: recurring expenses, `createRecurring` and
-- `generateRecurring`. The loop creates an expense for each template, and passes over those that
-- the unique index on (tenant, template, competence) refuses.
pub mod Once
use comandas_multitenant_off.Prelude.{
  is_id, ℕ, zero, suc, ◌+◌, ◌-◌, ◌*◌, ◌/◌, ◌≤◌, ◌≡◌, ◌⊎◌, inl, inr, refl, sym, ap, ◌∙◌, String,
  Bool, true, false, Option, none, some, List, [], ◌∷◌, ◌++◌, map, arith, ◌==◌, ◌&&◌, ◌||◌, not,
  ltb, leb, is_some, or_else, if◌then◌else◌, Bool-cases, Option-cases, ==_refl, eq_of_==,
}
use comandas_multitenant_off.Prelude.Dict.{
  Dict, get, put, find_row, map_rows, get-put, put-put, get-put_self, get-map_rows,
  find_row-map_rows, find_row-none, find_row-some, dict_laws,
}
use comandas_multitenant_off.Prelude.Lists.{length, sum_by}
use comandas_multitenant_off.Prelude.Trim.{trim}
use comandas_multitenant_off.Prelude.Lists.{keep}
use comandas_multitenant_off.Calendar.{
  Date, rank, is_until, parse_date, month_start, due_date_for_month,
}
use comandas_multitenant_off.Http.{
  Result, ok, err, unique_violation, Exec, pure, gets, lift, modify, catch_unique, ◌>>=◌, ◌>>◌,
}
use comandas_multitenant_off.Store.{State}
use comandas_multitenant_off.Store.Books.{Expense, Template}
use comandas_multitenant_off.Dto.Management.{
  CreateRecurringExpenseDto, GenerateRecurringExpensesDto,
}
use comandas_multitenant_off.Orders.{Request}
use comandas_multitenant_off.Management.{Env, assert_finance_references}
use comandas_multitenant_off.Management.Expenses.{parse_optional}

-- `recurringExpenseTemplate.create`
insert_template : Template → Exec State (ℕ × Template)
insert_template t s = (
  ok (s.next_id, t),
  record s { next_id = suc s.next_id; templates = put s.next_id t s.templates },
)

unfoldable pub create_recurring :
    Env → Request → CreateRecurringExpenseDto → Exec State (ℕ × Template)
unfolding insert_template
create_recurring env req body = do
  assert_finance_references req.tenant body.category_id body.supplier_id
  start ← lift (parse_date body.start_date)
  end ← lift (parse_optional body.end_date)
  modify env.between
  insert_template (record {
    tenant = req.tenant;
    category = body.category_id;
    supplier = body.supplier_id;
    description = trim body.description;
    amount_cents = body.amount_cents;
    due_day = body.due_day;
    start_date = start;
    end_date = end;
    active = true;
  })

not_over : Date → Option Date → Bool
not_over competence none = true
not_over competence (some end) = is_until competence end

-- The `where` of `recurringExpenseTemplate.findMany`.
unfoldable pub is_due : ℕ → Date → Template → Bool
unfolding not_over
is_due tenant competence t =
    t.tenant == tenant
    && t.active
    && is_until t.start_date (due_date_for_month competence 31)
    && not_over competence t.end_date

unfoldable pub due_templates : ℕ → Date → State → Dict Template
due_templates tenant competence s = keep (λ r. is_due tenant competence r.1) s.templates

abbrev pub same_date : Date → Date → Bool
same_date a b = a.year == b.year && a.month == b.month && a.day == b.day && a.time == b.time

-- The unique index on (tenant, template, competence).
unfoldable pub is_generated : ℕ → ℕ → Date → Dict Expense → Bool
is_generated tenant template competence expenses = is_some (
    find_row
      (λ k e.
        e.tenant == tenant
        && is_id e.recurring_template template
        && same_date e.competence_date competence)
      expenses)

unfoldable pub generated_expense : Request → Date → ℕ × Template → Expense
generated_expense req competence (id, t) = record {
  tenant = req.tenant;
  supplier = t.supplier;
  category = t.category;
  recurring_template = some id;
  description = t.description;
  amount_cents = t.amount_cents;
  due_date = due_date_for_month competence t.due_day;
  competence_date = competence;
  notes = none;
  canceled_at = none;
  created_by = req.user;
  payments = [];
}

-- `payableExpense.create` for a template: one row written
insert_generated : Request → Date → ℕ × Template → Exec State ℕ
insert_generated req competence r s =
    if is_generated req.tenant r.0 competence s.expenses then (err unique_violation, s) else (
      ok 1,
      record s {
        next_id = suc s.next_id;
        expenses = put s.next_id (generated_expense req competence r) s.expenses;
      },
    )

-- One round: `try { ...; created += 1; } catch (P2002) { }`
unfoldable pub generate_one : Request → Date → ℕ × Template → Exec State ℕ
unfolding insert_generated
generate_one req competence r = catch_unique (insert_generated req competence r) (pure 0)

-- The loop: how many were created.
unfoldable pub generate_all : Request → Date → Dict Template → Exec State ℕ
generate_all req competence [] = pure 0
generate_all req competence (r ∷ rs) = do
  one ← generate_one req competence r
  rest ← generate_all req competence rs
  pure (one + rest)

pub record Generation : Type 0 where
  pub competence : Date
  pub templates : ℕ
  pub created : ℕ
  pub skipped : ℕ

unfoldable pub generate_recurring :
    Env → Request → GenerateRecurringExpensesDto → Exec State Generation
generate_recurring env req body = do
  d ← lift (parse_date body.competence)
  found ← gets (due_templates req.tenant (month_start d))
  modify env.between
  created ← generate_all req (month_start d) found
  pure (record {
    competence = month_start d;
    templates = length found;
    created = created;
    skipped = length found - created;
  })
