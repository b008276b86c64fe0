-- ===== src/Management.antt =====
-- backend/src/management.controller.ts: suppliers, accounts payable, the stock and purchases.
-- Suppliers and categories are in this file, accounts payable in Management/Expenses and
-- Management/Recurring, stock in Management/Inventory and Management/Purchases. `between` is what
-- other requests commit between a handler's reads and its write or transaction.
mod Doubles
pub mod Expenses
pub mod Recurring
pub mod Inventory
pub mod Purchases
pub mod Reading
pub mod Keeps
pub mod Warehouse
mod Tests
mod Witnesses
use text.Mathlib.Text.{◌==◌ as str_eq}
use comandas_multitenant_off.Prelude.{
  ℕ, zero, suc, ◌+◌, ◌-◌, ◌*◌, ◌/◌, ◌≤◌, ◌≡◌, ◌⊎◌, inl, inr, refl, sym, ap, ◌∙◌, String, Bool, true,
  false, Option, none, some, List, [], ◌∷◌, ◌++◌, map, arith, ◌==◌, ◌&&◌, ◌||◌, not, ltb, leb,
  is_some, or_else, if◌then◌else◌, Bool-cases, Option-cases, ==_refl, eq_of_==,
}
use comandas_multitenant_off.Prelude.Dict.{
  Dict, get, put, find_row, map_rows, get-put, put-put, get-put_self, get-map_rows,
  find_row-map_rows, find_row-none, find_row-some, dict_laws,
}
use comandas_multitenant_off.Prelude.Lists.{length, sum_by}
use comandas_multitenant_off.Prelude.Trim.{trim, is_blank}
use comandas_multitenant_off.Calendar.{Date}
use comandas_multitenant_off.Http.{
  Result, ok, err, not_found, bad_request, unique_violation, record_missing, supplier_not_found,
  supplier_invalid, category_invalid, category_not_found, Exec, pure, raise, raise_if, gets,
  or_raise, modify, ◌>>=◌, ◌>>◌,
}
use comandas_multitenant_off.Store.{State, Response, supplier_response}
use comandas_multitenant_off.Store.Books.{Supplier, ExpenseCategory}
use comandas_multitenant_off.Dto.{
  HashInput, Operation, Payload, whole_request, post_suppliers, supplier,
}
use comandas_multitenant_off.Dto.Management.{
  CreateSupplierDto, UpdateSupplierDto, CreateExpenseCategoryDto, UpdateExpenseCategoryDto,
}
use comandas_multitenant_off.Idempotency.{get_idempotency_key, execute_idempotent}
use comandas_multitenant_off.Guards.{Subscription}
use comandas_multitenant_off.Orders.{Request, or_old}
use comandas_multitenant_off.Catalog.{or_same}

-- What the code calls and does not define, the subscriptions, which it only reads, and the clock.
-- `show_id` is the text of a generated id.
pub record Env : Type 0 where
  pub hash : HashInput → ℕ
  pub now : Date
  pub subscriptions : List Subscription
  pub show_id : ℕ → String
  pub between : State → State

-- `executeIdempotent`, and `result.value`
unfoldable pub once :
    Env → Request → Operation → Payload → Exec State Response → Exec State Response
once env req op body mutate = do
  out ←
      execute_idempotent env.between req.tenant (get_idempotency_key req.key)
        (env.hash (whole_request op req.tenant req.user body)) mutate
  pure out.0

-- `supplier.findFirst({ where: { id, tenantId } })`
unfoldable pub find_supplier : ℕ → ℕ → State → Option Supplier
find_supplier tenant id s = elim (get id s.suppliers) [
  | none ↦ none
  | some p ↦ if p.tenant == tenant then some p else none
]

-- `expenseCategory.findFirst({ where: { id, tenantId } })`
unfoldable pub find_expense_category : ℕ → ℕ → State → Option ExpenseCategory
find_expense_category tenant id s = elim (get id s.expense_categories) [
  | none ↦ none
  | some c ↦ if c.tenant == tenant then some c else none
]

same_document : Option String → Option String → Bool
same_document (some a) (some b) = str_eq a b
same_document a b = false

-- The unique index on (tenant, document), where another supplier than `id` has the document.
unfoldable pub has_document : ℕ → Supplier → State → Bool
unfolding same_document
has_document id p s = is_some (
    find_row (λ k q. q.tenant == p.tenant && same_document q.document p.document && not (k == id))
      s.suppliers)

insert_supplier : Supplier → Exec State Response
insert_supplier p s = if has_document s.next_id p s then (err unique_violation, s) else (
  ok (supplier_response s.next_id p),
  record s { next_id = suc s.next_id; suppliers = put s.next_id p s.suppliers },
)

-- `SuppliersController.create`
unfoldable pub create_supplier : Env → Request → CreateSupplierDto → Exec State Response
unfolding insert_supplier
create_supplier env req body = once env req post_suppliers (supplier body) (
    insert_supplier (record {
      tenant = req.tenant;
      name = trim body.name;
      trade_name = body.trade_name;
      document = body.document;
      phone = body.phone;
      email = body.email;
      notes = body.notes;
      active = true;
    }))

-- `...body`, and the trimmed name where the name is not empty
change_supplier : UpdateSupplierDto → Supplier → Supplier
change_supplier body p = record p {
  name = elim body.name [ none ↦ p.name | some n ↦ if is_blank n then n else trim n ];
  trade_name = or_old body.trade_name p.trade_name;
  document = or_old body.document p.document;
  phone = or_old body.phone p.phone;
  email = or_old body.email p.email;
  notes = or_old body.notes p.notes;
  active = or_same body.active p.active;
}

write_supplier : ℕ → (Supplier → Supplier) → Exec State Supplier
write_supplier id f s = elim (get id s.suppliers) [
  | none ↦ (err record_missing, s)
  | some p ↦
      if has_document id (f p) s
      then (err unique_violation, s)
      else (ok (f p), record s { suppliers = put id (f p) s.suppliers })
]

-- `SuppliersController.update`
unfoldable pub update_supplier : Env → Request → ℕ → UpdateSupplierDto → Exec State Supplier
unfolding change_supplier write_supplier
update_supplier env req id body = do
  found ← gets (find_supplier req.tenant id)
  or_raise found (not_found supplier_not_found)
  modify env.between
  write_supplier id (change_supplier body)

-- The unique index on (tenant, name), where another category than `id` has the name.
unfoldable pub has_category_name : ℕ → ExpenseCategory → State → Bool
has_category_name id c s = is_some (
    find_row (λ k d. d.tenant == c.tenant && str_eq d.name c.name && not (k == id))
      s.expense_categories)

-- `FinanceController.createCategory`
unfoldable pub create_expense_category :
    Request → CreateExpenseCategoryDto → Exec State (ℕ × ExpenseCategory)
create_expense_category req body s =
    let c : ExpenseCategory = record {
      tenant = req.tenant;
      name = trim body.name;
      active = true;
    } in
    if has_category_name s.next_id c s then (err unique_violation, s) else (
      ok (s.next_id, c),
      record s {
        next_id = suc s.next_id;
        expense_categories = put s.next_id c s.expense_categories;
      },
    )

change_expense_category : UpdateExpenseCategoryDto → ExpenseCategory → ExpenseCategory
change_expense_category body c = record c {
  name = elim body.name [ none ↦ c.name | some n ↦ if is_blank n then n else trim n ];
  active = or_same body.active c.active;
}

write_expense_category : ℕ → (ExpenseCategory → ExpenseCategory) → Exec State ExpenseCategory
write_expense_category id f s = elim (get id s.expense_categories) [
  | none ↦ (err record_missing, s)
  | some c ↦
      if has_category_name id (f c) s
      then (err unique_violation, s)
      else (ok (f c), record s { expense_categories = put id (f c) s.expense_categories })
]

-- `FinanceController.updateCategory`
unfoldable pub update_expense_category :
    Env → Request → ℕ → UpdateExpenseCategoryDto → Exec State ExpenseCategory
unfolding change_expense_category write_expense_category
update_expense_category env req id body = do
  found ← gets (find_expense_category req.tenant id)
  or_raise found (not_found category_not_found)
  modify env.between
  write_expense_category id (change_expense_category body)

is_active_category : Option ExpenseCategory → Bool
is_active_category none = false
is_active_category (some c) = c.active

-- `supplierId` is given and names no active supplier of the tenant.
unfoldable pub bad_supplier : ℕ → Option ℕ → State → Bool
bad_supplier tenant none s = false
bad_supplier tenant (some id) s = elim (find_supplier tenant id s) [
  | none ↦ true
  | some p ↦ not p.active
]

-- The category names no active category of the tenant.
unfoldable pub bad_category : ℕ → ℕ → State → Bool
unfolding is_active_category
bad_category tenant id s = not (is_active_category (find_expense_category tenant id s))

-- `assertFinanceReferences`
unfoldable pub assert_finance_references : ℕ → ℕ → Option ℕ → Exec State (Unit {0})
assert_finance_references tenant category supplier_id = do
  no_category ← gets (bad_category tenant category)
  raise_if no_category (bad_request category_invalid)
  no_supplier ← gets (bad_supplier tenant supplier_id)
  raise_if no_supplier (bad_request supplier_invalid)
