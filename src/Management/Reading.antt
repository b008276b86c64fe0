-- ===== src/Management/Reading.antt =====
-- The listings of backend/src/management.controller.ts that only read a table. The order of a query
-- is a parameter; a movement's product, which the rows name, is left out.
use comandas_multitenant_off.Prelude.{
  ℕ, Bool, Option, none, some, List, [], ◌∷◌, ◌==◌, ◌&&◌, true, suc, zero, not,
}
use comandas_multitenant_off.Prelude.Dict.{Dict}
use comandas_multitenant_off.Prelude.Lists.{keep}
use comandas_multitenant_off.Http.{Result}
use comandas_multitenant_off.Store.{State, StockMovement}
use comandas_multitenant_off.Store.Books.{Supplier, ExpenseCategory, Template, Purchase}
use comandas_multitenant_off.Pagination.{Limit, Page, list_page}

same_bool : Bool → Bool → Bool
same_bool true b = b
same_bool a b = not b

is_asked : Option Bool → Bool → Bool
unfolding same_bool
is_asked none b = true
is_asked (some a) b = same_bool a b

-- `SuppliersController.list`; `active` is `active === 'true'` where the query has it
unfoldable pub list_suppliers :
    (Dict Supplier → Dict Supplier)
    → Option Bool
    → Limit
    → Option ℕ
    → ℕ
    → State
    → Result (Page Supplier)
unfolding is_asked
list_suppliers sort active limit cursor tenant s =
    list_page (sort (keep (λ r. r.1.tenant == tenant && is_asked active r.1.active) s.suppliers))
      limit cursor

-- `FinanceController.listCategories`
unfoldable pub list_expense_categories :
    (Dict ExpenseCategory → Dict ExpenseCategory) → ℕ → State → Dict ExpenseCategory
list_expense_categories sort tenant s = sort (keep (λ r. r.1.tenant == tenant) s.expense_categories)

-- `FinanceController.listRecurring`
unfoldable pub list_recurring : (Dict Template → Dict Template) → ℕ → State → Dict Template
list_recurring sort tenant s = sort (keep (λ r. r.1.tenant == tenant) s.templates)

is_product : Option ℕ → StockMovement → Bool
is_product none m = true
is_product (some id) m = m.product == id

first : ℕ → List StockMovement → List StockMovement
first zero ms = []
first (suc n) [] = []
first (suc n) (m ∷ ms) = m ∷ first n ms

-- `InventoryController.movements`
unfoldable pub list_movements :
    (List StockMovement → List StockMovement) → Option ℕ → ℕ → State → List StockMovement
unfolding is_product first
list_movements newest product tenant s =
    first 500 (newest (keep (λ m. m.tenant == tenant && is_product product m) s.movements))

-- `PurchasesController.list`
unfoldable pub list_purchases :
    (Dict Purchase → Dict Purchase) → Limit → Option ℕ → ℕ → State → Result (Page Purchase)
list_purchases newest limit cursor tenant s =
    list_page (newest (keep (λ r. r.1.tenant == tenant) s.purchases)) limit cursor
