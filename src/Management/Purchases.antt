-- ===== src/Management/Purchases.antt =====
-- backend/src/management.controller.ts, `PurchasesController`. The products are read before the
-- transaction. No unique index refuses a movement: the purchase's id is
-- new and its products are distinct.
pub mod Pricing
use comandas_multitenant_off.Prelude.{
  ℕ, zero, suc, ◌+◌, ◌-◌, ◌*◌, ◌/◌, ◌≤◌, ◌≡◌, ◌⊎◌, inl, inr, refl, sym, ap, ◌∙◌, String, Bool, true,
  false, Option, none, some, List, [], ◌∷◌, ◌++◌, map, arith, ◌==◌, ◌&&◌, ◌||◌, not, ltb, leb,
  is_some, or_else, if◌then◌else◌, Bool-cases, Option-cases, ==_refl, eq_of_==,
}
use comandas_multitenant_off.Prelude.Dict.{
  Dict, get, put, find_row, map_rows, get-put, put-put, get-put_self, get-map_rows,
  find_row-map_rows, find_row-none, find_row-some, dict_laws,
}
use comandas_multitenant_off.Prelude.Lists.{length, sum_by}
use Prim.Native.String.{◌++◌ as str_append}
use comandas_multitenant_off.Prelude.Int.{pos, ◌+ℤ◌}
use comandas_multitenant_off.Prelude.Lists.{keep}
use comandas_multitenant_off.Calendar.{Date, rank, parse_date, month_start}
use comandas_multitenant_off.Http.{
  Result, ok, err, bad_request, forbidden, record_missing, supplier_invalid, category_invalid,
  no_items, repeated_product, foreign_product, payable_fields_required, pro_required, Exec, pure,
  raise_if, gets, lift, or_raise, ◌>>=◌, ◌>>◌,
}
use comandas_multitenant_off.Store.{
  State, Product, StockMovement, MovementType, Response, purchase_response,
}
use comandas_multitenant_off.Store.Books.{Purchase, PurchaseItem, PurchaseStatus, Expense}
use comandas_multitenant_off.Dto.{post_purchases, purchase}
use comandas_multitenant_off.Dto.Management.{PurchaseItemDto, CreatePurchaseDto}
use comandas_multitenant_off.Guards.{has_pro}
use comandas_multitenant_off.Orders.{Request}
use comandas_multitenant_off.Management.{Env, once, bad_supplier, bad_category}
use comandas_multitenant_off.Management.Expenses.{insert_expense}
use comandas_multitenant_off.Management.Doubles.{line_total}
use comandas_multitenant_off.Management.Inventory.{write_stock, insert_movement}

unfoldable pub is_among : ℕ → List ℕ → Bool
is_among k [] = false
is_among k (j ∷ js) = (j == k) || is_among k js

-- `new Set(ids).size !== ids.length`
unfoldable pub has_repeats : List ℕ → Bool
unfolding is_among
has_repeats [] = false
has_repeats (j ∷ js) = is_among j js || has_repeats js

abbrev pub product_ids : CreatePurchaseDto → List ℕ
product_ids body = map (λ i. i.product_id) body.items

-- `product.findMany({ where: { tenantId, id: { in: productIds } } })`
unfoldable pub find_products : ℕ → List ℕ → State → Dict Product
find_products tenant ids s = keep (λ r. r.1.tenant == tenant && is_among r.0 ids) s.products

abbrev pub purchase_line : PurchaseItemDto → PurchaseItem
purchase_line i = record {
  product = i.product_id;
  quantity = i.quantity;
  unit_cost_cents = i.unit_cost_cents;
  total_cents = line_total i.quantity i.unit_cost_cents;
}

abbrev pub lines_total : List PurchaseItem → ℕ
lines_total = sum_by (λ i. i.total_cents)

wants_payable : CreatePurchaseDto → Bool
wants_payable body = or_else body.create_payable false

lacks_fields : CreatePurchaseDto → Bool
unfolding wants_payable
lacks_fields body =
    wants_payable body && (not (is_some body.expense_category_id) || not (is_some body.due_date))

lacks_pro : Env → Request → CreatePurchaseDto → Bool
unfolding wants_payable
lacks_pro env req body =
    wants_payable body && not (has_pro (rank env.now) req.tenant env.subscriptions)

wrong_category : ℕ → Option ℕ → State → Bool
wrong_category tenant none s = false
wrong_category tenant (some id) s = bad_category tenant id s

-- The checks before the transaction: the products as they were read.
unfoldable pub check_purchase : Env → Request → CreatePurchaseDto → Exec State (Dict Product)
unfolding lacks_fields lacks_pro wrong_category
check_purchase env req body = do
  raise_if (length body.items == 0) (bad_request no_items)
  raise_if (has_repeats (product_ids body)) (bad_request repeated_product)
  products ← gets (find_products req.tenant (product_ids body))
  raise_if (not (length products == length (product_ids body))) (bad_request foreign_product)
  no_supplier ← gets (bad_supplier req.tenant body.supplier_id)
  raise_if no_supplier (bad_request supplier_invalid)
  raise_if (lacks_fields body) (bad_request payable_fields_required)
  raise_if (lacks_pro env req body) (forbidden pro_required)
  no_category ← gets (wrong_category req.tenant body.expense_category_id)
  raise_if no_category (bad_request category_invalid)
  pure products

unfoldable pub is_counted : ℕ → Dict Product → Bool
is_counted id products = elim (get id products) [ none ↦ false | some p ↦ p.stock_controlled ]

unfoldable pub received : Bool → PurchaseItem → Product → Product
received counted line p = record p {
  cost_cents = line.unit_cost_cents;
  stock_quantity = if counted then p.stock_quantity +ℤ pos line.quantity else p.stock_quantity;
}

abbrev pub purchase_movement : Request → ℕ → PurchaseItem → StockMovement
purchase_movement req id line = record {
  tenant = req.tenant;
  product = line.product;
  type = MovementType.purchase;
  quantity = pos line.quantity;
  unit_cost_cents = some line.unit_cost_cents;
  reference = some id;
  created_by = req.user;
}

record_line : Bool → Request → ℕ → PurchaseItem → Exec State (Unit {0})
record_line false req id line = pure tt
record_line true req id line = do insert_movement (purchase_movement req id line); pure tt

-- One round of the loop over the lines.
unfoldable pub receive_line : Request → ℕ → Bool → PurchaseItem → Exec State (Unit {0})
unfolding record_line
receive_line req id counted line = do
  write_stock line.product (received counted line)
  record_line counted req id line

unfoldable pub receive_lines :
    Request → ℕ → Dict Product → List PurchaseItem → Exec State (Unit {0})
receive_lines req id products [] = pure tt
receive_lines req id products (line ∷ lines) = do
  receive_line req id (is_counted line.product products) line
  receive_lines req id products lines

-- `purchase.create`
insert_purchase : Purchase → Exec State ℕ
insert_purchase p s =
    (ok s.next_id, record s { next_id = suc s.next_id; purchases = put s.next_id p s.purchases })

unfoldable pub new_purchase : Env → Request → CreatePurchaseDto → Date → Purchase
new_purchase env req body d = record {
  tenant = req.tenant;
  supplier = body.supplier_id;
  document_no = body.document_no;
  status = PurchaseStatus.confirmed;
  purchased_at = d;
  total_cents = lines_total (map purchase_line body.items);
  notes = body.notes;
  created_by = req.user;
  confirmed_at = some env.now;
  payable_expense = none;
  items = map purchase_line body.items;
}

-- The expense of a purchase; the category is one that the checks found.
unfoldable pub purchase_expense : Env → Request → ℕ → CreatePurchaseDto → Date → Date → ℕ → Expense
purchase_expense env req id body due bought category = record {
  tenant = req.tenant;
  supplier = body.supplier_id;
  category = category;
  recurring_template = none;
  description = str_append "Compra " (or_else body.document_no (env.show_id id));
  amount_cents = lines_total (map purchase_line body.items);
  due_date = due;
  competence_date = month_start bought;
  notes = none;
  canceled_at = none;
  created_by = req.user;
  payments = [];
}

-- `purchase.update({ where: { id } })`
write_purchase : ℕ → (Purchase → Purchase) → Exec State (Unit {0})
write_purchase id f s = elim (get id s.purchases) [
  | none ↦ (err record_missing, s)
  | some p ↦ (ok tt, record s { purchases = put id (f p) s.purchases })
]

open_payable : Env → Request → ℕ → CreatePurchaseDto → ℕ → Exec State (Unit {0})
open_payable env req id body category = do
  due ← lift (parse_date (or_else body.due_date none))
  bought ← lift (parse_date body.purchased_at)
  row ← insert_expense (purchase_expense env req id body due bought category)
  write_purchase id (λ p. record p { payable_expense = some row.0 })

-- `if (body.create_payable)`
book_payable : Bool → Option ℕ → Env → Request → ℕ → CreatePurchaseDto → Exec State (Unit {0})
unfolding open_payable write_purchase
book_payable true (some category) env req id body = open_payable env req id body category
book_payable wants category env req id body = pure tt

fresh_purchase : ℕ → Exec State Response
fresh_purchase id s = elim (get id s.purchases) [
  | none ↦ (err record_missing, s)
  | some p ↦ (ok (purchase_response id p), s)
]

-- The mutation of `create`, with the products as they were read.
unfoldable pub receive_purchase :
    Env → Request → CreatePurchaseDto → Dict Product → Exec State Response
unfolding insert_purchase book_payable fresh_purchase wants_payable
receive_purchase env req body products = do
  d ← lift (parse_date body.purchased_at)
  id ← insert_purchase (new_purchase env req body d)
  receive_lines req id products (map purchase_line body.items)
  book_payable (wants_payable body) body.expense_category_id env req id body
  fresh_purchase id

unfoldable pub create_purchase : Env → Request → CreatePurchaseDto → Exec State Response
create_purchase env req body = do
  products ← check_purchase env req body
  once env req post_purchases (purchase body) (receive_purchase env req body products)
