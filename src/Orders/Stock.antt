-- ===== src/Orders/Stock.antt =====
-- The stock of the products that an order sells: the loops of `settleOrder`, and those of the Pix
-- webhook (backend/src/pix.controller.ts), which differ in how they look a product up.
pub mod Frame
use comandas_multitenant_off.Prelude.{
  ℕ, zero, suc, ◌+◌, ◌*◌, ◌==◌, Bool, true, false, Option, none, some, List, [], ◌∷◌, ◌++◌, ◌&&◌,
  if◌then◌else◌,
}
use comandas_multitenant_off.Prelude.Int.{ℤ, pos, ◌-ℤ◌}
use comandas_multitenant_off.Prelude.Dict.{Dict, get, put}
use comandas_multitenant_off.Http.{Result, ok, err, unique_violation, Exec}
use comandas_multitenant_off.Store.{State, OrderItem, Product, StockMovement, MovementType, sale}

pub record Sale : Type 0 where
  pub quantity : ℕ
  pub unit_cost_cents : ℕ

-- `saleByProduct`: a Map in the order of insertion; the cost is that of the product's first item.
add_sale : ℕ → OrderItem → Dict Sale → Dict Sale
add_sale p i [] = (p, record { quantity = i.quantity; unit_cost_cents = i.unit_cost_cents }) ∷ []
add_sale p i ((q, x) ∷ m) =
    if q == p
    then (q, record x { quantity = x.quantity + i.quantity }) ∷ m
    else (q, x) ∷ add_sale p i m

tally_item : OrderItem → Dict Sale → Dict Sale
unfolding add_sale
tally_item i m = elim i.product [ none ↦ m | some p ↦ add_sale p i m ]

unfoldable pub tally_sales : List OrderItem → Dict Sale → Dict Sale
unfolding tally_item
tally_sales [] m = m
tally_sales (i ∷ is) m = tally_sales is (tally_item i m)

abbrev is_sale : MovementType → Bool
is_sale sale = true
is_sale t = false

abbrev same_reference : Option ℕ → Option ℕ → Bool
same_reference (some a) (some b) = a == b
same_reference a b = false

-- The unique index of `StockMovement`, for sales: one a product and order.
unfoldable pub has_sale : StockMovement → List StockMovement → Bool
has_sale m [] = false
has_sale m (x ∷ xs) =
    if x.tenant == m.tenant
      && is_sale x.type
      && same_reference x.reference m.reference
      && x.product == m.product
    then true
    else has_sale m xs

-- thousandths of a unit
abbrev pub milli : ℕ → ℤ
milli q = pos (q * 1000)

abbrev pub movement_of : ℕ → ℕ → ℕ → Sale → Option ℕ → StockMovement
movement_of tenant order p x user = record {
  tenant = tenant;
  product = p;
  type = sale;
  quantity = pos 0 -ℤ milli x.quantity;
  unit_cost_cents = some x.unit_cost_cents;
  reference = some order;
  created_by = user;
}

-- `product.update({ data: { stock_quantity: { decrement } } })`
take_stock : ℕ → Product → ℕ → State → State
take_stock p row quantity s = record s {
  products =
      put p (record row { stock_quantity = row.stock_quantity -ℤ milli quantity }) s.products;
}

-- `stockMovement.create`
insert_sale : StockMovement → Exec State (Unit {0})
insert_sale m s =
    if has_sale m s.movements
    then (err unique_violation, s)
    else (ok tt, record s { movements = s.movements ++ m ∷ [] })

-- The stock is taken before the movement is written.
unfoldable pub record_sale : StockMovement → ℕ → Product → ℕ → Exec State (Unit {0})
unfolding take_stock insert_sale
record_sale m p row quantity s = insert_sale m (take_stock p row quantity s)

-- One round of the loop over `saleByProduct`, with the product that was found.
unfoldable pub sell_found : ℕ → ℕ → Option ℕ → ℕ → Sale → Option Product → Exec State (Unit {0})
unfolding record_sale
sell_found tenant order user p x none s = (ok tt, s)
sell_found tenant order user p x (some row) s =
    if row.stock_controlled
    then record_sale (movement_of tenant order p x user) p row x.quantity s
    else (ok tt, s)

-- The loop, over a way to find a product.
unfoldable pub sell_all :
    (ℕ → State → Option Product) → ℕ → ℕ → Option ℕ → Dict Sale → Exec State (Unit {0})
unfolding sell_found
sell_all find tenant order user [] s = (ok tt, s)
sell_all find tenant order user ((p, x) ∷ m) s =
    let (r, s') = sell_found tenant order user p x (find p s) s in
    elim r [ err e ↦ (err e, s') | ok _ ↦ sell_all find tenant order user m s' ]
