-- ===== src/Store/Queries.antt =====
-- The queries of the handlers, as functions of the state.
use comandas_multitenant_off.Prelude.{
  ℕ, suc, String, Bool, true, false, Option, none, some, List, [], ◌∷◌, ◌++◌, ◌==◌, ◌&&◌, is_some,
  if◌then◌else◌,
}
use text.Mathlib.Text.{◌==◌ as str_eq}
use comandas_multitenant_off.Prelude.Dict.{get, put, find_row}
use comandas_multitenant_off.Http.{ok, err, unique_violation, record_missing, Exec}
use comandas_multitenant_off.Store.{
  State, Order, DiningTable, Product, ChargeStatus, pending, IdempotencyKey, EventName, Response,
  occupies, is_final,
}

-- `order.findFirst({ where: { id, tenantId } })`
unfoldable pub find_order : ℕ → ℕ → State → Option Order
find_order tenant id s = elim (get id s.orders) [
  | none ↦ none
  | some o ↦ if o.tenant == tenant then some o else none
]

-- `diningTable.findFirst({ where: { id, tenantId, active: true } })`
unfoldable pub find_table : ℕ → ℕ → State → Option DiningTable
find_table tenant id s = elim (get id s.tables) [
  | none ↦ none
  | some t ↦ if (t.tenant == tenant) && t.active then some t else none
]

-- `product.findFirst({ where: { id, tenantId } })`
unfoldable pub find_product : ℕ → ℕ → State → Option Product
find_product tenant id s = elim (get id s.products) [
  | none ↦ none
  | some p ↦ if p.tenant == tenant then some p else none
]

abbrev is_pending : ChargeStatus → Bool
is_pending pending = true
is_pending s = false

-- `pixCharge.findFirst({ where: { orderId: id, status: 'pending' } })`, found or not
unfoldable pub has_pending_charge : ℕ → State → Bool
has_pending_charge id s = is_some (find_row (λ k c. c.order == id && is_pending c.status) s.charges)

-- another order than `id` is active at the table
unfoldable pub is_occupied : ℕ → ℕ → ℕ → State → Bool
is_occupied tenant t id s = is_some (find_row (occupies tenant t id) s.orders)

-- `order.updateMany({ where: { id, tenantId, ... }, data })`: the number of rows written
unfoldable pub update_order : ℕ → ℕ → (Order → Bool) → (Order → Order) → Exec State Bool
unfolding find_order
update_order tenant id p f s = elim (find_order tenant id s) [
  | none ↦ (ok false, s)
  | some o ↦ if p o then (ok true, record s { orders = put id (f o) s.orders }) else (ok false, s)
]

-- The unique index on (tenant, table) over the active orders with a table.
unfoldable pub breaks_index : ℕ → Order → State → Bool
unfolding is_occupied
breaks_index id o s = elim o.table_id [
  | none ↦ false
  | some t ↦ if is_final o.status then false else is_occupied o.tenant t id s
]

-- `order.create`: the new order's id and row, unless the index refuses it
unfoldable pub insert_order : Order → Exec State (ℕ × Order)
unfolding breaks_index
insert_order o s = if breaks_index s.next_id o s then (err unique_violation, s) else (
  ok (s.next_id, o),
  record s { next_id = suc s.next_id; orders = put s.next_id o s.orders },
)

-- `order.update({ where: { id } })` that may move the order to another table
unfoldable pub rewrite_order : ℕ → (Order → Order) → Exec State Unit
unfolding breaks_index
rewrite_order id f s = elim (get id s.orders) [
  | none ↦ (err record_missing, s)
  | some o ↦
      if breaks_index id (f o) s
      then (err unique_violation, s)
      else (ok tt, record s { orders = put id (f o) s.orders })
]

-- `orderStatusHistory.create`, `orderItem.create`, `orderPayment.createMany`: rows of an order
unfoldable pub extend_order : ℕ → (Order → Order) → Exec State (Unit {0})
extend_order id f s = elim (get id s.orders) [
  | none ↦ (err record_missing, s)
  | some o ↦ (ok tt, record s { orders = put id (f o) s.orders })
]

-- `order.findUniqueOrThrow({ where: { id } })`
unfoldable pub fresh_order : ℕ → Exec State Response
fresh_order id s = elim (get id s.orders) [
  | none ↦ (err record_missing, s)
  | some o ↦ (ok (Response.order_response id o), s)
]

-- `idempotencyKey.findUnique({ where: { tenantId_key: { tenantId, key } } })`
unfoldable pub find_key : ℕ → String → List IdempotencyKey → Option IdempotencyKey
find_key tenant key [] = none
find_key tenant key (r ∷ rows) =
    if (r.tenant == tenant) && str_eq r.key key then some r else find_key tenant key rows

-- `OrdersGateway.emitToTenant`
unfoldable pub emit_to_tenant : ℕ → EventName → Response → Exec State (Unit {0})
emit_to_tenant tenant name r s = (
  ok tt,
  record s { events = s.events ++ (record { tenant = tenant; name = name; payload = r }) ∷ [] },
)
