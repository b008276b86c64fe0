-- ===== src/Orders/Items.antt =====
-- `addItem`: POST /v1/orders/:id/items.
pub mod Refines
use comandas_multitenant_off.Prelude.{
  ℕ, ◌+◌, String, Bool, true, false, Option, none, some, [], ◌∷◌, ◌++◌, not, ◌&&◌, or_else,
  if◌then◌else◌,
}
use comandas_multitenant_off.Prelude.Trim.{trim, is_blank}
use comandas_multitenant_off.Dto.{AddItemDto, add_item, body_only}
use comandas_multitenant_off.Http.{
  Result, ok, err, bad_request, not_found, conflict, product_not_found, product_unavailable,
  product_required, price_required, order_not_found, order_closed, pix_pending, version_conflict,
  concurrent_update, Exec, pure, raise, raise_if, gets, reads, ◌>>=◌, ◌>>◌,
}
use comandas_multitenant_off.Store.{State, Order, OrderItem, Product, is_closed, Response}
use comandas_multitenant_off.Store.Queries.{
  find_order, find_product, has_pending_charge, update_order, extend_order, fresh_order,
}
use comandas_multitenant_off.Idempotency.{get_raw_key, check_idempotency, save_idempotency}
use comandas_multitenant_off.Orders.{Env, Request, has_version, commit_update}

-- The trimmed text, unless nothing is left.
unfoldable pub trimmed : Option String → Option String
trimmed none = none
trimmed (some s) = let t = trim s in if is_blank t then none else some t

unfoldable pub item_of : AddItemDto → Option ℕ → String → ℕ → ℕ → OrderItem
item_of body product name price cost = record {
  product = product;
  product_name = name;
  quantity = body.quantity;
  unit_price_cents = price;
  unit_cost_cents = cost;
  selected_options = trimmed body.selected_options;
  notes = trimmed body.notes;
}

-- An item without a product has the price of the request.
free_item : AddItemDto → String → Option ℕ → Result OrderItem
free_item body name none =
    err (bad_request (if is_blank name then product_required else price_required))
free_item body name (some price) =
    if is_blank name
    then err (bad_request product_required)
    else ok (item_of body none name price 0)

-- An item of a product has the name, price and cost that the catalog gives it.
product_item : AddItemDto → ℕ → Option Product → Result OrderItem
product_item body id none = err (not_found product_not_found)
product_item body id (some p) =
    if p.active && p.available
    then if is_blank p.name
      then err (bad_request product_required)
      else ok (item_of body (some id) p.name p.price_cents p.cost_cents)
    else err (bad_request product_unavailable)

choose_item : AddItemDto → ℕ → Option ℕ → State → Result OrderItem
unfolding free_item product_item
choose_item body tenant none s =
    free_item body (trim (or_else body.product_name "")) body.unit_price_cents
choose_item body tenant (some id) s = product_item body id (find_product tenant id s)

-- The item that the request adds, from the catalog as it stands.
unfoldable pub resolve_item : AddItemDto → ℕ → State → Result OrderItem
unfolding choose_item
resolve_item body tenant s = choose_item body tenant body.product_id s

abbrev pub bump_version : Order → Order
bump_version o = record o { version = o.version + 1 }

abbrev pub push_item : OrderItem → Order → Order
push_item i o = record o { items = o.items ++ i ∷ [] }

-- `orderUpdate.count === 0`
explain_item : Option ℕ → Option Order → Exec State Response
explain_item expected none = raise (not_found order_not_found)
explain_item expected (some o) =
    if is_closed o.status
    then raise (bad_request order_closed)
    else raise
        (conflict (if has_version expected o.version then concurrent_update else version_conflict))

store_item : ℕ → Request → ℕ → OrderItem → Exec State Response
store_item h req id item = do
  extend_order id (push_item item)
  fresh ← fresh_order id
  save_idempotency req.tenant (get_raw_key req.key) h fresh
  pure fresh

-- The transaction.
unfoldable pub append_item : ℕ → Request → ℕ → Option ℕ → OrderItem → Exec State Response
unfolding explain_item store_item
append_item h req id expected item = do
  blocked ← gets (has_pending_charge id)
  raise_if blocked (conflict pix_pending)
  updated ←
      update_order req.tenant id (λ o. not (is_closed o.status) && has_version expected o.version)
        bump_version
  existing ← gets (find_order req.tenant id)
  if updated then store_item h req id item else explain_item expected existing

unfoldable pub handle_item : Env → Request → ℕ → AddItemDto → Exec State Response
handle_item env req id body = do
  let h = env.hash (body_only (add_item body))
  cached ← reads (check_idempotency req.tenant (get_raw_key req.key) h)
  elim cached [
    | some r ↦ pure r
    | none ↦ do
      item ← reads (resolve_item body req.tenant)
      commit_update env req (append_item h req id body.expected_version item)
  ]
