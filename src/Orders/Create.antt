-- ===== src/Orders/Create.antt =====
-- `createOrder`: POST /v1/orders.
pub mod Refines
use text.Mathlib.Text.{◌==◌ as str_eq}
use comandas_multitenant_off.Prelude.{
  ℕ, String, Bool, true, false, Option, none, some, List, [], ◌∷◌, not, ◌&&◌, is_some, or_else,
  if◌then◌else◌,
}
use comandas_multitenant_off.Prelude.Trim.{trim, is_blank}
use comandas_multitenant_off.Dto.{CreateOrderDto, create_order, post_orders}
use comandas_multitenant_off.Http.{
  Result, ok, err, bad_request, not_found, conflict, table_required, table_not_found,
  table_occupied, Exec, pure, raise, raise_if, gets, reads, lift, or_raise, catch_unique, ◌>>=◌,
  ◌>>◌,
}
use comandas_multitenant_off.Store.{
  State, Order, OrderType, table, quick_sale, takeaway, delivery, opened, Response, order_response,
  order_created,
}
use comandas_multitenant_off.Store.Queries.{find_table, is_occupied, insert_order, emit_to_tenant}
use comandas_multitenant_off.Orders.{Env, Request, execute_request}

abbrev pub default_label : OrderType → String
default_label table = ""
default_label quick_sale = "Venda rápida"
default_label takeaway = "Retirada"
default_label delivery = "Delivery"

abbrev or_default : String → String → String
or_default a b = if is_blank a then b else a

-- Where the order goes: its table and its label.
pub record Place : Type 0 where
  pub table_id : Option ℕ
  pub label : String

named_place : ℕ → Option ℕ → String → State → Result Place
named_place tenant none label s =
    if is_blank label
    then err (bad_request table_required)
    else ok (record { table_id = none; label = label })
named_place tenant (some t) label s = elim (find_table tenant t s) [
  | none ↦ err (not_found table_not_found)
  | some row ↦ ok (record { table_id = some t; label = or_default label row.label })
]

unfoldable pub place : ℕ → OrderType → Option ℕ → String → State → Result Place
unfolding named_place
place tenant table t label s = named_place tenant t label s
place tenant type t label s =
    ok (record { table_id = none; label = or_default label (default_label type) })

unfoldable pub new_order : ℕ → OrderType → Place → Option ℕ → Order
new_order tenant type p user = record {
  tenant = tenant;
  table_id = p.table_id;
  table_label = p.label;
  order_type = type;
  status = opened;
  version = 1;
  subtotal_cents = 0;
  discount_cents = 0;
  discount_type = none;
  discount_value = none;
  discount_authorized_by = none;
  service_fee_bps = 1000;
  service_fee_cents = 0;
  total_cents = 0;
  settled_at = none;
  settled_by = none;
  items = [];
  payments = [];
  history = record { from_status = none; to_status = opened; changed_by = user } ∷ [];
}

table_is_busy : ℕ → ℕ → Option ℕ → State → Bool
table_is_busy tenant next none s = false
table_is_busy tenant next (some t) s = is_occupied tenant t next s

-- The mutation of `executeIdempotent`. The order is not there yet, so no order is left out of the
-- search for one at the table: `next_id` is the id of none.
unfoldable pub open_order : Request → OrderType → Place → Exec State Response
unfolding table_is_busy
open_order req type p = do
  busy ← gets (λ s. table_is_busy req.tenant s.next_id p.table_id s)
  raise_if busy (conflict table_occupied)
  created ←
      catch_unique (insert_order (new_order req.tenant type p req.user))
        (raise (conflict table_occupied))
  pure (order_response created.0 created.1)

unfoldable pub handle_create : Env → Request → CreateOrderDto → Exec State Response
handle_create env req body = do
  let type = or_else body.order_type table
  p ← reads (place req.tenant type body.table_id (trim (or_else body.table_label "")))
  result ← execute_request env req post_orders (create_order body) (open_order req type p)
  if result.1
      then pure result.0
      else do emit_to_tenant req.tenant order_created result.0; pure result.0
