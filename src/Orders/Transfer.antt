-- ===== src/Orders/Transfer.antt =====
-- `transferTable`: POST /v1/orders/:id/transfer. The endpoint has no idempotency key.
pub mod Refines
use comandas_multitenant_off.Prelude.{ℕ, ◌+◌, String, Bool, Option, none, some}
use comandas_multitenant_off.Http.{
  bad_request, not_found, conflict, target_required, order_not_found, order_finished,
  table_not_found, table_occupied, Exec, pure, raise, raise_if, gets, or_raise, catch_unique,
  transaction, ◌>>=◌, ◌>>◌,
}
use comandas_multitenant_off.Store.{State, Order, is_final, Response, order_updated}
use comandas_multitenant_off.Store.Queries.{
  find_order, find_table, is_occupied, rewrite_order, fresh_order, emit_to_tenant,
}
use comandas_multitenant_off.Orders.{Env, Request}

abbrev pub move_table : ℕ → String → Order → Order
move_table t label o = record o { table_id = some t; table_label = label; version = o.version + 1 }

-- The transaction.
unfoldable pub transfer_order : Request → ℕ → ℕ → Exec State Response
transfer_order req id target = do
  found ← gets (find_order req.tenant id)
  o ← or_raise found (not_found order_not_found)
  raise_if (is_final o.status) (bad_request order_finished)
  there ← gets (find_table req.tenant target)
  row ← or_raise there (not_found table_not_found)
  busy ← gets (is_occupied req.tenant target id)
  raise_if busy (conflict table_occupied)
  catch_unique (rewrite_order id (move_table target row.label)) (raise (conflict table_occupied))
  fresh_order id

unfoldable pub handle_transfer : Request → ℕ → Option ℕ → Exec State Response
handle_transfer req id none = raise (bad_request target_required)
handle_transfer req id (some target) = do
  updated ← transaction (transfer_order req id target)
  emit_to_tenant req.tenant order_updated updated
  pure updated
