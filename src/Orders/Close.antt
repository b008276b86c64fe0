-- ===== src/Orders/Close.antt =====
-- `closeOrder`: POST /v1/orders/:id/close. With payments it settles; without, it closes the order
-- with no look at its bill or at a pending Pix charge.
pub mod Refines
use comandas_multitenant_off.Prelude.{
  ℕ, ◌+◌, Bool, true, false, Option, none, some, List, [], ◌∷◌, ◌&&◌, not, if◌then◌else◌,
}
use comandas_multitenant_off.Dto.{CloseOrderDto, SettleOrderDto, OrderPaymentDto, close, body_only}
use comandas_multitenant_off.Http.{
  bad_request, not_found, conflict, order_not_found, order_canceled, version_conflict,
  concurrent_update, Exec, pure, raise, gets, reads, ◌>>=◌, ◌>>◌,
}
use comandas_multitenant_off.Store.{State, Order, Status, closed, canceled, Response}
use comandas_multitenant_off.Store.Queries.{find_order, update_order, fresh_order}
use comandas_multitenant_off.Idempotency.{get_raw_key, check_idempotency, save_idempotency}
use comandas_multitenant_off.Orders.{
  Env, Request, has_version, is_active, add_history, commit_update,
}
use comandas_multitenant_off.Orders.Settle.{handle_settle}

abbrev pub close_directly : Order → Order
close_directly o = record o { status = closed; version = o.version + 1; table_id = none }

explain_version : Option ℕ → Order → Exec State Response
explain_version expected o =
    raise
      (conflict (if has_version expected o.version then concurrent_update else version_conflict))

explain_found : ℕ → Option ℕ → Order → Status → Exec State Response
unfolding explain_version
explain_found id expected o closed = pure (Response.order_response id o)
explain_found id expected o canceled = raise (bad_request order_canceled)
explain_found id expected o status = explain_version expected o

-- `closeResult.count === 0`
explain_close : ℕ → Option ℕ → Option Order → Exec State Response
unfolding explain_found
explain_close id expected none = raise (not_found order_not_found)
explain_close id expected (some o) = explain_found id expected o o.status

confirm_close : ℕ → Request → ℕ → Exec State Response
confirm_close h req id = do
  add_history id (record { from_status = none; to_status = closed; changed_by = req.user })
  fresh ← fresh_order id
  save_idempotency req.tenant (get_raw_key req.key) h fresh
  pure fresh

-- The transaction.
unfoldable pub close_order : ℕ → Request → ℕ → Option ℕ → Exec State Response
unfolding explain_close confirm_close
close_order h req id expected = do
  updated ←
      update_order req.tenant id (λ o. is_active o.status && has_version expected o.version)
        close_directly
  existing ← gets (find_order req.tenant id)
  if updated then confirm_close h req id else explain_close id expected existing

unfoldable pub close_unpaid : Env → Request → ℕ → CloseOrderDto → Exec State Response
close_unpaid env req id body = do
  let h = env.hash (body_only (close body))
  cached ← reads (check_idempotency req.tenant (get_raw_key req.key) h)
  elim cached [
    | some r ↦ pure r
    | none ↦ commit_update env req (close_order h req id body.expected_version)
  ]

-- `body as SettleOrderDto`
abbrev pub as_settlement : CloseOrderDto → List OrderPaymentDto → SettleOrderDto
as_settlement b ps = record {
  discount_cents = b.discount_cents;
  discount_type = b.discount_type;
  discount_value = b.discount_value;
  service_fee_bps = b.service_fee_bps;
  payments = ps;
  expected_version = b.expected_version;
}

unfoldable pub close_with :
    Option (List OrderPaymentDto) → Env → Request → ℕ → CloseOrderDto → Exec State Response
close_with none env req id body = close_unpaid env req id body
close_with (some []) env req id body = close_unpaid env req id body
close_with (some (p ∷ ps)) env req id body = handle_settle env req id (as_settlement body (p ∷ ps))

unfoldable pub handle_close : Env → Request → ℕ → CloseOrderDto → Exec State Response
unfolding close_with
handle_close env req id body = close_with body.payments env req id body
