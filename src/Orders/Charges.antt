-- ===== src/Orders/Charges.antt =====
-- Orders with a pending Pix charge: which endpoints wait for it.
use comandas_multitenant_off.Prelude.{==_refl, ℕ, ◌≡◌, true, false, Option, none, some, arith}
use comandas_multitenant_off.Prelude.Dict.{get, put, get-put_self, put-put}
use comandas_multitenant_off.Http.{ok, ◌>>=◌}
use comandas_multitenant_off.Store.{State, Order, OrderItem, order_response, Status, canceled}
use comandas_multitenant_off.Store.Queries.{
  find_order, has_pending_charge, update_order, extend_order, fresh_order,
}
use comandas_multitenant_off.Idempotency.{get_raw_key, save_idempotency}
use comandas_multitenant_off.Orders.{Request, has_version, is_active, log, add_history}
use comandas_multitenant_off.Orders.Items.{bump_version, push_item, append_item}
use comandas_multitenant_off.Orders.Close.{close_directly, close_order}

-- Closing without payments does not wait: an active order of the tenant at the expected version is
-- closed whatever its charges, if the key is unused. The order is answered as it is stored, with
-- its table free, its version counted up, and the closing in its history.
pub close_order_succeeds :
    (h : ℕ) (req : Request) (id : ℕ) (expected : Option ℕ) (s : State) (o : Order)
    → get id s.orders ≡ some o
    → o.tenant ≡ req.tenant
    → is_active o.status ≡ true
    → has_version expected o.version ≡ true
    → get_raw_key req.key ≡ none
    → let new =
        log
          (record { from_status = none; to_status = Status.closed; changed_by = req.user })
          (close_directly o) in
      close_order h req id expected s
      ≡ (ok (order_response id new), record s { orders = put id new s.orders })
unfolding close_order add_history update_order find_order fresh_order save_idempotency ◌>>=◌
close_order_succeeds h req id expected s o here owned active version no_key =
    let one = close_directly o in
    let new =
      log (record { from_status = none; to_status = Status.closed; changed_by = req.user }) one in
    ground (
      arith,
      ==_refl req.tenant,
      get-put_self id one s.orders,
      get-put_self id new (put id one s.orders),
      put-put id new one s.orders,
    )

-- An item is added to a canceled order of the tenant as to an open one, if no charge is pending and
-- no key is given.
pub append_item_canceled :
    (h : ℕ) (req : Request) (id : ℕ) (item : OrderItem) (s : State) (o : Order)
    → get id s.orders ≡ some o
    → o.tenant ≡ req.tenant
    → o.status ≡ canceled
    → has_pending_charge id s ≡ false
    → get_raw_key req.key ≡ none
    → let new = push_item item (bump_version o) in
      append_item h req id none item s
      ≡ (ok (order_response id new), record s { orders = put id new s.orders })
unfolding append_item update_order find_order extend_order fresh_order save_idempotency ◌>>=◌
append_item_canceled h req id item s o here owned gone quiet no_key =
    let one = bump_version o in
    let new = push_item item one in
    ground (
      arith,
      ==_refl req.tenant,
      get-put_self id one s.orders,
      get-put_self id new (put id one s.orders),
      put-put id new one s.orders,
    )
