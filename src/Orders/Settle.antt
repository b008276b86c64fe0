-- ===== src/Orders/Settle.antt =====
-- `settleOrder`: POST /v1/orders/:id/settle.
pub mod Waits
pub mod Limit
pub mod Refines
use Prim.Native.Nat.{compare}
use comandas_multitenant_off.Prelude.{
  ℕ, zero, suc, ◌+◌, ◌==◌, Bool, true, false, Option, none, some, List, [], ◌∷◌, ◌++◌, map, ◌&&◌,
  not, ltb, if◌then◌else◌,
}
use comandas_multitenant_off.Prelude.Int.{pos}
use comandas_multitenant_off.Dto.{SettleOrderDto, OrderPaymentDto, settle, post_settle}
use comandas_multitenant_off.Http.{
  Result, ok, err, bad_request, not_found, conflict, order_not_found, historic_closed,
  order_canceled, version_conflict, pix_pending, concurrent_update, Exec, pure, raise, raise_if,
  gets, reads, lift, or_raise, ◌>>=◌, ◌>>◌,
}
use comandas_multitenant_off.Store.{
  State, Order, OrderPayment, StatusChange, Status, opened, sent_to_kitchen, delivered, closed,
  canceled, AuditEntry, items_subtotal, Response, order_updated,
}
use comandas_multitenant_off.Store.Queries.{
  find_order, find_product, has_pending_charge, update_order, extend_order, fresh_order,
  emit_to_tenant,
}
use comandas_multitenant_off.Financial.{
  Bill, PaymentInput, PaymentCheck, ValidatedPayment, validate_payments_total,
}
use comandas_multitenant_off.Orders.{
  Env, Request, has_version, is_active, or_old, add_history, execute_request,
}
use comandas_multitenant_off.Orders.Discount.{
  Discount, resolve_discount, assert_discount_permission, bill_for,
}
use comandas_multitenant_off.Orders.Stock.{tally_sales, sell_all}

abbrev pub payment_input : OrderPaymentDto → PaymentInput
payment_input p = record {
  method = p.method;
  amount_cents = pos p.amount_cents;
  tendered_cents = elim p.tendered_cents [ none ↦ none | some t ↦ some (pos t) ];
}

abbrev pub payment_row : ValidatedPayment → OrderPayment
payment_row v = record {
  method = v.method;
  amount_cents = v.amount_cents;
  tendered_cents = v.tendered_cents;
  change_cents = v.change_cents;
  pix_charge = none;
}

-- `discount_authorized_by: totals.discountCents > 0 ? req.user?.sub : null`
abbrev authorizer : ℕ → Option ℕ → Option ℕ → Option ℕ
authorizer zero user old = none
authorizer (suc n) user old = or_old user old

-- What a settlement has agreed before it writes.
pub record Settlement : Type 0 where
  pub discount : Discount
  pub bill : Bill
  pub check : PaymentCheck

-- The discount, the bill and the payments of the order's items, in the order of the code.
unfoldable pub agree : Request → SettleOrderDto → Order → Exec State Settlement
agree req body o = do
  discount ← lift (resolve_discount (items_subtotal o.items) body)
  reads (assert_discount_permission req (items_subtotal o.items) discount.cents)
  bill ← lift (bill_for (items_subtotal o.items) discount.cents body.service_fee_bps)
  check ← lift (validate_payments_total bill.total_cents (map payment_input body.payments))
  pure (record { discount = discount; bill = bill; check = check })

-- `order.updateMany`'s data
unfoldable pub settled_order : Env → Request → Settlement → Order → Order
settled_order env req a o = record o {
  status = closed;
  version = o.version + 1;
  subtotal_cents = a.bill.subtotal_cents;
  discount_cents = a.bill.discount_cents;
  service_fee_bps = a.bill.service_fee_bps;
  discount_type = or_old a.discount.type o.discount_type;
  discount_value = or_old a.discount.value o.discount_value;
  discount_authorized_by = authorizer a.bill.discount_cents req.user o.discount_authorized_by;
  service_fee_cents = a.bill.service_fee_cents;
  total_cents = a.bill.total_cents;
  settled_at = some env.now;
  settled_by = or_old req.user o.settled_by;
  table_id = none;
}

-- `auditUser?.id`
abbrev known_user : Option ℕ → List ℕ → Option ℕ
known_user none users = none
known_user (some u) [] = none
known_user (some u) (v ∷ users) = if v == u then some u else known_user (some u) users

unfoldable pub audit_discount : Request → ℕ → Settlement → Exec State (Unit {0})
audit_discount req id a s =
    if ltb 0 a.bill.discount_cents
    then (
      ok tt,
      record s {
        audit_log =
            s.audit_log
            ++ (record {
              tenant = req.tenant;
              user = known_user req.user s.users;
              entity = id;
              discount_type = a.discount.type;
              discount_value = a.discount.value;
              amount_cents = a.bill.discount_cents;
            })
              ∷ [];
      },
    )
    else (ok tt, s)

abbrev pub add_payments : List OrderPayment → Order → Order
add_payments ps o = record o { payments = o.payments ++ ps }

-- The writes, once the amounts are agreed.
unfoldable pub write_settlement : Env → Request → ℕ → Order → Settlement → Exec State Response
write_settlement env req id o a = do
  closed_one ←
      update_order req.tenant id (λ p. is_active p.status && p.version == o.version)
        (settled_order env req a)
  raise_if (not closed_one) (conflict concurrent_update)
  extend_order id (add_payments (map payment_row a.check.payments))
  add_history id (record { from_status = some o.status; to_status = closed; changed_by = req.user })
  sell_all (find_product req.tenant) req.tenant id req.user (tally_sales o.items [])
  audit_discount req id a
  fresh_order id

unfoldable pub settle_active : Env → Request → ℕ → SettleOrderDto → Order → Exec State Response
settle_active env req id body o = do
  raise_if (not (has_version body.expected_version o.version)) (conflict version_conflict)
  blocked ← gets (has_pending_charge id)
  raise_if blocked (conflict pix_pending)
  a ← agree req body o
  write_settlement env req id o a

-- A closed order is answered as it is, if it was paid.
answer_closed : ℕ → List OrderPayment → Exec State Response
answer_closed id [] = raise (conflict historic_closed)
answer_closed id (p ∷ ps) = fresh_order id

unfoldable pub settle_by_status :
    Status → Env → Request → ℕ → SettleOrderDto → Order → Exec State Response
unfolding settle_active answer_closed
settle_by_status closed env req id body o = answer_closed id o.payments
settle_by_status canceled env req id body o = raise (bad_request order_canceled)
settle_by_status status env req id body o = settle_active env req id body o

-- The mutation of `executeIdempotent`.
unfoldable pub settle_order : Env → Request → ℕ → SettleOrderDto → Exec State Response
unfolding settle_by_status
settle_order env req id body = do
  found ← gets (find_order req.tenant id)
  o ← or_raise found (not_found order_not_found)
  settle_by_status o.status env req id body o

unfoldable pub handle_settle : Env → Request → ℕ → SettleOrderDto → Exec State Response
handle_settle env req id body = do
  result ← execute_request env req post_settle (settle id body) (settle_order env req id body)
  if result.1
      then pure result.0
      else do emit_to_tenant req.tenant order_updated result.0; pure result.0
