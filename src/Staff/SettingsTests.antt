-- ===== src/Staff/SettingsTests.antt =====
-- The discount policy of a small establishment, and the theorem about it at a settlement.
use comandas_multitenant_off.Orders.Stock.{sell_all, tally_sales}
use comandas_multitenant_off.Orders.{add_history}
use comandas_multitenant_off.Financial.{
  check_payment, validate_payments_total, calculate_bill_totals,
}
use comandas_multitenant_off.Orders.Settle.Limit.{IsWithinLimit}
use comandas_multitenant_off.Dto.{SettleOrderDto}
use comandas_multitenant_off.Orders.Settle.{
  audit_discount, settled_order, write_settlement, agree, settle_order,
}
use comandas_multitenant_off.Store.Queries.{
  has_pending_charge, fresh_order, extend_order, update_order, find_order,
}
use comandas_multitenant_off.Prelude.{◌≡◌, ◌==◌, refl, none, some, [], ◌∷◌, if◌then◌else◌}
use comandas_multitenant_off.Prelude.Dict.{find_row, get, put}
use comandas_multitenant_off.Http.{ok, ◌>>=◌}
use comandas_multitenant_off.Store.{State, opened, cash, Response, Order}
use comandas_multitenant_off.Orders.Discount.{
  bill_for, resolve_discount, discount_limit, assert_discount_permission,
}
use comandas_multitenant_off.Orders.Tests.{bar, env, request}
use comandas_multitenant_off.Orders.Witnesses.{order_in}
use comandas_multitenant_off.Staff.Settings.{
  UpdateDiscountPolicyDto, update_discount_policy, update_discount_policy_binds,
}

abbrev policy : UpdateDiscountPolicyDto
policy = record { cashier_discount_limit_bps = 1500 }

-- An order of 20000 cents, and its settlement by a cashier with 3000 off.
abbrev feast : Order
feast = record (order_in opened) {
  items =
      (record {
        product = none;
        product_name = "Rodízio";
        quantity = 2;
        unit_price_cents = 10000;
        unit_cost_cents = 0;
        selected_options = none;
        notes = none;
      })
      ∷ [];
}

abbrev dining : State
dining = record bar { orders = (9, feast) ∷ [] }

abbrev limited : State
limited = (update_discount_policy 1 policy dining).1

abbrev reduced : SettleOrderDto
reduced = record {
  discount_cents = some 3000;
  discount_type = none;
  discount_value = none;
  service_fee_bps = some 0;
  payments = record { method = cash; amount_cents = 17000; tendered_cents = none } ∷ [];
  expected_version = none;
}

abbrev left_with : State
left_with = (settle_order env (request "a") 9 reduced limited).1

abbrev answer : Response
answer = elim (get 9 left_with.orders) [
  | none ↦ Response.order_response 0 feast
  | some o ↦ Response.order_response 9 o
]

settled_feast : settle_order env (request "a") 9 reduced limited ≡ (ok answer, left_with)
unfolding settle_order update_discount_policy find_order get put agree resolve_discount
    assert_discount_permission bill_for calculate_bill_totals validate_payments_total check_payment
    write_settlement settled_order add_history update_order extend_order fresh_order tally_sales
    sell_all audit_discount has_pending_charge find_row ◌>>=◌
settled_feast = refl

update_discount_policy_binds_example :
    ((new : Order) × (get 9 left_with.orders ≡ some new) × IsWithinLimit 1500 20000 new)
    × (discount_limit 2 limited ≡ (if 1 == 2 then 1500 else discount_limit 2 dining))
unfolding update_discount_policy find_order get put
update_discount_policy_binds_example =
    update_discount_policy_binds env (request "a") 9 2 policy reduced dining limited limited
      left_with 1500 answer feast refl refl refl refl refl settled_feast
