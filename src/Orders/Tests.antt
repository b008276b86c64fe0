-- ===== src/Orders/Tests.antt =====
-- The order endpoints on a concrete establishment, and the theorems about them at these inputs.
use comandas_multitenant_off.Orders.Stock.{has_sale, sell_all, tally_sales}
use comandas_multitenant_off.Financial.{
  check_payment, validate_payments_total, calculate_bill_totals,
}
use comandas_multitenant_off.Orders.Discount.{
  bill_for, assert_discount_permission, resolve_discount,
}
use comandas_multitenant_off.Orders.Settle.{
  audit_discount, settled_order, write_settlement, agree, settle_order, handle_settle,
}
use comandas_multitenant_off.Orders.Advance.{advance_status, find_transition, handle_status}
use comandas_multitenant_off.Orders.Items.{append_item, trimmed, item_of, resolve_item, handle_item}
use comandas_multitenant_off.Prelude.Trim.{trim}
use comandas_multitenant_off.Prelude.Lists.{length}
use comandas_multitenant_off.Orders.Create.{new_order, open_order, place, handle_create}
use comandas_multitenant_off.Prelude.{ℕ, ◌≡◌, refl, String, true, Option, none, some, [], ◌∷◌}
use comandas_multitenant_off.Prelude.Int.{◌-ℤ◌, ℤ, pos}
use comandas_multitenant_off.Prelude.Dict.{find_row, get, put}
use comandas_multitenant_off.Http.{◌>>=◌}
use comandas_multitenant_off.Dto.{
  CreateOrderDto, AddItemDto, UpdateOrderStatusDto, SettleOrderDto, HashInput,
}
use comandas_multitenant_off.Store.{Shape, occupies, State, cash, cashier}
use comandas_multitenant_off.Store.Queries.{
  emit_to_tenant, extend_order, fresh_order, update_order, find_product, insert_order, is_occupied,
  find_table, find_key, find_order, has_pending_charge,
}
use comandas_multitenant_off.Idempotency.{
  save_idempotency, get_raw_key, check_idempotency, write_response, complete, claim, claim_and_run,
  run_claimed, run_keyed, get_order_key, Header,
}
use comandas_multitenant_off.Orders.{add_history, commit_update, execute_request, Env, Request}
use comandas_multitenant_off.Orders.Lifecycle.Runs.{Call, handle}

abbrev pub one_hash : HashInput → ℕ
one_hash x = 7

abbrev pub env : Env
env = record { hash = one_hash; now = 1000; between = λ s. s }

abbrev pub request : String → Request
request key = record { tenant = 1; user = some 5; role = some cashier; key = Header.one key }

abbrev pub bar : State
bar = record {
  next_id = 10;
  users = 5 ∷ [];
  discount_limits = (1, 2000) ∷ [];
  tables =
      (
        3,
        record {
          tenant = 1;
          label = "Mesa 3";
          capacity = 4;
          position_x = 0;
          position_y = 0;
          width = 120;
          height = 120;
          shape = Shape.square;
          active = true;
        },
      )
      ∷ [];
  products =
      (
        4,
        record {
          tenant = 1;
          category = none;
          name = "Refrigerante lata";
          sku = none;
          unit = "unit";
          minimum_stock = pos 0;
          sort_order = pos 0;
          price_cents = 800;
          cost_cents = 300;
          stock_controlled = true;
          stock_quantity = pos 24000;
          active = true;
          available = true;
        },
      )
      ∷ [];
  orders = [];
  charges = [];
  movements = [];
  audit_log = [];
  categories = [];
  suppliers = [];
  expense_categories = [];
  expenses = [];
  templates = [];
  purchases = [];
  keys = [];
  events = [];
}

abbrev pub at_table : CreateOrderDto
at_table = record { table_label = none; order_type = none; table_id = some 3 }

abbrev pub two_cans : AddItemDto
two_cans = record {
  product_id = some 4;
  product_name = none;
  quantity = 2;
  unit_price_cents = some 1;
  notes = some "  sem gelo ";
  selected_options = none;
  expected_version = none;
}

abbrev pub to_kitchen : UpdateOrderStatusDto
to_kitchen = record { status = "sentToKitchen"; expected_version = some 2 }

abbrev pub bill : SettleOrderDto
bill = record {
  discount_cents = none;
  discount_type = none;
  discount_value = none;
  service_fee_bps = none;
  payments = record { method = cash; amount_cents = 1760; tendered_cents = some 2000 } ∷ [];
  expected_version = none;
}

stock_of : State → Option ℤ
stock_of s = elim (get 4 s.products) [ none ↦ none | some p ↦ some p.stock_quantity ]

summary : State → Option (ℕ × ℕ × Option ℕ × ℕ)
summary s = elim (get 10 s.orders) [
  | none ↦ none
  | some o ↦ some (o.total_cents, o.version, o.table_id, length o.history)
]

abbrev pub after_create : State
after_create = (handle (Call.create at_table) env (request "a") bar).1

abbrev pub after_item : State
after_item = (handle (Call.item 10 two_cans) env (request "b") after_create).1

abbrev pub after_status : State
after_status = (handle (Call.status 10 to_kitchen) env (request "c") after_item).1

abbrev pub after_bill : State
after_bill = (handle (Call.settlement 10 bill) env (request "d") after_status).1

-- The evening's order is paid, its table free, its stock sold and its three changes logged.
evening : (stock_of after_bill ≡ some (pos 22000)) × (summary after_bill ≡ some (1760, 4, none, 3))
unfolding stock_of summary handle handle_create place trim execute_request get_order_key run_keyed
    run_claimed claim_and_run claim complete find_key find_table open_order is_occupied insert_order
    occupies find_row get put emit_to_tenant new_order write_response handle_item check_idempotency
    get_raw_key resolve_item find_product item_of trimmed commit_update append_item
    has_pending_charge update_order find_order extend_order fresh_order save_idempotency
    handle_status find_transition advance_status add_history handle_settle settle_order agree
    resolve_discount assert_discount_permission bill_for calculate_bill_totals
    validate_payments_total check_payment write_settlement settled_order tally_sales sell_all
    audit_discount ◌>>=◌ ◌-ℤ◌ has_sale
evening = (refl, refl)
