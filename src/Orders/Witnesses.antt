-- ===== src/Orders/Witnesses.antt =====
-- The theorems about the orders, at the inputs of a concrete establishment.
use comandas_multitenant_off.Prelude.{
  inl, ℕ, ◌≡◌, refl, subst, sym, String, false, none, some, [], ◌∷◌, arith,
}
use comandas_multitenant_off.Prelude.Dict.{find_row, get, put}
use comandas_multitenant_off.Prelude.Trim.{trim}
use comandas_multitenant_off.Http.{ok, ◌>>=◌}
use comandas_multitenant_off.Dto.{AddItemDto}
use comandas_multitenant_off.Store.{
  OrderType, State, Order, OrderItem, Status, opened, closed, canceled, pending, Response,
  order_response, StatusChange,
}
use comandas_multitenant_off.Store.Queries.{
  extend_order, emit_to_tenant, fresh_order, update_order, find_order, find_key, has_pending_charge,
}
use comandas_multitenant_off.Idempotency.{save_idempotency, check_idempotency, get_raw_key, Header}
use comandas_multitenant_off.Orders.{commit_update, Request}
use comandas_multitenant_off.Orders.Items.{
  trimmed, item_of, resolve_item, append_item, handle_item, push_item, bump_version,
}
use comandas_multitenant_off.Orders.Retries.{repeated_item_replays}
use comandas_multitenant_off.Orders.Lifecycle.Invariant.{IsSound, IsValid}
use comandas_multitenant_off.Orders.Lifecycle.Runs.{
  Call, handle, Run, rest, serve, Anyone, Holds, Run-IsValid, Run-Holds, Run-isolates,
}
use comandas_multitenant_off.Orders.Tests.{
  env, request, bar, at_table, two_cans, to_kitchen, bill, after_bill,
}

-- One order, in a given status.
abbrev pub order_in : Status → Order
order_in st = record {
  tenant = 1;
  table_id = none;
  table_label = "Mesa 3";
  order_type = OrderType.table;
  status = st;
  version = 1;
  subtotal_cents = 0;
  discount_cents = 0;
  discount_type = none;
  discount_value = none;
  discount_authorized_by = none;
  service_fee_bps = 1000;
  service_fee_cents = 0;
  total_cents = 0;
  settled_at = none;
  settled_by = none;
  items = [];
  payments = [];
  history = record { from_status = none; to_status = st; changed_by = none } ∷ [];
}

abbrev with_order : Status → State
with_order st = record bar { orders = (9, order_in st) ∷ [] }

only_row :
    (st : Status) (k : ℕ) (p : Order)
    → get k (with_order st).orders ≡ some p
    → (k ≡ 9) × (p ≡ order_in st)
unfolding get
only_row st k p e = ground arith

order_in-IsSound : (st : Status) → IsSound (order_in st)
order_in-IsSound st = record {
  versioned = omega arith;
  logged = refl;
  freed = λ e. refl;
  paid = inl refl;
  settled = inl refl;
}

with_order-IsValid : (st : Status) → IsValid (with_order st)
with_order-IsValid st = record {
  fresh = λ k p e. omega (arith, (only_row st k p e).0);
  sound = λ k p e. subst IsSound (sym (only_row st k p e).1) (order_in-IsSound st);
  exclusive = record {
    at = λ i j t o p e f s u v. omega (arith, (only_row st i o e).0, (only_row st j p f).0);
  };
}

bar-IsValid : IsValid bar
unfolding get
bar-IsValid = record {
  fresh = λ k p e. cc;
  sound = λ k p e. absurd cc;
  exclusive = record { at = λ i j t o p e f s u v. cc };
}

once : {s : State} (c : Call) (key : String) → Run Anyone s (handle c env (request key) s).1
once c key = serve c env (request key) rest tt (λ u. rest)

evening-Run : Run Anyone bar after_bill
evening-Run =
    serve (Call.settlement 10 bill) env (request "d")
      (serve (Call.status 10 to_kitchen) env (request "c")
        (serve (Call.item 10 two_cans) env (request "b") (once (Call.create at_table) "a") tt
          (λ u. rest))
        tt (λ u. rest))
      tt (λ u. rest)

Run-IsValid_example : IsValid after_bill
Run-IsValid_example = Run-IsValid evening-Run bar-IsValid

here : (st : Status) → get 9 (with_order st).orders ≡ some (order_in st)
unfolding get
here st = refl

Run-Holds_example :
    Holds 9
      (order_in closed)
      (handle (Call.item 9 two_cans) env (request "b") (with_order closed)).1
Run-Holds_example =
    Run-Holds 9 (order_in closed) (once (Call.item 9 two_cans) "b") (with_order-IsValid closed)
      (here closed)

-- A request of another tenant for the order of this one.
abbrev stranger : Request
stranger = record { tenant = 2; user = some 6; role = none; key = Header.one "x" }

Run-isolates_example :
    get 9 (handle (Call.transfer 9 (some 3)) env stranger (with_order opened)).1.orders
    ≡ some (order_in opened)
Run-isolates_example =
    Run-isolates 9 (order_in opened)
      (serve (Call.transfer 9 (some 3)) env stranger rest (omega arith) (λ u. rest))
      (with_order-IsValid opened) (here opened)

abbrev charged : State
charged = record (with_order opened) {
  charges =
      (
        8,
        record {
          tenant = 1;
          order = 9;
          provider = "psp";
          txid = "t1";
          amount_cents = 100;
          discount_type = none;
          discount_value = none;
          discount_cents = 0;
          service_fee_bps = 0;
          status = pending;
          paid_at = none;
        },
      )
      ∷ [];
}

abbrev water : OrderItem
water = record {
  product = none;
  product_name = "Água mineral";
  quantity = 1;
  unit_price_cents = 500;
  unit_cost_cents = 0;
  selected_options = none;
  notes = none;
}

abbrev keyless : Request
keyless = record { tenant = 1; user = some 5; role = none; key = Header.absent }

no_key : get_raw_key keyless.key ≡ none
unfolding get_raw_key
no_key = refl

abbrev closing_note : StatusChange
closing_note = record { from_status = none; to_status = closed; changed_by = some 5 }

nothing_waits : has_pending_charge 9 (with_order canceled) ≡ false
unfolding has_pending_charge find_row
nothing_waits = refl

abbrev one_water : AddItemDto
one_water = record {
  product_id = none;
  product_name = some "Água mineral";
  quantity = 1;
  unit_price_cents = some 500;
  notes = none;
  selected_options = none;
  expected_version = none;
}

abbrev watered : Response
watered = order_response 9 (push_item water (bump_version (order_in opened)))

key_b : get_raw_key (request "b").key ≡ some "b"
unfolding get_raw_key
key_b = refl

unused_b : find_key 1 "b" (with_order opened).keys ≡ none
unfolding find_key
unused_b = refl

first_water :
    handle_item env (request "b") 9 one_water (with_order opened)
    ≡ (ok watered, (handle_item env (request "b") 9 one_water (with_order opened)).1)
unfolding handle_item get_raw_key check_idempotency find_key resolve_item trim item_of trimmed
    commit_update append_item has_pending_charge find_row update_order find_order get put
    extend_order fresh_order save_idempotency emit_to_tenant ◌>>=◌
first_water = refl

-- The second request is for order 12, which does not exist.
repeated_item_replays_example :
    handle_item env
      (request "b")
      12
      one_water
      (handle_item env (request "b") 9 one_water (with_order opened)).1
    ≡ (ok watered, (handle_item env (request "b") 9 one_water (with_order opened)).1)
repeated_item_replays_example =
    repeated_item_replays env (request "b") one_water "b" key_b 9 12 (with_order opened) _ watered
      unused_b first_water
