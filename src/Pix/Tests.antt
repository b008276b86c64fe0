-- ===== src/Pix/Tests.antt =====
-- Charges and notices on a concrete order.
use comandas_multitenant_off.Prelude.{
  ℕ, ◌+◌, ◌≤◌, ◌≡◌, ◌⊎◌, refl, String, true, false, none, some, [], ◌∷◌,
}
use comandas_multitenant_off.Prelude.Dict.{get, put, find_row}
use comandas_multitenant_off.Prelude.Trim.{trim}
use comandas_multitenant_off.Http.{ok, ◌>>=◌}
use comandas_multitenant_off.Store.{State, Order, PixCharge, opened, OrderType, pending}
use comandas_multitenant_off.Store.Queries.{find_order, extend_order, fresh_order, emit_to_tenant}
use comandas_multitenant_off.Financial.{calculate_bill_totals}
use comandas_multitenant_off.Orders.{add_history}
use comandas_multitenant_off.Orders.Stock.{tally_sales, sell_all}
use comandas_multitenant_off.Pix.{
  PixWebhookDto, is_expired, replayed, receive, find_charge, update_charge, by_notice,
  settle_charge, pay_order, write_payment, bill_of_charge, announce_payment,
}
use comandas_multitenant_off.Pix.Receipts.{paid_notice, Settled, payment_settles}
use comandas_multitenant_off.Pix.Charge.{
  Adapter, replied, CreatePixChargeDto, pending_charge, open_charge, find_txid, charge_terms,
  charge_bill, request_charge, insert_charge,
}
use comandas_multitenant_off.Pix.Charge.Payable.{open_charge-IsPayable, IsPayable, IsKnown}
use comandas_multitenant_off.Pix.Signature.{
  Keys, Timestamp, verify_pix_webhook_signature, get_pix_webhook_secret, is_provider_name,
  same_bytes, accepted_is_signed,
}

abbrev lunch : Order
lunch = record {
  tenant = 1;
  table_id = none;
  table_label = "Balcão";
  order_type = OrderType.quick_sale;
  status = opened;
  version = 2;
  subtotal_cents = 0;
  discount_cents = 0;
  discount_type = none;
  discount_value = none;
  discount_authorized_by = none;
  service_fee_bps = 0;
  service_fee_cents = 0;
  total_cents = 0;
  settled_at = none;
  settled_by = none;
  items =
      (record {
        product = none;
        product_name = "Prato do dia";
        quantity = 2;
        unit_price_cents = 2500;
        unit_cost_cents = 0;
        selected_options = none;
        notes = none;
      })
      ∷ [];
  payments = [];
  history = [];
}

abbrev charge : PixCharge
charge = record {
  tenant = 1;
  order = 7;
  provider = "acme";
  txid = "t1";
  amount_cents = 5000;
  discount_type = none;
  discount_value = none;
  discount_cents = 0;
  service_fee_bps = 0;
  status = pending;
  paid_at = none;
}

abbrev counter : Order → PixCharge → State
counter o c = record {
  next_id = 10;
  users = [];
  discount_limits = [];
  tables = [];
  products = [];
  orders = (7, o) ∷ [];
  charges = (8, c) ∷ [];
  movements = [];
  audit_log = [];
  categories = [];
  suppliers = [];
  expense_categories = [];
  expenses = [];
  templates = [];
  purchases = [];
  keys = [];
  events = [];
}

abbrev waiting : State
waiting = counter lunch charge

abbrev quiet : State → State
quiet s = s

abbrev after_payment : State
after_payment = (receive quiet 60 "acme" (paid_notice "t1" (some 5000)) waiting).1

charge_found : find_charge "acme" "t1" waiting ≡ some (8, charge)
unfolding find_charge find_row
charge_found = refl

notice_settles :
    receive quiet 60 "acme" (paid_notice "t1" (some 5000)) waiting
    ≡ (ok (replayed false), after_payment)
unfolding receive find_charge find_row by_notice settle_charge pay_order bill_of_charge
    calculate_bill_totals write_payment extend_order add_history update_charge sell_all tally_sales
    fresh_order announce_payment emit_to_tenant get put ◌>>=◌
notice_settles = refl

payment_settles_example : (d : PixCharge) × Settled 60 8 d (quiet waiting) after_payment
payment_settles_example =
    payment_settles quiet 60 8 "acme" "t1" (some 5000) charge waiting after_payment charge_found
      notice_settles

abbrev expiry : PixWebhookDto
expiry = record { txid = "t1"; status = is_expired; amount_cents = none }

abbrev adapter : Adapter
adapter = record {
  base_url = some "https://pix";
  token = some "k";
  provider = some "acme";
  fetch = λ amount reference. replied "t2" "000201";
}

abbrev asked : CreatePixChargeDto
asked = record {
  order_id = 7;
  discount_type = none;
  discount_value = none;
  discount_cents = none;
  service_fee_bps = none;
  expected_version = none;
}

order_found : find_order 1 7 waiting ≡ some lunch
unfolding find_order get
order_found = refl

charge_pending : pending_charge 7 waiting ≡ some (8, charge)
unfolding pending_charge find_row
charge_pending = refl

abbrev second_charge : PixCharge
second_charge = record charge { txid = "t2" }

abbrev after_charge : State
after_charge = (open_charge adapter quiet 1 asked lunch waiting).1

charge_opens :
    open_charge adapter quiet 1 asked lunch waiting ≡ (ok (10, second_charge), after_charge)
unfolding open_charge charge_terms charge_bill calculate_bill_totals request_charge insert_charge
    find_txid find_row trim ◌>>=◌
charge_opens = refl

open_charge-IsPayable_example :
    IsPayable second_charge lunch
    ⊎ IsKnown adapter 1 asked lunch (quiet waiting) (10, second_charge)
open_charge-IsPayable_example =
    open_charge-IsPayable adapter quiet 1 asked lunch waiting after_charge 10 second_charge
      charge_opens

abbrev provider_keys : Keys
provider_keys = record { secret_of = λ p. some "s"; hmac = λ secret stamp body. 1 ∷ 2 ∷ [] }

abbrev stamp : Timestamp
stamp = record { text = "1000"; seconds = some 1000 }

accepted :
    verify_pix_webhook_signature provider_keys 1200 "acme-br" "{}" (some (1 ∷ 2 ∷ [])) (some stamp)
    ≡ ok tt
unfolding verify_pix_webhook_signature get_pix_webhook_secret is_provider_name same_bytes
accepted = refl

accepted_is_signed_example :
    (secret : String) × (t : Timestamp) × (n : ℕ) × (get_pix_webhook_secret provider_keys "acme-br"
      ≡ some secret)
    × (some stamp ≡ some t)
    × (t.seconds ≡ some n)
    × (1200 ≤ n + 300)
    × (n ≤ 1200 + 300)
    × (some (1 ∷ 2 ∷ []) ≡ some (provider_keys.hmac secret t.text "{}"))
accepted_is_signed_example =
    accepted_is_signed provider_keys 1200 "acme-br" "{}" (some (1 ∷ 2 ∷ [])) (some stamp) accepted

names :
    (is_provider_name "acme-br" ≡ true)
    × (is_provider_name "acme-" ≡ false)
    × (is_provider_name "Acme" ≡ false)
    × (is_provider_name "" ≡ false)
unfolding is_provider_name
names = (refl, refl, refl, refl)
