-- ===== src/Pix.antt =====
-- backend/src/pix.controller.ts, `PixWebhookController.receive`: the provider's notice that a
-- charge was paid, or what else became of it. The payment closes the order in one transaction.
-- `between` is what other requests commit between the first look at the charge and the writes. The
-- order of a charge is read from its row in the transaction, since nothing changes it.
pub mod Signature
pub mod Charge
pub mod Refines
pub mod Receipts
mod Tests
use text.Mathlib.Text.{◌==◌ as str_eq}
use comandas_multitenant_off.Prelude.{
  ℕ, zero, suc, ◌+◌, ◌-◌, ◌*◌, ◌/◌, ◌≤◌, ◌≡◌, ◌⊎◌, inl, inr, refl, sym, ap, ◌∙◌, String, Bool, true,
  false, Option, none, some, List, [], ◌∷◌, ◌++◌, map, arith, ◌==◌, ◌&&◌, ◌||◌, not, ltb, leb,
  is_some, or_else, if◌then◌else◌, Bool-cases, Option-cases, ==_refl, eq_of_==,
}
use comandas_multitenant_off.Prelude.Dict.{
  Dict, get, put, find_row, map_rows, get-put, put-put, get-put_self, get-map_rows,
  find_row-map_rows, find_row-none, find_row-some, dict_laws,
}
use comandas_multitenant_off.Prelude.Lists.{length, sum_by}
use comandas_multitenant_off.Prelude.Int.{pos}
use comandas_multitenant_off.Http.{
  Result, ok, err, bad_request, conflict, not_found, record_missing, charge_not_found,
  amount_mismatch, order_changed, order_finished, order_not_found, Exec, pure, raise, raise_if,
  gets, lift, or_raise, transaction, modify, ◌>>=◌, ◌>>◌,
}
use comandas_multitenant_off.Store.{
  State, Order, OrderPayment, StatusChange, PixCharge, ChargeStatus, pending, paid, expired,
  canceled, failed, closed, pix, order_updated, Response, Product, is_final, items_subtotal,
}
use comandas_multitenant_off.Store.Queries.{extend_order, fresh_order, emit_to_tenant}
use comandas_multitenant_off.Financial.{Bill, calculate_bill_totals}
use comandas_multitenant_off.Orders.{log, add_history}
use comandas_multitenant_off.Orders.Settle.{add_payments}
use comandas_multitenant_off.Orders.Stock.{tally_sales, sell_all}

-- `PixWebhookDto`, with the values that its decorators allow
pub data Notice : Type 0 where
  is_paid is_expired is_canceled is_failed : Notice

pub record PixWebhookDto : Type 0 where
  pub txid : String
  pub status : Notice
  pub amount_cents : Option ℕ

-- What the webhook answers with: `{ ok, replayed }` or `{ ok, status }`.
pub data Receipt : Type 0 where
  replayed : Bool → Receipt
  marked : ChargeStatus → Receipt

abbrev pub is_paid_charge : ChargeStatus → Bool
is_paid_charge paid = true
is_paid_charge s = false

-- `pixCharge.findFirst({ where: { provider, txid } })`
unfoldable pub find_charge : String → String → State → Option (ℕ × PixCharge)
find_charge provider txid s =
    find_row (λ k c. str_eq c.provider provider && str_eq c.txid txid) s.charges

-- `pixCharge.update({ where: { id }, data })`
unfoldable pub update_charge : ℕ → (PixCharge → PixCharge) → Exec State (Unit {0})
update_charge id f s = elim (get id s.charges) [
  | none ↦ (err record_missing, s)
  | some c ↦ (ok tt, record s { charges = put id (f c) s.charges })
]

-- `product.findUnique({ where: { id } })`, of whatever tenant
unfoldable pub any_product : ℕ → State → Option Product
any_product id s = get id s.products

-- `calculateBillTotals({ subtotalCents, discountCents, serviceFeeBps })` of the charge's terms
unfoldable pub bill_of_charge : PixCharge → Order → Result Bill
bill_of_charge c o = calculate_bill_totals (record {
  subtotal_cents = pos (items_subtotal o.items);
  discount_cents = some (pos c.discount_cents);
  service_fee_bps = some (pos c.service_fee_bps);
})

-- `order.update`'s data
unfoldable pub paid_order : ℕ → PixCharge → Bill → Order → Order
paid_order now c b o = record o {
  status = closed;
  version = o.version + 1;
  subtotal_cents = b.subtotal_cents;
  discount_type = c.discount_type;
  discount_value = c.discount_value;
  discount_cents = b.discount_cents;
  service_fee_bps = b.service_fee_bps;
  service_fee_cents = b.service_fee_cents;
  total_cents = b.total_cents;
  settled_at = some now;
  table_id = none;
}

abbrev pub pix_payment : ℕ → Bill → OrderPayment
pix_payment charge b = record {
  method = pix;
  amount_cents = b.total_cents;
  tendered_cents = none;
  change_cents = 0;
  pix_charge = some charge;
}

abbrev pub closing_entry : Order → StatusChange
closing_entry o = record { from_status = some o.status; to_status = closed; changed_by = none }

abbrev pay_charge : ℕ → PixCharge → PixCharge
pay_charge now c = record c { status = paid; paid_at = some now }

-- The writes of the transaction, with the charge and the order that it read. `tenant` is that of
-- the charge.
unfoldable pub write_payment : ℕ → ℕ → ℕ → PixCharge → Order → Bill → Exec State Response
write_payment now tenant id c o b = do
  extend_order c.order (paid_order now c b)
  extend_order c.order (add_payments (pix_payment id b ∷ []))
  update_charge id (pay_charge now)
  add_history c.order (closing_entry o)
  sell_all any_product tenant c.order none (tally_sales o.items [])
  fresh_order c.order

-- The checks on the order, in the order of the code.
unfoldable pub pay_order : ℕ → ℕ → ℕ → PixCharge → Order → Exec State (Option Response)
pay_order now tenant id c o = do
  raise_if (is_final o.status) (conflict order_finished)
  b ← lift (bill_of_charge c o)
  raise_if (not (b.total_cents == c.amount_cents)) (conflict order_changed)
  r ← write_payment now tenant id c o b
  pure (some r)

settle_unpaid : ℕ → ℕ → ℕ → PixCharge → Exec State (Option Response)
settle_unpaid now tenant id c = do
  found ← gets (λ s. get c.order s.orders)
  o ← or_raise found (not_found order_not_found)
  pay_order now tenant id c o

-- The body of the transaction: nothing to do where the charge was paid meanwhile.
unfoldable pub settle_charge : ℕ → ℕ → ℕ → Exec State (Option Response)
unfolding settle_unpaid
settle_charge now tenant id = do
  found ← gets (λ s. get id s.charges)
  c ← or_raise found record_missing
  if is_paid_charge c.status then pure none else settle_unpaid now tenant id c

-- `if (closedOrder) emitToTenant(...)`, and the answer
unfoldable pub announce_payment : ℕ → Option Response → Exec State Receipt
announce_payment tenant none = pure (replayed true)
announce_payment tenant (some r) = do emit_to_tenant tenant order_updated r; pure (replayed false)

mark_charge : ℕ → ChargeStatus → Exec State Receipt
mark_charge id status = do
  update_charge id (λ c. record c { status = status })
  pure (marked status)

receive_payment : ℕ → ℕ → ℕ → Exec State Receipt
receive_payment now tenant id = do
  r ← transaction (settle_charge now tenant id)
  announce_payment tenant r

unfoldable pub by_notice : Notice → ℕ → ℕ → ℕ → Exec State Receipt
unfolding mark_charge receive_payment
by_notice is_paid now tenant id = receive_payment now tenant id
by_notice is_expired now tenant id = mark_charge id expired
by_notice is_canceled now tenant id = mark_charge id canceled
by_notice is_failed now tenant id = mark_charge id failed

-- `body.amount_cents !== undefined && body.amount_cents !== charge.amount_cents`
abbrev pub differs_amount : Option ℕ → ℕ → Bool
differs_amount none a = false
differs_amount (some b) a = not (b == a)

after_lookup : (State → State) → ℕ → PixWebhookDto → ℕ → PixCharge → Exec State Receipt
after_lookup between now body id c =
    if is_paid_charge c.status
    then pure (replayed true)
    else do modify between; by_notice body.status now c.tenant id

-- `receive`, once the signature is accepted
unfoldable pub receive : (State → State) → ℕ → String → PixWebhookDto → Exec State Receipt
unfolding after_lookup
receive between now provider body = do
  found ← gets (find_charge provider body.txid)
  row ← or_raise found (not_found charge_not_found)
  raise_if (differs_amount body.amount_cents row.1.amount_cents) (bad_request amount_mismatch)
  after_lookup between now body row.0 row.1
