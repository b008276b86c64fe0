-- ===== src/Orders/Discount.antt =====
-- `resolveDiscount`, `assertDiscountPermission` and `settlementPreview`.
use comandas_multitenant_off.Prelude.{
  ℕ, ◌*◌, ◌==◌, Bool, true, false, Option, none, some, ◌&&◌, not, ltb, or_else, if◌then◌else◌,
}
use comandas_multitenant_off.Prelude.Int.{pos}
use comandas_multitenant_off.Prelude.Dict.{get}
use comandas_multitenant_off.Http.{
  Result, ok, err, bad_request, not_found, bad_percent, percent_mismatch, fixed_mismatch,
  discount_over_limit, order_not_found, Exec, pure, gets, lift, reads, or_raise, ◌>>=◌, ◌>>◌,
}
use comandas_multitenant_off.Dto.{SettleOrderDto}
use comandas_multitenant_off.Store.{
  State, DiscountType, fixed, percent, Role, cashier, items_subtotal,
}
use comandas_multitenant_off.Store.Queries.{find_order}
use comandas_multitenant_off.Financial.{Bill, round_bps, calculate_bill_totals}
use comandas_multitenant_off.Orders.{Request}

pub record Discount : Type 0 where
  pub type : Option DiscountType
  pub value : Option ℕ
  pub cents : ℕ

-- `a !== undefined && a !== b`
abbrev differs : Option ℕ → ℕ → Bool
differs none b = false
differs (some a) b = not (a == b)

percent_discount : ℕ → Option ℕ → Option ℕ → Result Discount
percent_discount subtotal none cents = err (bad_request bad_percent)
percent_discount subtotal (some v) cents =
    if ltb 10000 v
    then err (bad_request bad_percent)
    else if differs cents (round_bps (subtotal * v))
    then err (bad_request percent_mismatch)
    else ok (record { type = some percent; value = some v; cents = round_bps (subtotal * v) })

fixed_discount : Option ℕ → Option ℕ → Result Discount
fixed_discount none cents =
    ok (record { type = some fixed; value = some (or_else cents 0); cents = or_else cents 0 })
fixed_discount (some v) cents =
    if differs cents v
    then err (bad_request fixed_mismatch)
    else ok (record { type = some fixed; value = some v; cents = v })

typed_discount : ℕ → Option DiscountType → Option ℕ → Option ℕ → Result Discount
unfolding percent_discount fixed_discount
typed_discount subtotal (some percent) value cents = percent_discount subtotal value cents
typed_discount subtotal (some fixed) value cents = fixed_discount value cents
typed_discount subtotal none value none = ok (record { type = none; value = value; cents = 0 })
typed_discount subtotal none value (some c) = fixed_discount value (some c)

unfoldable pub resolve_discount : ℕ → SettleOrderDto → Result Discount
unfolding typed_discount
resolve_discount subtotal body =
    typed_discount subtotal body.discount_type body.discount_value body.discount_cents

-- `role === 'cashier'`; owner and admin stand for manager.
abbrev is_cashier : Option Role → Bool
is_cashier (some cashier) = true
is_cashier role = false

-- The cashier's limit in basis points, 10000 where the tenant has no row.
abbrev pub discount_limit : ℕ → State → ℕ
discount_limit tenant s = or_else (get tenant s.discount_limits) 10000

unfoldable pub assert_discount_permission : Request → ℕ → ℕ → State → Result (Unit {0})
assert_discount_permission req subtotal discount s =
    if is_cashier req.role
      && ltb 0 subtotal
      && ltb (subtotal * discount_limit req.tenant s) (discount * 10000)
    then err (bad_request discount_over_limit)
    else ok tt

-- `calculateBillTotals({ subtotalCents, discountCents, serviceFeeBps: body.service_fee_bps ?? 1000 })`
unfoldable pub bill_for : ℕ → ℕ → Option ℕ → Result Bill
bill_for subtotal discount bps = calculate_bill_totals (record {
  subtotal_cents = pos subtotal;
  discount_cents = some (pos discount);
  service_fee_bps = some (pos (or_else bps 1000));
})

-- `previewSettlement` with `settlementPreview`, which it calls; it writes nothing.
unfoldable pub preview_settlement : Request → ℕ → SettleOrderDto → Exec State (Bill × Discount)
preview_settlement req id body = do
  found ← gets (find_order req.tenant id)
  o ← or_raise found (not_found order_not_found)
  discount ← lift (resolve_discount (items_subtotal o.items) body)
  bill ← lift (bill_for (items_subtotal o.items) discount.cents body.service_fee_bps)
  reads (assert_discount_permission req bill.subtotal_cents bill.discount_cents)
  pure (bill, discount)
