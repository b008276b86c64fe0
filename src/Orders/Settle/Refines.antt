-- ===== src/Orders/Settle/Refines.antt =====
-- A successful settlement is a step of an active order whose items it bills, or finds the order
-- closed and paid.
use comandas_multitenant_off.Prelude.{
  ℕ, ◌≡◌, inl, inr, refl, true, Option, some, [], map, arith, Option-cases,
}
use comandas_multitenant_off.Prelude.Dict.{get, put, get-put_self, put-put}
use comandas_multitenant_off.Http.{Result-cases, ok, ◌>>=◌}
use comandas_multitenant_off.Dto.{SettleOrderDto}
use comandas_multitenant_off.Store.{
  is_final, State, Order, Status, StatusChange, opened, sent_to_kitchen, delivered, closed,
  canceled, items_subtotal, Response,
}
use comandas_multitenant_off.Store.Queries.{find_order, find_product, update_order, fresh_order}
use comandas_multitenant_off.Financial.{Bill, validate_payments_total}
use comandas_multitenant_off.Financial.Totals.{IsBalanced, calculate_bill_totals-IsBalanced}
use comandas_multitenant_off.Financial.Payments.{validate_payments_total-IsTallied}
use comandas_multitenant_off.Orders.{Env, Request, is_active, log, add_history}
use comandas_multitenant_off.Orders.Discount.{bill_for}
use comandas_multitenant_off.Orders.Stock.{tally_sales, sell_all}
use comandas_multitenant_off.Orders.Stock.Frame.{sell_all-SameOrders}
use comandas_multitenant_off.Orders.Settle.{
  Settlement, payment_input, payment_row, agree, settled_order, add_payments, audit_discount,
  write_settlement, settle_active, settle_by_status, settle_order,
}
use comandas_multitenant_off.Orders.Lifecycle.{Evolves, Fits, same, stepped, settle}
use comandas_multitenant_off.Orders.Lifecycle.Serving.{Refines}

-- The four parts of an agreement, each a success.
pub agree-parts :
    (req : Request) (body : SettleOrderDto) (o : Order) (a : Settlement) (s s' : State)
    → agree req body o s ≡ (ok a, s')
    → (s' ≡ s)
      × (bill_for (items_subtotal o.items) a.discount.cents body.service_fee_bps ≡ ok a.bill)
      × (validate_payments_total a.bill.total_cents (map payment_input body.payments) ≡ ok a.check)
unfolding agree ◌>>=◌
agree-parts req body o a s s' e = ground arith

bill_for-subtotal :
    (subtotal discount : ℕ) (bps : Option ℕ) (b : Bill)
    → bill_for subtotal discount bps ≡ ok b
    → b.subtotal_cents ≡ subtotal
unfolding bill_for
bill_for-subtotal subtotal discount bps b e = (calculate_bill_totals-IsBalanced _ b e).1

bill_for-IsBalanced :
    (subtotal discount : ℕ) (bps : Option ℕ) (b : Bill)
    → bill_for subtotal discount bps ≡ ok b
    → IsBalanced b
unfolding bill_for
bill_for-IsBalanced subtotal discount bps b e = (calculate_bill_totals-IsBalanced _ b e).0

-- What a settlement agrees to fits the order.
pub agree-Fits :
    (req : Request) (body : SettleOrderDto) (o : Order) (a : Settlement) (s s' : State)
    → agree req body o s ≡ (ok a, s')
    → Fits a o
agree-Fits req body o a s s' e =
    let (unchanged, billed, checked) = agree-parts req body o a s s' e in
    let (paid, tallied) = validate_payments_total-IsTallied _ _ a.check checked in
    record {
      of_items = bill_for-subtotal _ _ _ a.bill billed;
      balanced = bill_for-IsBalanced _ _ _ a.bill billed;
      paid = paid;
      tallied = tallied;
    }

abbrev entry : Request → Order → StatusChange
entry req o = record { from_status = some o.status; to_status = closed; changed_by = req.user }

abbrev pub settled : Env → Request → Settlement → Order → Order
settled env req a o =
    log (entry req o) (add_payments (map payment_row a.check.payments) (settled_order env req a o))

settled_final :
    (env : Env) (req : Request) (a : Settlement) (o : Order)
    → is_final (settled env req a o).status ≡ true
unfolding settled_order
settled_final env req a o = refl

audit_discount-SameOrders :
    (req : Request) (id : ℕ) (a : Settlement) (s : State)
    → ((audit_discount req id a s).1.orders ≡ s.orders)
      × ((audit_discount req id a s).1.next_id ≡ s.next_id)
unfolding audit_discount
audit_discount-SameOrders req id a s = ground arith

find_order-get :
    (tenant id : ℕ) (s : State) (o : Order)
    → find_order tenant id s ≡ some o
    → (get id s.orders ≡ some o) × (o.tenant ≡ tenant)
unfolding find_order
find_order-get tenant id s o e = ground arith

module _ (env : Env) (req : Request) (id : ℕ) where
  pub writes :
      (s s' : State) (r : Response) (o : Order) (a : Settlement)
      → find_order req.tenant id s ≡ some o
      → write_settlement env req id o a s ≡ (ok r, s')
      → (s'.next_id ≡ s.next_id)
        × (is_active o.status ≡ true)
        × (s'.orders ≡ put id (settled env req a o) s.orders)
  unfolding write_settlement add_history update_order fresh_order ◌>>=◌
  writes s s' r o a found e =
      let one = settled_order env req a o in
      let two = add_payments (map payment_row a.check.payments) one in
      let three = settled env req a o in
      let m = put id three (put id two (put id one s.orders)) in
      let t : State = record s { orders = m } in
      let sold : State =
        (sell_all (find_product req.tenant) req.tenant id req.user (tally_sales o.items []) t).1 in
      ground (
        arith,
        get-put_self id one s.orders,
        get-put_self id two (put id one s.orders),
        get-put_self id three (put id two (put id one s.orders)),
        put-put id two one s.orders,
        put-put id three two (put id one s.orders),
        put-put id three one s.orders,
        sell_all-SameOrders (find_product req.tenant) req.tenant id req.user
            (tally_sales o.items []) t,
        audit_discount-SameOrders req id a sold,
      )

  pub active-parts :
      (body : SettleOrderDto) (s s' : State) (r : Response) (o : Order)
      → settle_active env req id body o s ≡ (ok r, s')
      → (a : Settlement) × (agree req body o s ≡ (ok a, s))
        × (write_settlement env req id o a s ≡ (ok r, s'))
  unfolding settle_active ◌>>=◌
  active-parts body s s' r o e = elim (Result-cases (agree req body o s).0) [
    | inr (x, failed) ↦ absurd (ground arith)
    | inl (a, agreed) ↦
        let whole : agree req body o s ≡ (ok a, (agree req body o s).1) =
          λ j. (agreed j, (agree req body o s).1) in
        let (unchanged, _, _) = agree-parts req body o a s _ whole in
        (a, cc, ground (arith, unchanged))
  ]

  active-Evolves :
      (body : SettleOrderDto) (s s' : State) (r : Response) (o : Order)
      → find_order req.tenant id s ≡ some o
      → settle_active env req id body o s ≡ (ok r, s')
      → Evolves req.tenant s s'
  active-Evolves body s s' r o found e =
      let (a, agreed, wrote) = active-parts body s s' r o e in
      let (next, active, written) = writes s s' r o a found wrote in
      let (here, owned) = find_order-get req.tenant id s o found in
      stepped id o (settled env req a o) here owned
        (settle env req a active (agree-Fits req body o a s s agreed))
        (inl (settled_final env req a o)) written next

  by_status-Evolves :
      (status : Status) (body : SettleOrderDto) (s s' : State) (r : Response) (o : Order)
      → find_order req.tenant id s ≡ some o
      → settle_by_status status env req id body o s ≡ (ok r, s')
      → Evolves req.tenant s s'
  unfolding settle_by_status fresh_order ◌>>=◌
  by_status-Evolves closed body s s' r o found e = same (ground arith) (ground arith)
  by_status-Evolves canceled body s s' r o found e = absurd (ground arith)
  by_status-Evolves opened body s s' r o found e = active-Evolves body s s' r o found e
  by_status-Evolves sent_to_kitchen body s s' r o found e = active-Evolves body s s' r o found e
  by_status-Evolves delivered body s s' r o found e = active-Evolves body s s' r o found e

  pub order-parts :
      (body : SettleOrderDto) (s s' : State) (r : Response)
      → settle_order env req id body s ≡ (ok r, s')
      → (o : Order) × (find_order req.tenant id s ≡ some o)
        × (settle_by_status o.status env req id body o s ≡ (ok r, s'))
  unfolding settle_order ◌>>=◌
  order-parts body s s' r e = elim (Option-cases (find_order req.tenant id s)) [
    | inl lost ↦ absurd (ground arith)
    | inr (o, found) ↦ (o, found, ground arith)
  ]

  pub settle_order-Refines :
      (body : SettleOrderDto) → Refines req.tenant (settle_order env req id body)
  settle_order-Refines body = record {
    at = λ s s' r e.
        let (o, found, e') = order-parts body s s' r e in
        by_status-Evolves o.status body s s' r o found e';
  }
