-- ===== src/Orders/Settle/Limit.antt =====
-- The discount limit of cashiers at a settlement: backend/src/orders.controller.ts, `settleOrder`.
use comandas_multitenant_off.Prelude.{
  ℕ, ◌*◌, ◌≤◌, ◌≡◌, true, Option, some, subst, sym, ap, ◌∙◌, refl, arith,
}
use comandas_multitenant_off.Prelude.Dict.{get, get-put_self}
use comandas_multitenant_off.Http.{ok, ◌>>=◌}
use comandas_multitenant_off.Dto.{SettleOrderDto}
use comandas_multitenant_off.Store.{
  State, Order, Response, Status, opened, sent_to_kitchen, delivered, closed, canceled, cashier,
  items_subtotal,
}
use comandas_multitenant_off.Store.Queries.{find_order}
use comandas_multitenant_off.Financial.{Bill, calculate_bill_totals}
use comandas_multitenant_off.Orders.{Env, Request, is_active}
use comandas_multitenant_off.Orders.Discount.{bill_for, discount_limit, assert_discount_permission}
use comandas_multitenant_off.Orders.Settle.{
  Settlement, agree, settle_active, settle_by_status, settle_order, settled_order,
}
use comandas_multitenant_off.Orders.Settle.Refines.{
  agree-parts, active-parts, order-parts, writes, settled,
}

bill_for-discount :
    (subtotal discount : ℕ) (bps : Option ℕ) (b : Bill)
    → bill_for subtotal discount bps ≡ ok b
    → (b.discount_cents ≡ discount) × (discount ≤ subtotal)
unfolding bill_for calculate_bill_totals
bill_for-discount subtotal discount bps b e = ground arith

agree-permits :
    (req : Request) (body : SettleOrderDto) (o : Order) (a : Settlement) (s s' : State)
    → agree req body o s ≡ (ok a, s')
    → assert_discount_permission req (items_subtotal o.items) a.discount.cents s ≡ ok tt
unfolding agree ◌>>=◌
agree-permits req body o a s s' e = ground arith

permitted :
    (req : Request) (subtotal discount : ℕ) (s : State)
    → req.role ≡ some cashier
    → discount ≤ subtotal
    → assert_discount_permission req subtotal discount s ≡ ok tt
    → discount * 10000 ≤ subtotal * discount_limit req.tenant s
unfolding assert_discount_permission
permitted req subtotal discount s role small passes = ground arith

agree-limit :
    (req : Request) (body : SettleOrderDto) (o : Order) (a : Settlement) (s s' : State)
    → req.role ≡ some cashier
    → agree req body o s ≡ (ok a, s')
    → a.bill.discount_cents * 10000 ≤ items_subtotal o.items * discount_limit req.tenant s
agree-limit req body o a s s' role e =
    let (_, billed, _) = agree-parts req body o a s s' e in
    let (same, small) = bill_for-discount _ _ _ a.bill billed in
    rw same (
      permitted req (items_subtotal o.items) a.discount.cents s role small
        (agree-permits req body o a s s' e))

-- The order that a settlement by a cashier closes.
pub record IsWithinLimit (limit subtotal : ℕ) (o : Order) : Type 0 where
  pub closes : o.status ≡ closed
  pub of_items : o.discount_cents * 10000 ≤ subtotal * limit

module _ (env : Env) (req : Request) (id : ℕ) where
  by_status-active :
      (st : Status) (body : SettleOrderDto) (o : Order)
      → is_active st ≡ true
      → settle_by_status st env req id body o ≡ settle_active env req id body o
  unfolding settle_by_status
  by_status-active opened body o e = refl
  by_status-active sent_to_kitchen body o e = refl
  by_status-active delivered body o e = refl
  by_status-active closed body o e = absurd (ground arith)
  by_status-active canceled body o e = absurd (ground arith)

  active-limit :
      (body : SettleOrderDto) (s s' : State) (r : Response) (o : Order)
      → req.role ≡ some cashier
      → find_order req.tenant id s ≡ some o
      → settle_active env req id body o s ≡ (ok r, s')
      → (new : Order) × (get id s'.orders ≡ some new)
        × IsWithinLimit (discount_limit req.tenant s) (items_subtotal o.items) new
  unfolding settled_order
  active-limit body s s' r o role found e =
      let (a, agreed, wrote) = active-parts env req id body s s' r o e in
      let (_, _, written) = writes env req id s s' r o a found wrote in
      let new = settled env req a o in
      (
        new,
        ap (get id) written ∙ get-put_self id new s.orders,
        record { closes = refl; of_items = agree-limit req body o a s s role agreed },
      )

  pub settle_order-limit :
      (body : SettleOrderDto) (s s' : State) (r : Response) (o : Order)
      → req.role ≡ some cashier
      → find_order req.tenant id s ≡ some o
      → is_active o.status ≡ true
      → settle_order env req id body s ≡ (ok r, s')
      → (new : Order) × (get id s'.orders ≡ some new)
        × IsWithinLimit (discount_limit req.tenant s) (items_subtotal o.items) new
  settle_order-limit body s s' r o role found active e =
      let (p, there, e') = order-parts env req id body s s' r e in
      let same : p ≡ o = ground (arith, found, there) in
      let one : settle_by_status o.status env req id body o s ≡ (ok r, s') =
        subst (λ q. settle_by_status q.status env req id body q s ≡ (ok r, s')) same e' in
      active-limit body s s' r o role found
        (sym (ap (λ m. m s) (by_status-active o.status body o active)) ∙ one)
