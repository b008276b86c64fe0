-- ===== src/Pix/Receipts.antt =====
-- What a notice of the Pix provider does: backend/src/pix.controller.ts, `receive`.
use comandas_multitenant_off.Prelude.{
  ℕ, ◌≡◌, inl, inr, refl, ◌∙◌, String, true, false, Option, none, some, [], ◌∷◌, arith, is_some,
  Bool-cases,
}
use comandas_multitenant_off.Prelude.Dict.{get, put, get-put_self}
use text.Mathlib.Text.{◌==◌ as str_eq}
use comandas_multitenant_off.Http.{ok, Result-cases, ◌>>=◌}
use comandas_multitenant_off.Store.{State, Order, PixCharge, Response, is_final}
use comandas_multitenant_off.Store.Queries.{extend_order, fresh_order, emit_to_tenant}
use comandas_multitenant_off.Financial.{Bill}
use comandas_multitenant_off.Orders.{add_history}
use comandas_multitenant_off.Orders.Settle.{add_payments}
use comandas_multitenant_off.Orders.Stock.{tally_sales}
use comandas_multitenant_off.Orders.Stock.Frame.{sell_all-charges}
use comandas_multitenant_off.Pix.{
  pay_charge, replayed, differs_amount, PixWebhookDto, is_paid, find_charge, update_charge,
  any_product, bill_of_charge, paid_order, pix_payment, is_paid_charge, write_payment, pay_order,
  settle_charge, announce_payment, by_notice, receive,
}
use comandas_multitenant_off.Pix.Refines.{paid_whole, writes, pay_order-parts, settle_charge-parts}

abbrev pub paid_notice : String → Option ℕ → PixWebhookDto
paid_notice txid amount = record { txid = txid; status = is_paid; amount_cents = amount }

write_payment-charges :
    (now tenant id : ℕ) (c d : PixCharge) (o : Order) (b : Bill) (s s' : State) (r : Response)
    → get id s.charges ≡ some d
    → get c.order s.orders ≡ some o
    → write_payment now tenant id c o b s ≡ (ok r, s')
    → s'.charges ≡ put id (pay_charge now d) s.charges
unfolding write_payment extend_order add_history update_charge fresh_order ◌>>=◌
write_payment-charges now tenant id c d o b s s' r found here e =
    let one = paid_order now c b o in
    let two = add_payments (pix_payment id b ∷ []) one in
    let three = paid_whole now id c b o in
    let k = c.order in
    let t : State = record s {
      orders = put k three (put k two (put k one s.orders));
      charges = put id (pay_charge now d) s.charges;
    } in
    ground (
      arith,
      get-put_self k one s.orders,
      get-put_self k two (put k one s.orders),
      get-put_self k three (put k two (put k one s.orders)),
      sell_all-charges any_product tenant k none (tally_sales o.items []) t,
    )

-- The order of the charge is paid in whole: the charge was not paid and the order not finished, its
-- bill is the amount of the charge, it is closed now with that payment, and the charge is paid.
pub record Settled (now id : ℕ) (c : PixCharge) (s s' : State) : Type 0 where
  pub row : get id s.charges ≡ some c
  pub unpaid : is_paid_charge c.status ≡ false
  pub before : Order
  pub found : get c.order s.orders ≡ some before
  pub unfinished : is_final before.status ≡ false
  pub bill : Bill
  pub billed : bill_of_charge c before ≡ ok bill
  pub amount : bill.total_cents ≡ c.amount_cents
  pub closes : s'.orders ≡ put c.order (paid_whole now id c bill before) s.orders
  pub marks : s'.charges ≡ put id (pay_charge now c) s.charges

receive-settles :
    (between : State → State) (now id : ℕ) (provider txid : String) (amount : Option ℕ)
    (c : PixCharge) (s s' : State)
    → find_charge provider txid s ≡ some (id, c)
    → receive between now provider (paid_notice txid amount) s ≡ (ok (replayed false), s')
    → (x : Option Response) × (t : State) × (settle_charge now c.tenant id (between s) ≡ (ok x, t))
      × (is_some x ≡ true)
      × (s'.orders ≡ t.orders)
      × (s'.charges ≡ t.charges)
unfolding receive by_notice announce_payment emit_to_tenant ◌>>=◌
receive-settles between now id provider txid amount c s s' found e =
    elim (Bool-cases (differs_amount amount c.amount_cents)) [
      | inl differs ↦ absurd (ground arith)
      | inr agrees ↦ elim (Bool-cases (is_paid_charge c.status)) [
        | inl done ↦ absurd (ground arith)
        | inr open_still ↦ elim (Result-cases (settle_charge now c.tenant id (between s)).0) [
          | inr (why, fault) ↦ absurd (ground arith)
          | inl (none, done) ↦ absurd (ground arith)
          | inl (some r, done) ↦ (
            some r,
            (settle_charge now c.tenant id (between s)).1,
            cc,
            refl,
            ground arith,
            ground arith,
          )
        ]
      ]
    ]

pay_order-Settled :
    (now tenant id : ℕ) (c : PixCharge) (o : Order) (s s' t : State) (x : Option Response)
    → get id s.charges ≡ some c
    → is_paid_charge c.status ≡ false
    → get c.order s.orders ≡ some o
    → pay_order now tenant id c o s ≡ (ok x, t)
    → s'.orders ≡ t.orders
    → s'.charges ≡ t.charges
    → Settled now id c s s'
pay_order-Settled now tenant id c o s s' t x row open_still here paying orders charges =
    let (b, r, unfinished, billed, agreed, wrote, answer) =
      pay_order-parts now tenant id c o s t x paying in
    let (next, written) = writes now tenant id c o b s t r here wrote in
    record {
      row = row;
      unpaid = open_still;
      before = o;
      found = here;
      unfinished = unfinished;
      bill = b;
      billed = billed;
      amount = agreed;
      closes = orders ∙ written;
      marks = charges ∙ write_payment-charges now tenant id c c o b s t r row here wrote;
    }

-- A notice that is answered as a new payment has settled the order of its charge, in the state that
-- other requests had left when its transaction began.
pub payment_settles :
    (between : State → State) (now id : ℕ) (provider txid : String) (amount : Option ℕ)
    (c : PixCharge) (s s' : State)
    → find_charge provider txid s ≡ some (id, c)
    → receive between now provider (paid_notice txid amount) s ≡ (ok (replayed false), s')
    → (d : PixCharge) × Settled now id d (between s) s'
payment_settles between now id provider txid amount c s s' found e =
    let (x, t, settles, one, orders, charges) =
      receive-settles between now id provider txid amount c s s' found e in
    elim (settle_charge-parts now c.tenant id (between s) t x settles) [
      | inl (nothing, _) ↦ absurd (ground arith)
      | inr (d, o, row, open_still, at_order, paying) ↦ (
        d,
        pay_order-Settled now c.tenant id d o (between s) s' t x row open_still at_order paying
            orders charges,
      )
    ]
