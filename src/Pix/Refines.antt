-- ===== src/Pix/Refines.antt =====
-- The Pix webhook among the requests: a payment is a step of the order that the charge names, and
-- what every change of the orders keeps, the webhook keeps.
use comandas_multitenant_off.Prelude.{
  ℕ, ◌≡◌, ◌⊎◌, inl, inr, refl, String, true, false, Option, none, some, [], ◌∷◌, arith, Bool-cases,
  Option-cases,
}
use comandas_multitenant_off.Prelude.Dict.{get, put, put-put, get-put_self}
use comandas_multitenant_off.Http.{◌>>◌, Result, ok, err, Result-cases, pure, transaction, ◌>>=◌}
use comandas_multitenant_off.Store.{
  State, Order, PixCharge, ChargeStatus, Response, is_final, items_subtotal, paid, expired,
  canceled, failed,
}
use comandas_multitenant_off.Store.Queries.{extend_order, fresh_order, emit_to_tenant}
use comandas_multitenant_off.Financial.{Bill}
use comandas_multitenant_off.Financial.Totals.{IsBalanced, calculate_bill_totals-IsBalanced}
use comandas_multitenant_off.Orders.{log, add_history}
use comandas_multitenant_off.Orders.Settle.{add_payments}
use comandas_multitenant_off.Orders.Stock.{tally_sales}
use comandas_multitenant_off.Orders.Stock.Frame.{sell_all-SameOrders}
use comandas_multitenant_off.Orders.Lifecycle.{Evolves, same, stepped, pay}
use comandas_multitenant_off.Orders.Lifecycle.Serving.{Serves, Serves-pure, Serves-bind}
use comandas_multitenant_off.Pix.{
  marked, differs_amount, PixWebhookDto, Notice, is_paid, is_expired, is_canceled, is_failed,
  find_charge, update_charge, any_product, bill_of_charge, paid_order, pix_payment, closing_entry,
  is_paid_charge, write_payment, pay_order, settle_charge, announce_payment, by_notice, receive,
}

abbrev pub paid_whole : ℕ → ℕ → PixCharge → Bill → Order → Order
paid_whole now id c b o =
    log (closing_entry o) (add_payments (pix_payment id b ∷ []) (paid_order now c b o))

paid_final :
    (now id : ℕ) (c : PixCharge) (b : Bill) (o : Order)
    → is_final (paid_whole now id c b o).status ≡ true
unfolding paid_order
paid_final now id c b o = refl

abbrev SameOrders : State → State → Type 0
SameOrders s s' = (s'.orders ≡ s.orders) × (s'.next_id ≡ s.next_id)

update_charge-SameOrders :
    (id : ℕ) (f : PixCharge → PixCharge) (s : State) → SameOrders s (update_charge id f s).1
unfolding update_charge
update_charge-SameOrders id f s = ground arith

module _ (now tenant id : ℕ) where
  pub writes :
      (c : PixCharge) (o : Order) (b : Bill) (s s' : State) (r : Response)
      → get c.order s.orders ≡ some o
      → write_payment now tenant id c o b s ≡ (ok r, s')
      → (s'.next_id ≡ s.next_id) × (s'.orders ≡ put c.order (paid_whole now id c b o) s.orders)
  unfolding write_payment extend_order add_history update_charge fresh_order ◌>>=◌
  writes c o b s s' r here e =
      let one = paid_order now c b o in
      let two = add_payments (pix_payment id b ∷ []) one in
      let three = paid_whole now id c b o in
      let k = c.order in
      let m = put k three (put k two (put k one s.orders)) in
      let charge : Option PixCharge = get id s.charges in
      elim (Option-cases charge) [
        | inl lost ↦ absurd (ground (arith, get-put_self k one s.orders))
        | inr (d, found) ↦
            let t : State = record s {
              orders = m;
              charges = put id (record d { status = paid; paid_at = some now }) s.charges;
            } in
            ground (
              arith,
              get-put_self k one s.orders,
              get-put_self k two (put k one s.orders),
              get-put_self k three (put k two (put k one s.orders)),
              put-put k two one s.orders,
              put-put k three two (put k one s.orders),
              put-put k three one s.orders,
              sell_all-SameOrders any_product tenant k none (tally_sales o.items []) t,
            )
      ]

  bill_of_charge-fits :
      (c : PixCharge) (o : Order) (b : Bill)
      → bill_of_charge c o ≡ ok b
      → (b.subtotal_cents ≡ items_subtotal o.items) × IsBalanced b
  unfolding bill_of_charge
  bill_of_charge-fits c o b e =
      ((calculate_bill_totals-IsBalanced _ b e).1, (calculate_bill_totals-IsBalanced _ b e).0)

  pub pay_order-parts :
      (c : PixCharge) (o : Order) (s s' : State) (x : Option Response)
      → pay_order now tenant id c o s ≡ (ok x, s')
      → (b : Bill) × (r : Response) × (is_final o.status ≡ false)
        × (bill_of_charge c o ≡ ok b)
        × (b.total_cents ≡ c.amount_cents)
        × (write_payment now tenant id c o b s ≡ (ok r, s'))
        × (x ≡ some r)
  unfolding pay_order ◌>>=◌
  pay_order-parts c o s s' x e = elim (Result-cases (bill_of_charge c o)) [
    | inr (why, fault) ↦ absurd (ground arith)
    | inl (b, billed) ↦ elim (Result-cases (write_payment now tenant id c o b s).0) [
      | inr (why, fault) ↦ absurd (ground arith)
      | inl (r, wrote) ↦ (b, r, ground arith, billed, ground arith, ground arith, ground arith)
    ]
  ]

  -- The charge was paid meanwhile, or its order is there and is paid now.
  pub settle_charge-parts :
      (s s' : State) (x : Option Response)
      → settle_charge now tenant id s ≡ (ok x, s')
      → ((x ≡ none) × (s' ≡ s))
        ⊎ ((c : PixCharge) × (o : Order) × (get id s.charges ≡ some c)
            × (is_paid_charge c.status ≡ false)
            × (get c.order s.orders ≡ some o)
            × (pay_order now tenant id c o s ≡ (ok x, s')))
  unfolding settle_charge ◌>>=◌
  settle_charge-parts s s' x e = elim (Option-cases (get id s.charges)) [
    | inl lost ↦ absurd (ground arith)
    | inr (c, found) ↦ elim (Bool-cases (is_paid_charge c.status)) [
      | inl done ↦ inl (ground arith)
      | inr open_still ↦ elim (Option-cases (get c.order s.orders)) [
        | inl lost ↦ absurd (ground arith)
        | inr (o, here) ↦ inr (c, o, found, open_still, here, ground arith)
      ]
    ]
  ]

  pub settle_charge-Evolves :
      (s s' : State) (x : Option Response)
      → settle_charge now tenant id s ≡ (ok x, s')
      → (owner : ℕ) × Evolves owner s s'
  settle_charge-Evolves s s' x e = elim (settle_charge-parts s s' x e) [
    | inl (_, unchanged) ↦ (tenant, rw unchanged (same refl refl))
    | inr (c, o, found, open_still, here, paying) ↦
        let (b, r, unfinished, billed, agreed, wrote, answer) = pay_order-parts c o s s' x paying in
        let (of_items, balanced) = bill_of_charge-fits c o b billed in
        let (next, written) = writes c o b s s' r here wrote in
        (
          o.tenant,
          stepped c.order o (paid_whole now id c b o) here refl
              (pay now id c b unfinished of_items balanced) (inl (paid_final now id c b o)) written
              next,
        )
  ]

module _ (Inv : State → Type 0)
    (kept : (owner : ℕ) (s s' : State) → Evolves owner s s' → Inv s → Inv s') where
  SameOrders-keeps : (s s' : State) → SameOrders s s' → Inv s → Inv s'
  SameOrders-keeps s s' (orders, next) h = kept 0 s s' (same orders next) h

  transaction-keeps :
      (now tenant id : ℕ) (s : State)
      → Inv s
      → (p : Result (Option Response) × State) → settle_charge now tenant id s ≡ p
      → Inv (transaction (λ _. p) s).1
  unfolding ◌>>=◌
  transaction-keeps now tenant id s h (ok x, s') e =
      let (owner, evolves) = settle_charge-Evolves now tenant id s s' x e in
      kept owner s s' evolves h
  transaction-keeps now tenant id s h (err why, s') e = h

  announce_payment-Serves :
      (tenant : ℕ) (r : Option Response) → Serves Inv (announce_payment tenant r)
  unfolding announce_payment emit_to_tenant ◌>>=◌
  announce_payment-Serves tenant none = record { at = λ s h. h }
  announce_payment-Serves tenant (some r) = record {
    at = λ s h. SameOrders-keeps s _ (refl, refl) h;
  }

  mark-keeps :
      (id : ℕ) (status : ChargeStatus) (s : State)
      → Inv s
      → Inv (update_charge id (λ c. record c { status = status }) s).1
  mark-keeps id status s h = SameOrders-keeps s _ (update_charge-SameOrders id _ s) h

  mark-Serves :
      (id : ℕ) (status : ChargeStatus)
      → Serves Inv (do update_charge id (λ c. record c { status = status }); pure (marked status))
  mark-Serves id status =
      Serves-bind _ _ (record { at = λ s h. mark-keeps id status s h })
        (λ _. Serves-pure (marked status))

  settled :
      (now tenant id : ℕ) (s : State) → Inv s → Inv (transaction (settle_charge now tenant id) s).1
  unfolding ◌>>=◌
  settled now tenant id s h =
      transaction-keeps now tenant id s h (settle_charge now tenant id s) refl

  by_notice-Serves : (n : Notice) (now tenant id : ℕ) → Serves Inv (by_notice n now tenant id)
  unfolding by_notice
  by_notice-Serves is_paid now tenant id =
      Serves-bind _ _ (record { at = λ s h. settled now tenant id s h })
        (announce_payment-Serves tenant)
  by_notice-Serves is_expired now tenant id = mark-Serves id expired
  by_notice-Serves is_canceled now tenant id = mark-Serves id canceled
  by_notice-Serves is_failed now tenant id = mark-Serves id failed

  module _ (between : State → State) (others : (s : State) → Inv s → Inv (between s)) where
    receive-keeps :
        (now : ℕ) (provider : String) (body : PixWebhookDto) (s : State)
        → Inv s
        → Inv (receive between now provider body s).1
    unfolding receive ◌>>=◌
    receive-keeps now provider body s h = elim (Option-cases (find_charge provider body.txid s)) [
      | inl lost ↦ rw lost h
      | inr ((id, c), found) ↦ elim (Bool-cases (differs_amount body.amount_cents c.amount_cents)) [
        | inl differs ↦ rw (found, differs) h
        | inr agrees ↦ elim (Bool-cases (is_paid_charge c.status)) [
          | inl done ↦ rw (found, agrees, done) h
          | inr open_still ↦
              rw (found, agrees, open_still)
                ((by_notice-Serves body.status now c.tenant id).at (between s) (others s h))
        ]
      ]
    ]

    pub receive-Serves :
        (now : ℕ) (provider : String) (body : PixWebhookDto)
        → Serves Inv (receive between now provider body)
    receive-Serves now provider body = record { at = λ s h. receive-keeps now provider body s h }
