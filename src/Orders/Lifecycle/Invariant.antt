-- ===== src/Orders/Lifecycle/Invariant.antt =====
-- The integrity of the orders, and that every change of them keeps it.
use comandas_multitenant_off.Orders.Lifecycle.Tables.{IsExclusive, Evolves-IsExclusive}
use comandas_multitenant_off.Prelude.{
  subst, ◌∙◌, sym, ℕ, suc, ◌+◌, ◌≤◌, ◌<◌, ◌≡◌, ◌≢◌, ◌⊎◌, inl, inr, refl, true, false, Option, none,
  some, List, [], ◌∷◌, ◌==◌, map, arith, Bool-cases,
}
use comandas_multitenant_off.Prelude.Dict.{Dict, get, put, get-put}
use comandas_multitenant_off.Prelude.Lists.{last?, last?-append, sum_by}
use comandas_multitenant_off.Store.{
  State, Order, PixCharge, OrderPayment, StatusChange, Status, closed, is_final, items_subtotal,
}
use comandas_multitenant_off.Financial.{ValidatedPayment}
use comandas_multitenant_off.Orders.{is_active, Env, Request, log}
use comandas_multitenant_off.Pix.{paid_order, pix_payment, closing_entry}
use comandas_multitenant_off.Financial.Totals.{IsBalanced}
use comandas_multitenant_off.Financial.{Bill}
use comandas_multitenant_off.Orders.Settle.{Settlement, payment_row, settled_order}
use comandas_multitenant_off.Orders.Lifecycle.{
  close_directly, move_to, add_payments, Transition, to_kitchen, to_table, Fits, Step, advance,
  add_item, settle, close, transfer, pay, IsNew, Evolves, same, created, stepped,
}

abbrev pub last_status : List StatusChange → Option Status
last_status h = elim (last? h) [ none ↦ none | some c ↦ some c.to_status ]

abbrev pub paid_cents : List OrderPayment → ℕ
paid_cents = sum_by (λ p. p.amount_cents)

-- The payments of a settled order cover its total, which is that of its items less the discount
-- with the fee.
pub record IsPaid (o : Order) : Type 0 where
  pub is_closed : o.status ≡ closed
  pub covers : paid_cents o.payments ≡ o.total_cents
  pub of_items : o.subtotal_cents ≡ items_subtotal o.items
  pub total : o.total_cents + o.discount_cents ≡ o.subtotal_cents + o.service_fee_cents
  pub discount_fits : o.discount_cents ≤ o.subtotal_cents

pub record IsSound (o : Order) : Type 0 where
  pub versioned : 1 ≤ o.version
  pub logged : last_status o.history ≡ some o.status
  pub freed : o.status ≡ closed → o.table_id ≡ none
  pub paid : (o.payments ≡ []) ⊎ IsPaid o
  pub settled : (o.settled_at ≡ none) ⊎ IsPaid o

last_status-log : (c : StatusChange) (o : Order) → last_status (log c o).history ≡ some c.to_status
last_status-log c o = ground (arith, last?-append o.history c)

paid_cents-rows :
    (vs : List ValidatedPayment) → paid_cents (map payment_row vs) ≡ sum_by (λ v. v.amount_cents) vs
paid_cents-rows [] = refl
paid_cents-rows (v ∷ vs) = omega (arith, paid_cents-rows vs)

unpaid : (o : Order) → o.status ≢ closed → (o.payments ≡ []) ⊎ IsPaid o → o.payments ≡ []
unpaid o h (inl e) = e
unpaid o h (inr p) = absurd (h p.is_closed)

unsettled : (o : Order) → o.status ≢ closed → (o.settled_at ≡ none) ⊎ IsPaid o → o.settled_at ≡ none
unsettled o h (inl e) = e
unsettled o h (inr p) = absurd (h p.is_closed)

target_open : {from to : Status} → Transition from to → to ≢ closed
target_open to_kitchen e = cc
target_open to_table e = cc

source_open : {from to : Status} → Transition from to → from ≢ closed
source_open to_kitchen e = cc
source_open to_table e = cc

not_final : (o : Order) → is_final o.status ≡ false → o.status ≢ closed
not_final o h = ground arith

not_closed : (o : Order) → is_active o.status ≡ true → o.status ≢ closed
not_closed o h = ground arith

settled_IsPaid :
    (env : Env) (req : Request) (a : Settlement) (o : Order) (c : StatusChange)
    → Fits a o
    → o.payments ≡ []
    → IsPaid (log c (add_payments (map payment_row a.check.payments) (settled_order env req a o)))
unfolding settled_order
settled_IsPaid env req a o c fits none_yet = record {
  is_closed = refl;
  covers =
      rw none_yet
        (omega (arith, paid_cents-rows a.check.payments, fits.tallied.sum_paid, fits.paid));
  of_items = fits.of_items;
  total = omega (arith, fits.balanced.discounted, fits.balanced.total);
  discount_fits = fits.balanced.discount_fits;
}

paid_IsPaid :
    (now id : ℕ) (c : PixCharge) (b : Bill) (o : Order)
    → b.subtotal_cents ≡ items_subtotal o.items
    → IsBalanced b
    → o.payments ≡ []
    → IsPaid (log (closing_entry o) (add_payments (pix_payment id b ∷ []) (paid_order now c b o)))
unfolding paid_order
paid_IsPaid now id c b o of_items balanced none_yet = record {
  is_closed = refl;
  covers = rw none_yet (omega arith);
  of_items = of_items;
  total = omega (arith, balanced.discounted, balanced.total);
  discount_fits = balanced.discount_fits;
}

-- A step keeps the order sound.
pub Step-IsSound : {o o' : Order} → Step o o' → IsSound o → IsSound o'
unfolding settled_order paid_order
Step-IsSound {o = o} (advance from to user t at) h = record {
  versioned = omega arith;
  logged = last_status-log _ (move_to to o);
  freed = λ e. absurd (target_open t e);
  paid = inl (unpaid o (λ e. source_open t (sym at ∙ e)) h.paid);
  settled = inl (unsettled o (λ e. source_open t (sym at ∙ e)) h.settled);
}
Step-IsSound {o = o} (add_item i open_still) h = record {
  versioned = omega arith;
  logged = h.logged;
  freed = h.freed;
  paid = inl (unpaid o open_still h.paid);
  settled = inl (unsettled o open_still h.settled);
}
Step-IsSound {o = o} (settle env req a active fits) h = record {
  versioned = omega arith;
  logged =
      last_status-log _
        (add_payments (map payment_row a.check.payments) (settled_order env req a o));
  freed = λ e. refl;
  paid = inr (settled_IsPaid env req a o _ fits (unpaid o (not_closed o active) h.paid));
  settled = inr (settled_IsPaid env req a o _ fits (unpaid o (not_closed o active) h.paid));
}
Step-IsSound {o = o} (close user active) h = record {
  versioned = omega arith;
  logged = last_status-log _ (close_directly o);
  freed = λ e. refl;
  paid = inl (unpaid o (not_closed o active) h.paid);
  settled = inl (unsettled o (not_closed o active) h.settled);
}
Step-IsSound {o = o} (transfer t label unfinished) h = record {
  versioned = omega arith;
  logged = h.logged;
  freed = λ e. absurd (not_final o unfinished e);
  paid = inl (unpaid o (not_final o unfinished) h.paid);
  settled = inl (unsettled o (not_final o unfinished) h.settled);
}
Step-IsSound {o = o} (pay now id c b unfinished of_items balanced) h = record {
  versioned = omega arith;
  logged = last_status-log _ (add_payments (pix_payment id b ∷ []) (paid_order now c b o));
  freed = λ e. refl;
  paid =
      inr (paid_IsPaid now id c b o of_items balanced (unpaid o (not_final o unfinished) h.paid));
  settled =
      inr (paid_IsPaid now id c b o of_items balanced (unpaid o (not_final o unfinished) h.paid));
}

IsNew-IsSound : {tenant : ℕ} {o : Order} → IsNew tenant o → IsSound o
IsNew-IsSound {o = o} new =
    let (u, entry) = new.first_entry in
    record {
      versioned = omega (arith, new.first_version);
      logged = rw (entry, new.opens) refl;
      freed = λ e. absurd (ground (arith, new.opens));
      paid = inl new.no_payments;
      settled = inl new.not_settled;
    }

-- The integrity of the orders: ids are taken from the generator, each order is sound, and a table
-- has one active order of a tenant at most.
pub record IsValid (s : State) : Type 0 where
  pub fresh : (k : ℕ) (o : Order) → get k s.orders ≡ some o → k < s.next_id
  pub sound : (k : ℕ) (o : Order) → get k s.orders ≡ some o → IsSound o
  pub exclusive : IsExclusive s.orders

put_keeps_fresh :
    (id n : ℕ) (o : Order) (m : Dict Order) (k : ℕ) (p : Order)
    → ((k : ℕ) (o : Order) → get k m ≡ some o → k < n)
    → id < n
    → get k (put id o m) ≡ some p
    → k < n
put_keeps_fresh id n o m k p h small e = ground (arith, get-put k id o m, h k p)

put-IsSound :
    (id : ℕ) (o : Order) (m : Dict Order) (k : ℕ) (p : Order)
    → ((k : ℕ) (o : Order) → get k m ≡ some o → IsSound o)
    → IsSound o
    → get k (put id o m) ≡ some p
    → IsSound p
put-IsSound id o m k p h new e = elim (Bool-cases (id == k)) [
  | inl same_key ↦ let q : o ≡ p = ground (arith, get-put k id o m) in subst IsSound q new
  | inr other_key ↦ h k p (ground (arith, get-put k id o m))
]

-- Every change of the orders keeps their integrity.
pub Evolves-IsValid : {tenant : ℕ} (s s' : State) → Evolves tenant s s' → IsValid s → IsValid s'
Evolves-IsValid s s' (same e n) v = record {
  fresh = rw (e, n) v.fresh;
  sound = rw e v.sound;
  exclusive = rw e v.exclusive;
}
Evolves-IsValid s s' (created o new free e n) v = record {
  fresh =
      rw (e, n)
        (λ k p g.
          put_keeps_fresh s.next_id (suc s.next_id) o s.orders k p
            (λ j q f. omega (arith, v.fresh j q f)) (omega arith) g);
  sound = rw e (λ k p g. put-IsSound s.next_id o s.orders k p v.sound (IsNew-IsSound new) g);
  exclusive = Evolves-IsExclusive s s' (created o new free e n) v.exclusive;
}
Evolves-IsValid s s' (stepped id o o' here owned st place e n) v = record {
  fresh =
      rw (e, n)
        (λ k p g. put_keeps_fresh id s.next_id o' s.orders k p v.fresh (v.fresh id o here) g);
  sound =
      rw e
        (λ k p g. put-IsSound id o' s.orders k p v.sound (Step-IsSound st (v.sound id o here)) g);
  exclusive = Evolves-IsExclusive s s' (stepped id o o' here owned st place e n) v.exclusive;
}
