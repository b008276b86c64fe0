-- ===== src/Pix/Charge/Payable.antt =====
-- What a charge amounts to: backend/src/pix.controller.ts, `createCharge`.
use comandas_multitenant_off.Prelude.{
  ℕ, ◌≤◌, ◌≡◌, ◌⊎◌, inl, inr, true, false, some, arith, ◌==◌, Bool-cases, Option-cases,
}
use comandas_multitenant_off.Http.{ok, Result-cases, ◌>>=◌}
use comandas_multitenant_off.Store.{State, Order, PixCharge, is_final, items_subtotal}
use comandas_multitenant_off.Store.Queries.{find_order}
use comandas_multitenant_off.Financial.{Bill, calculate_bill_totals}
use comandas_multitenant_off.Orders.{has_version}
use comandas_multitenant_off.Pix.{bill_of_charge}
use comandas_multitenant_off.Pix.Charge.{
  CreatePixChargeDto, Adapter, AdapterCharge, Terms, request_charge, charge_terms, charge_bill,
  pending_charge, find_txid, insert_charge, new_charge, store_charge, open_charge, create_charge,
}

-- While a charge of the order is pending, asking again gives that charge and writes nothing,
-- whatever the amounts of the request.
pub pending_charge_returned :
    (a : Adapter) (between : State → State) (tenant : ℕ) (body : CreatePixChargeDto) (o : Order)
    (row : ℕ × PixCharge) (s : State)
    → find_order tenant body.order_id s ≡ some o
    → is_final o.status ≡ false
    → has_version body.expected_version o.version ≡ true
    → pending_charge body.order_id s ≡ some row
    → create_charge a between tenant body s ≡ (ok row, s)
unfolding create_charge ◌>>=◌
pending_charge_returned a between tenant body o row s found active current waiting = ground arith

bill_agrees :
    (tenant : ℕ) (body : CreatePixChargeDto) (o : Order) (a : AdapterCharge) (t : Terms) (b : Bill)
    → charge_bill (items_subtotal o.items) t.cents body.service_fee_bps ≡ ok b
    → bill_of_charge (new_charge tenant body.order_id a t b) o ≡ ok b
unfolding charge_bill calculate_bill_totals bill_of_charge
bill_agrees tenant body o a t b e = ground arith

stored_or_known :
    (c : PixCharge) (s s' : State) (k : ℕ) (d : PixCharge)
    → store_charge c s ≡ (ok (k, d), s')
    → (d ≡ c) ⊎ (find_txid c.tenant c.txid s ≡ some (k, d))
unfolding store_charge insert_charge ◌>>=◌
stored_or_known c s s' k d e = elim (Option-cases (find_txid c.tenant c.txid s)) [
  | inl fresh ↦ inl (ground arith)
  | inr (row, known) ↦ inr (ground arith)
]

-- The bill of the charge's terms for the order is the charge's amount, which is above zero.
abbrev pub IsPayable : PixCharge → Order → Type 0
IsPayable c o =
    (b : Bill) × (bill_of_charge c o ≡ ok b)
    × (b.total_cents ≡ c.amount_cents)
    × (1 ≤ c.amount_cents)

-- The charge that the tenant had under the txid which the provider answered for this order: the
-- provider was asked for an amount above zero.
pub data IsKnown (a : Adapter) (tenant : ℕ) (body : CreatePixChargeDto) (o : Order) (s : State)
    (row : ℕ × PixCharge) : Type 0 where
  known_row :
      (amount : ℕ) (x : AdapterCharge)
      → 1 ≤ amount
      → request_charge a amount (body.order_id, o.version) ≡ ok x
      → find_txid tenant x.txid s ≡ some row
      → IsKnown a tenant body o s row

-- A new charge has the amount that the webhook computes for the order as it was read; otherwise
-- the charge is the one that the tenant has under the txid of the provider's answer to the request
-- for this order and version.
pub open_charge-IsPayable :
    (a : Adapter) (between : State → State) (tenant : ℕ) (body : CreatePixChargeDto) (o : Order)
    (s s' : State) (k : ℕ) (c : PixCharge)
    → open_charge a between tenant body o s ≡ (ok (k, c), s')
    → IsPayable c o ⊎ IsKnown a tenant body o (between s) (k, c)
unfolding open_charge ◌>>=◌
open_charge-IsPayable a between tenant body o s s' k c e =
    elim (Result-cases (charge_terms (items_subtotal o.items) body)) [
      | inr (why, fault) ↦ absurd (ground arith)
      | inl (t, terms) ↦
          elim (Result-cases (charge_bill (items_subtotal o.items) t.cents body.service_fee_bps)) [
            | inr (why, fault) ↦ absurd (ground arith)
            | inl (b, billed) ↦ elim (Bool-cases (b.total_cents == 0)) [
              | inl free ↦ absurd (ground arith)
              | inr positive ↦
                  elim (Result-cases (request_charge a b.total_cents (body.order_id, o.version))) [
                    | inr (why, fault) ↦ absurd (ground arith)
                    | inl (x, charged) ↦
                        let n : PixCharge = new_charge tenant body.order_id x t b in
                        elim (stored_or_known n (between s) s' k c (ground arith)) [
                          | inr known ↦ inr (known_row b.total_cents x (ground arith) charged known)
                          | inl made ↦ inl (
                            b,
                            rw made (bill_agrees tenant body o x t b billed),
                            ground arith,
                            ground arith,
                          )
                        ]
                  ]
            ]
          ]
    ]
