-- ===== src/Reports/Reached.antt =====
-- The sales of a state that requests have reached: backend/src/reports.controller.ts with
-- backend/src/orders.controller.ts.
use comandas_multitenant_off.Prelude.{
  ℕ, ◌+◌, ◌≡◌, inl, inr, true, some, [], ◌∷◌, ◌==◌, ◌&&◌, map, arith, Bool-cases,
}
use comandas_multitenant_off.Prelude.Lists.{All, keep}
use comandas_multitenant_off.Prelude.Dict.{Dict, get}
use comandas_multitenant_off.Store.{State, Order, is_closed}
use comandas_multitenant_off.Pagination.Cuts.{IsUnique}
use comandas_multitenant_off.Orders.Lifecycle.Invariant.{IsPaid, IsSound, IsValid}
use comandas_multitenant_off.Reports.{Period, sales, sold_orders, settled_within}
use comandas_multitenant_off.Reports.Sums.{total}
use comandas_multitenant_off.Reports.Agreement.{sales_balances}

-- A sound order that is reported was paid.
reported-IsPaid :
    (p : Period) (o : Order) → settled_within p o.settled_at ≡ true → IsSound o → IsPaid o
unfolding settled_within
reported-IsPaid p o counted h = elim h.settled [
  | inr paid ↦ paid
  | inl never ↦ absurd (ground arith)
]

sound_rows :
    (p : Period) (tenant : ℕ) (d : Dict Order)
    → IsUnique d
    → ((k : ℕ) (o : Order) → get k d ≡ some o → IsSound o)
    → All IsPaid (
        map
          (λ r. r.1)
          (keep
            (λ r. r.1.tenant == tenant && is_closed r.1.status && settled_within p r.1.settled_at)
            d))
unfolding IsUnique get
sound_rows p tenant [] u h = tt
sound_rows p tenant ((j, x) ∷ d) (fresh, u) h =
    let rest = sound_rows p tenant d u (λ k o g. h k o (ground (arith, fresh, g))) in
    elim (Bool-cases (x.tenant == tenant && is_closed x.status && settled_within p x.settled_at)) [
      | inr other ↦ rw other rest
      | inl counted ↦ rw counted (reported-IsPaid p x (ground arith) (h j x (ground arith)), rest)
    ]

-- In every state that keeps the integrity of the orders, the methods of payment of a sales report add
-- up to what was received, which with the discounts is the gross revenue and the service fees.
pub sales_of_valid_state :
    (p : Period) (tenant : ℕ) (s : State)
    → IsUnique s.orders
    → IsValid s
    → (total (sales p tenant s).payment_methods ≡ (sales p tenant s).received_cents)
      × ((sales p tenant s).received_cents + (sales p tenant s).discounts_cents
          ≡ (sales p tenant s).gross_revenue_cents + (sales p tenant s).service_fees_cents)
unfolding sold_orders
sales_of_valid_state p tenant s u v =
    sales_balances p tenant s (sound_rows p tenant s.orders u v.sound)
