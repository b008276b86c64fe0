-- ===== src/Orders/Settle/Waits.antt =====
-- Settlements while a Pix charge is pending: backend/src/orders.controller.ts, `settleOrder`.
use comandas_multitenant_off.Prelude.{
  ℕ, ◌≡◌, true, refl, List, [], ◌∷◌, Option-cases, inl, inr, arith,
}
use comandas_multitenant_off.Http.{◌>>=◌}
use comandas_multitenant_off.Dto.{SettleOrderDto}
use comandas_multitenant_off.Store.{State, Order, OrderPayment, Status, closed, canceled}
use comandas_multitenant_off.Store.Queries.{find_order, has_pending_charge, fresh_order}
use comandas_multitenant_off.Orders.{Env, Request}
use comandas_multitenant_off.Orders.Settle.{
  settle_order, settle_by_status, settle_active, answer_closed,
}

answer_closed-waits : (id : ℕ) (ps : List OrderPayment) (s : State) → (answer_closed id ps s).1 ≡ s
unfolding answer_closed fresh_order ◌>>=◌
answer_closed-waits id [] s = refl
answer_closed-waits id (p ∷ ps) s = ground arith

module _ (env : Env) (req : Request) (id : ℕ) (body : SettleOrderDto) (s : State)
    (pending : has_pending_charge id s ≡ true) where
  settle_active-waits : (o : Order) → (settle_active env req id body o s).1 ≡ s
  unfolding settle_active ◌>>=◌
  settle_active-waits o = ground arith

  settle_by_status-waits :
      (st : Status) (o : Order) → (settle_by_status st env req id body o s).1 ≡ s
  unfolding settle_by_status ◌>>=◌
  settle_by_status-waits closed o = answer_closed-waits id o.payments s
  settle_by_status-waits canceled o = refl
  settle_by_status-waits st o = settle_active-waits o

  pub settle_order-waits : (settle_order env req id body s).1 ≡ s
  unfolding settle_order ◌>>=◌
  settle_order-waits = elim (Option-cases (find_order req.tenant id s)) [
    | inl n ↦ rw n refl
    | inr (o, found) ↦ rw found (settle_by_status-waits o.status o)
  ]
