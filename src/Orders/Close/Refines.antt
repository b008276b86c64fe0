-- ===== src/Orders/Close/Refines.antt =====
-- A successful closing without payments is a step of an active order, or finds it closed.
use comandas_multitenant_off.Prelude.{
  ℕ, ◌≡◌, ◌⊎◌, inl, inr, refl, true, Option, none, some, arith, Option-cases,
}
use comandas_multitenant_off.Prelude.Dict.{get, put, get-put_self, put-put}
use comandas_multitenant_off.Http.{ok, ◌>>=◌}
use comandas_multitenant_off.Store.{State, Order, StatusChange, closed, Response}
use comandas_multitenant_off.Store.Queries.{find_order, update_order, fresh_order}
use comandas_multitenant_off.Idempotency.{save_idempotency}
use comandas_multitenant_off.Orders.{Request, is_active, log, add_history}
use comandas_multitenant_off.Orders.Close.{close_directly, close_order}
use comandas_multitenant_off.Orders.Lifecycle.{same, stepped, close}
use comandas_multitenant_off.Orders.Lifecycle.Serving.{Refines}

abbrev entry : Request → StatusChange
entry req = record { from_status = none; to_status = closed; changed_by = req.user }

module _ (h : ℕ) (req : Request) (id : ℕ) (expected : Option ℕ) where
  writes :
      (s s' : State) (r : Response) (o : Order)
      → get id s.orders ≡ some o
      → close_order h req id expected s ≡ (ok r, s')
      → (s'.next_id ≡ s.next_id)
        × ((s'.orders ≡ s.orders)
            ⊎ ((o.tenant ≡ req.tenant)
                × (is_active o.status ≡ true)
                × (s'.orders ≡ put id (log (entry req) (close_directly o)) s.orders)))
  unfolding close_order add_history update_order find_order fresh_order save_idempotency ◌>>=◌
  writes s s' r o found e =
      let moved = close_directly o in
      let new = log (entry req) moved in
      ground (
        arith,
        get-put_self id moved s.orders,
        get-put_self id new (put id moved s.orders),
        put-put id new moved s.orders,
      )

  missing :
      (s s' : State) (r : Response)
      → get id s.orders ≡ none
      → close_order h req id expected s ≡ (ok r, s')
      → ⊥
  unfolding close_order update_order find_order ◌>>=◌
  missing s s' r lost e = ground arith

  pub close_order-Refines : Refines req.tenant (close_order h req id expected)
  close_order-Refines = record {
    at = λ s s' r e. elim (Option-cases (get id s.orders)) [
      | inl lost ↦ absurd (missing s s' r lost e)
      | inr (o, found) ↦
          let (next, effect) = writes s s' r o found e in
          elim effect [
            | inl unchanged ↦ same unchanged next
            | inr (owned, active, written) ↦
                stepped id o (log (entry req) (close_directly o)) found owned
                  (close req.user active) (inl refl) written next
          ]
    ];
  }
