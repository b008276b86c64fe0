-- ===== src/Orders/Transfer/Refines.antt =====
-- A successful transfer is a step of an order that is not finished, to a table that is free.
use comandas_multitenant_off.Prelude.{ℕ, ◌≡◌, inl, inr, false, none, some, arith, Option-cases}
use comandas_multitenant_off.Prelude.Dict.{get, put}
use comandas_multitenant_off.Http.{ok, ◌>>=◌}
use comandas_multitenant_off.Store.{DiningTable, State, Order, is_final, Response}
use comandas_multitenant_off.Store.Queries.{
  find_order, find_table, rewrite_order, breaks_index, fresh_order,
}
use comandas_multitenant_off.Orders.{Request}
use comandas_multitenant_off.Orders.Transfer.{move_table, transfer_order}
use comandas_multitenant_off.Orders.Lifecycle.{stepped, transfer}
use comandas_multitenant_off.Orders.Lifecycle.Serving.{Refines}

module _ (req : Request) (id target : ℕ) where
  writes :
      (s s' : State) (r : Response) (o : Order) (row : DiningTable)
      → get id s.orders ≡ some o
      → find_table req.tenant target s ≡ some row
      → transfer_order req id target s ≡ (ok r, s')
      → (s'.next_id ≡ s.next_id)
        × (o.tenant ≡ req.tenant)
        × (is_final o.status ≡ false)
        × (breaks_index id (move_table target row.label o) s ≡ false)
        × (s'.orders ≡ put id (move_table target row.label o) s.orders)
  unfolding transfer_order rewrite_order find_order fresh_order ◌>>=◌
  writes s s' r o row found there e = ground arith

  no_table :
      (s s' : State) (r : Response)
      → find_table req.tenant target s ≡ none
      → transfer_order req id target s ≡ (ok r, s')
      → ⊥
  unfolding transfer_order find_order ◌>>=◌
  no_table s s' r lost e = ground arith

  missing :
      (s s' : State) (r : Response)
      → get id s.orders ≡ none
      → transfer_order req id target s ≡ (ok r, s')
      → ⊥
  unfolding transfer_order find_order ◌>>=◌
  missing s s' r lost e = ground arith

  pub transfer_order-Refines : Refines req.tenant (transfer_order req id target)
  transfer_order-Refines = record {
    at = λ s s' r e. elim (Option-cases (get id s.orders)) [
      | inl lost ↦ absurd (missing s s' r lost e)
      | inr (o, found) ↦ elim (Option-cases (find_table req.tenant target s)) [
        | inl closed_table ↦ absurd (no_table s s' r closed_table e)
        | inr (row, there) ↦
            let (next, owned, unfinished, free, written) = writes s s' r o row found there e in
            stepped id o (move_table target row.label o) found owned
              (transfer target row.label unfinished) (inr (inr free)) written next
      ]
    ];
  }
