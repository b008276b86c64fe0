-- ===== src/Orders/Create/Refines.antt =====
-- A successful creation adds a new order at a free place.
use comandas_multitenant_off.Prelude.{ℕ, suc, ◌≡◌, refl, false, Option, arith}
use comandas_multitenant_off.Prelude.Dict.{put}
use comandas_multitenant_off.Http.{ok, ◌>>=◌}
use comandas_multitenant_off.Store.{State, OrderType, Response}
use comandas_multitenant_off.Store.Queries.{breaks_index, insert_order}
use comandas_multitenant_off.Orders.{Request}
use comandas_multitenant_off.Orders.Create.{Place, new_order, open_order}
use comandas_multitenant_off.Orders.Lifecycle.{IsNew, created}
use comandas_multitenant_off.Orders.Lifecycle.Serving.{Refines}

new_order-IsNew :
    (tenant : ℕ) (type : OrderType) (p : Place) (user : Option ℕ)
    → IsNew tenant (new_order tenant type p user)
unfolding new_order
new_order-IsNew tenant type p user = record {
  owned = refl;
  opens = refl;
  first_version = refl;
  no_payments = refl;
  not_settled = refl;
  first_entry = (user, refl);
}

module _ (req : Request) (type : OrderType) (p : Place) where
  writes :
      (s s' : State) (r : Response)
      → open_order req type p s ≡ (ok r, s')
      → (s'.next_id ≡ suc s.next_id)
        × (breaks_index s.next_id (new_order req.tenant type p req.user) s ≡ false)
        × (s'.orders ≡ put s.next_id (new_order req.tenant type p req.user) s.orders)
  unfolding open_order insert_order ◌>>=◌
  writes s s' r e = ground arith

  pub open_order-Refines : Refines req.tenant (open_order req type p)
  open_order-Refines = record {
    at = λ s s' r e.
        let (next, free, written) = writes s s' r e in
        created (new_order req.tenant type p req.user) (new_order-IsNew req.tenant type p req.user)
          free written next;
  }
