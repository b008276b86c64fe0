-- ===== src/Orders/Items/Refines.antt =====
-- A successful addition of an item is a step of an order that is not closed.
use comandas_multitenant_off.Prelude.{
  Bool-cases, inl, inr, ◌==◌, ◌&&◌, not, true, eq_of_==, ℕ, ◌≡◌, ◌≢◌, refl, false, Option, none,
  some, arith, Option-cases,
}
use comandas_multitenant_off.Prelude.Dict.{get, put, get-put_self, put-put}
use comandas_multitenant_off.Http.{ok, ◌>>=◌}
use comandas_multitenant_off.Store.{
  State, Order, OrderItem, Status, closed, is_closed, is_final, Response,
}
use comandas_multitenant_off.Store.Queries.{find_order, update_order, extend_order, fresh_order}
use comandas_multitenant_off.Idempotency.{save_idempotency}
use comandas_multitenant_off.Orders.{has_version, Request}
use comandas_multitenant_off.Orders.Items.{bump_version, push_item, append_item}
use comandas_multitenant_off.Orders.Lifecycle.{HasPlace, stepped, add_item}
use comandas_multitenant_off.Orders.Lifecycle.Serving.{Refines}

closed_is : (a : Status) → is_closed a ≡ false → a ≢ closed
closed_is a h = ground arith

keeps_place :
    (id : ℕ) (i : OrderItem) (o : Order) (s : State)
    → HasPlace id o (push_item i (bump_version o)) s
keeps_place id i o s = elim (Bool-cases (is_final o.status)) [
  | inl f ↦ inl f
  | inr f ↦ inr (inl (refl, f))
]

module _ (h : ℕ) (req : Request) (id : ℕ) (expected : Option ℕ) (item : OrderItem) where
  -- Only an order of the tenant that is not closed is written.
  fits :
      (s s' : State) (r : Response) (o : Order)
      → get id s.orders ≡ some o
      → append_item h req id expected item s ≡ (ok r, s')
      → ((o.tenant == req.tenant) ≡ true)
        × ((not (is_closed o.status) && has_version expected o.version) ≡ true)
  unfolding append_item update_order find_order ◌>>=◌
  fits s s' r o found e = elim (Bool-cases (o.tenant == req.tenant)) [
    | inr other ↦ absurd (ground arith)
    | inl owned ↦ elim (Bool-cases (not (is_closed o.status) && has_version expected o.version)) [
      | inr unfit ↦ absurd (ground arith)
      | inl fit ↦ (owned, fit)
    ]
  ]

  stores :
      (s s' : State) (r : Response) (o : Order)
      → get id s.orders ≡ some o
      → (o.tenant == req.tenant) ≡ true
      → (not (is_closed o.status) && has_version expected o.version) ≡ true
      → append_item h req id expected item s ≡ (ok r, s')
      → (s'.next_id ≡ s.next_id) × (s'.orders ≡ put id (push_item item (bump_version o)) s.orders)
  unfolding append_item update_order find_order extend_order fresh_order save_idempotency ◌>>=◌
  stores s s' r o found owned fit e =
      let moved = bump_version o in
      let new = push_item item moved in
      ground (
        arith,
        get-put_self id moved s.orders,
        get-put_self id new (put id moved s.orders),
        put-put id new moved s.orders,
      )

  writes :
      (s s' : State) (r : Response) (o : Order)
      → get id s.orders ≡ some o
      → append_item h req id expected item s ≡ (ok r, s')
      → (s'.next_id ≡ s.next_id)
        × (o.tenant ≡ req.tenant)
        × (is_closed o.status ≡ false)
        × (s'.orders ≡ put id (push_item item (bump_version o)) s.orders)
  writes s s' r o found e =
      let (owned, fit) = fits s s' r o found e in
      let (next, written) = stores s s' r o found owned fit e in
      (next, eq_of_== o.tenant req.tenant owned, ground arith, written)

  missing :
      (s s' : State) (r : Response)
      → get id s.orders ≡ none
      → append_item h req id expected item s ≡ (ok r, s')
      → ⊥
  unfolding append_item update_order find_order ◌>>=◌
  missing s s' r lost e = ground arith

  pub append_item-Refines : Refines req.tenant (append_item h req id expected item)
  append_item-Refines = record {
    at = λ s s' r e. elim (Option-cases (get id s.orders)) [
      | inl lost ↦ absurd (missing s s' r lost e)
      | inr (o, found) ↦
          let (next, owned, not_closed, written) = writes s s' r o found e in
          stepped id o (push_item item (bump_version o)) found owned
            (add_item item (closed_is o.status not_closed)) (keeps_place id item o s) written next
    ];
  }
