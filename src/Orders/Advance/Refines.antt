-- ===== src/Orders/Advance/Refines.antt =====
-- A successful status update is a step of the kitchen's path.
use comandas_multitenant_off.Prelude.{
  ℕ, String, ◌≡◌, ◌⊎◌, inl, inr, refl, true, false, none, some, arith, Option-cases, Bool-cases,
  Bool, ◌==◌, ◌&&◌, eq_of_==,
}
use comandas_multitenant_off.Prelude.Dict.{get, put, get-put_self, put-put}
use comandas_multitenant_off.Http.{ok, ◌>>=◌}
use comandas_multitenant_off.Dto.{UpdateOrderStatusDto}
use comandas_multitenant_off.Store.{
  is_final, State, Order, Status, opened, sent_to_kitchen, delivered, StatusChange, Response,
  same_status,
}
use comandas_multitenant_off.Store.Queries.{
  find_order, update_order, fresh_order, has_pending_charge,
}
use comandas_multitenant_off.Idempotency.{save_idempotency}
use comandas_multitenant_off.Orders.{Request, log, add_history, has_version}
use comandas_multitenant_off.Orders.Advance.{
  move_to, valid_transitions, find_transition, advance_status,
}
use comandas_multitenant_off.Orders.Lifecycle.{
  Transition, to_kitchen, to_table, same, stepped, advance,
}
use comandas_multitenant_off.Orders.Lifecycle.Serving.{Refines}

same_status-eq : (a b : Status) → same_status a b ≡ true → a ≡ b
same_status-eq a b h = ground arith

abbrev entry : Status → Status → Request → StatusChange
entry from to req = record { from_status = some from; to_status = to; changed_by = req.user }

starts_active : {from to : Status} → Transition from to → is_final from ≡ false
starts_active to_kitchen = refl
starts_active to_table = refl

module _ (h : ℕ) (req : Request) (id : ℕ) (body : UpdateOrderStatusDto) (from to : Status) where
  -- Nothing is written for an order of another tenant, in another status or at another version.
  stays :
      (s s' : State) (r : Response) (o : Order)
      → get id s.orders ≡ some o
      → ((o.tenant == req.tenant)
          && (same_status o.status from && has_version body.expected_version o.version))
        ≡ false
      → advance_status h req id body from to s ≡ (ok r, s')
      → (s'.next_id ≡ s.next_id) × (s'.orders ≡ s.orders)
  unfolding advance_status add_history update_order find_order fresh_order save_idempotency ◌>>=◌
  stays s s' r o found other e = elim (Bool-cases (has_pending_charge id s)) [
    | inl blocked ↦ absurd (ground arith)
    | inr clear ↦ elim (Bool-cases (o.tenant == req.tenant)) [
      | inr elsewhere ↦ ground arith
      | inl here ↦ ground arith
    ]
  ]

  moves_next :
      (s s' : State) (r : Response) (o : Order)
      → get id s.orders ≡ some o
      → (o.tenant == req.tenant) ≡ true
      → (same_status o.status from && has_version body.expected_version o.version) ≡ true
      → advance_status h req id body from to s ≡ (ok r, s')
      → s'.next_id ≡ s.next_id
  unfolding advance_status add_history update_order find_order fresh_order save_idempotency ◌>>=◌
  moves_next s s' r o found owned fits e =
      let moved = move_to to o in
      let new = log (entry from to req) moved in
      ground (
        arith,
        get-put_self id moved s.orders,
        get-put_self id new (put id moved s.orders),
        put-put id new moved s.orders,
      )

  moves_orders :
      (s s' : State) (r : Response) (o : Order)
      → get id s.orders ≡ some o
      → (o.tenant == req.tenant) ≡ true
      → (same_status o.status from && has_version body.expected_version o.version) ≡ true
      → advance_status h req id body from to s ≡ (ok r, s')
      → s'.orders ≡ put id (log (entry from to req) (move_to to o)) s.orders
  unfolding advance_status add_history update_order find_order fresh_order save_idempotency ◌>>=◌
  moves_orders s s' r o found owned fits e =
      let moved = move_to to o in
      let new = log (entry from to req) moved in
      ground (
        arith,
        get-put_self id moved s.orders,
        get-put_self id new (put id moved s.orders),
        put-put id new moved s.orders,
      )

  writes :
      (s s' : State) (r : Response) (o : Order)
      → get id s.orders ≡ some o
      → advance_status h req id body from to s ≡ (ok r, s')
      → (s'.next_id ≡ s.next_id)
        × ((s'.orders ≡ s.orders)
            ⊎ ((o.tenant ≡ req.tenant)
                × (same_status o.status from ≡ true)
                × (s'.orders ≡ put id (log (entry from to req) (move_to to o)) s.orders)))
  writes s s' r o found e =
      let fits : Bool = same_status o.status from && has_version body.expected_version o.version in
      elim (Bool-cases ((o.tenant == req.tenant) && fits)) [
        | inr other ↦ let (next, orders) = stays s s' r o found other e in (next, inl orders)
        | inl meant ↦
            let owned : (o.tenant == req.tenant) ≡ true = ground arith in
            let right : fits ≡ true = ground arith in
            (
              moves_next s s' r o found owned right e,
              inr (
                eq_of_== o.tenant req.tenant owned,
                ground arith,
                moves_orders s s' r o found owned right e,
              ),
            )
      ]

  missing :
      (s s' : State) (r : Response)
      → get id s.orders ≡ none
      → advance_status h req id body from to s ≡ (ok r, s')
      → ⊥
  unfolding advance_status update_order find_order ◌>>=◌
  missing s s' r lost e = ground arith

  -- Every success is a step along the given transition, or finds the order there already.
  pub advance_status-Refines :
      Transition from to → Refines req.tenant (advance_status h req id body from to)
  advance_status-Refines valid = record {
    at = λ s s' r e. elim (Option-cases (get id s.orders)) [
      | inl lost ↦ absurd (missing s s' r lost e)
      | inr (o, found) ↦
          let (next, effect) = writes s s' r o found e in
          elim effect [
            | inl unchanged ↦ same unchanged next
            | inr (owned, at_from, written) ↦
                let there = same_status-eq o.status from at_from in
                stepped id o (log (entry from to req) (move_to to o)) found owned
                  (advance from to req.user valid there)
                  (inr (inl (refl, rw there (starts_active valid)))) written next
          ]
    ];
  }

pick :
    (next : String) (from to : Status)
    → find_transition next valid_transitions ≡ some (from, to)
    → ((from ≡ opened) × (to ≡ sent_to_kitchen)) ⊎ ((from ≡ sent_to_kitchen) × (to ≡ delivered))
unfolding find_transition
pick next from to e = ground arith

-- The table of transitions holds just the kitchen's path.
pub find_transition-Transition :
    (next : String) (from to : Status)
    → find_transition next valid_transitions ≡ some (from, to)
    → Transition from to
find_transition-Transition next from to e = elim (pick next from to e) [
  | inl (p, q) ↦ rw (p, q) to_kitchen
  | inr (p, q) ↦ rw (p, q) to_table
]
