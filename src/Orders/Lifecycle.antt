-- ===== src/Orders/Lifecycle.antt =====
-- The life of an order as a state machine, and what a request may do to the table of orders. The
-- handlers are proved against these relations in the modules below each of them.
pub mod Serving
pub mod Handlers
pub mod Tables
pub mod Invariant
pub mod Terminal
pub mod Runs
use comandas_multitenant_off.Prelude.{
  ℕ, suc, ◌+◌, ◌-◌, ◌≤◌, ◌<◌, ◌≡◌, ◌≢◌, ◌⊎◌, String, Bool, true, false, Option, none, some, List,
  [], ◌∷◌, map,
}
use comandas_multitenant_off.Prelude.Dict.{get, put}
use comandas_multitenant_off.Store.{
  State, Order, OrderItem, PixCharge, Status, opened, sent_to_kitchen, delivered, closed, canceled,
  StatusChange, is_final, items_subtotal,
}
use comandas_multitenant_off.Store.Queries.{breaks_index}
use comandas_multitenant_off.Financial.Totals.{IsBalanced}
use comandas_multitenant_off.Financial.Payments.{IsTallied}
use comandas_multitenant_off.Orders.{Env, Request, is_active, log}
use comandas_multitenant_off.Orders.Advance.{move_to}
use comandas_multitenant_off.Orders.Items.{bump_version, push_item}
use comandas_multitenant_off.Orders.Settle.{Settlement, settled_order, add_payments, payment_row}
use comandas_multitenant_off.Orders.Transfer.{move_table}
use comandas_multitenant_off.Pix.{paid_order, pix_payment, closing_entry}
use comandas_multitenant_off.Financial.{Bill}
use comandas_multitenant_off.Orders.Close.{close_directly}

-- The kitchen's path.
pub data Transition : Status → Status → Type 0 where
  to_kitchen : Transition opened sent_to_kitchen
  to_table : Transition sent_to_kitchen delivered

-- A settlement fits an order: the bill is that of its items and balanced, and the payments are
-- sound and add up to the bill's total.
pub record Fits (a : Settlement) (o : Order) : Type 0 where
  pub of_items : a.bill.subtotal_cents ≡ items_subtotal o.items
  pub balanced : IsBalanced a.bill
  pub paid : a.check.total_paid_cents ≡ a.bill.total_cents
  pub tallied : IsTallied a.check

-- One step of an order.
pub data Step (o : Order) : Order → Type 0 where
  advance :
      (from to : Status) (user : Option ℕ)
      → Transition from to
      → o.status ≡ from
      → Step o (
          log
            (record { from_status = some from; to_status = to; changed_by = user })
            (move_to to o))
  add_item : (i : OrderItem) → o.status ≢ closed → Step o (push_item i (bump_version o))
  settle :
      (env : Env) (req : Request) (a : Settlement)
      → is_active o.status ≡ true
      → Fits a o
      → Step o (
          log
            (record { from_status = some o.status; to_status = closed; changed_by = req.user })
            (add_payments (map payment_row a.check.payments) (settled_order env req a o)))
  close :
      (user : Option ℕ)
      → is_active o.status ≡ true
      → Step o (
          log
            (record { from_status = none; to_status = closed; changed_by = user })
            (close_directly o))
  transfer : (t : ℕ) (label : String) → is_final o.status ≡ false → Step o (move_table t label o)
  pay :
      (now id : ℕ) (c : PixCharge) (b : Bill)
      → is_final o.status ≡ false
      → b.subtotal_cents ≡ items_subtotal o.items
      → IsBalanced b
      → Step o (log (closing_entry o) (add_payments (pix_payment id b ∷ []) (paid_order now c b o)))

-- A new order.
pub record IsNew (tenant : ℕ) (o : Order) : Type 0 where
  pub owned : o.tenant ≡ tenant
  pub opens : o.status ≡ opened
  pub first_version : o.version ≡ 1
  pub no_payments : o.payments ≡ []
  pub not_settled : o.settled_at ≡ none
  pub first_entry :
      (u : Option ℕ) × (o.history
        ≡ record { from_status = none; to_status = opened; changed_by = u } ∷ [])

-- The order's place is free, or it takes no new one.
abbrev pub HasPlace : ℕ → Order → Order → State → Type 0
HasPlace id o o' s =
    (is_final o'.status ≡ true)
    ⊎ ((o'.table_id ≡ o.table_id) × (is_final o.status ≡ false))
    ⊎ (breaks_index id o' s ≡ false)

-- What one committed request of a tenant may do to the orders.
pub data Evolves (tenant : ℕ) (s : State) (s' : State) : Type 0 where
  same : s'.orders ≡ s.orders → s'.next_id ≡ s.next_id → Evolves tenant s s'
  created :
      (o : Order)
      → IsNew tenant o
      → breaks_index s.next_id o s ≡ false
      → s'.orders ≡ put s.next_id o s.orders
      → s'.next_id ≡ suc s.next_id
      → Evolves tenant s s'
  stepped :
      (id : ℕ) (o o' : Order)
      → get id s.orders ≡ some o
      → o.tenant ≡ tenant
      → Step o o'
      → HasPlace id o o' s
      → s'.orders ≡ put id o' s.orders
      → s'.next_id ≡ s.next_id
      → Evolves tenant s s'
