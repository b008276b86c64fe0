-- ===== src/Orders/Lifecycle/Tables.antt =====
-- A table has one active order at most: the exclusivity of tables under every change.
use comandas_multitenant_off.Prelude.{
  ℕ, ◌≡◌, inl, inr, refl, sym, ◌∙◌, false, some, arith, Option-cases,
}
use comandas_multitenant_off.Prelude.Dict.{Dict, get, put, get-put, find_row, find_row-none}
use comandas_multitenant_off.Store.{State, Order, is_final, occupies}
use comandas_multitenant_off.Store.Queries.{breaks_index}
use comandas_multitenant_off.Orders.Settle.{settled_order}
use comandas_multitenant_off.Pix.{paid_order}
use comandas_multitenant_off.Orders.Lifecycle.{
  Step, advance, add_item, settle, close, transfer, pay, HasPlace, Evolves, same, created, stepped,
}

-- An active order at the table.
abbrev pub SeatedAt : ℕ → Order → Type 0
SeatedAt t o = (o.table_id ≡ some t) × (is_final o.status ≡ false)

-- Two active orders of a tenant at one table are one order.
pub record IsExclusive (m : Dict Order) : Type 0 where
  pub at :
      (i j t : ℕ) (o p : Order)
      → get i m ≡ some o
      → get j m ≡ some p
      → o.tenant ≡ p.tenant
      → SeatedAt t o
      → SeatedAt t p
      → i ≡ j

-- No other order is at the place of `n`.
record HasRoom (k : ℕ) (n : Order) (m : Dict Order) : Type 0 where
  at :
      (j t : ℕ) (p : Order)
      → get j m ≡ some p
      → n.tenant ≡ p.tenant
      → SeatedAt t n
      → SeatedAt t p
      → j ≡ k

put-IsExclusive :
    (k : ℕ) (n : Order) (m : Dict Order) → IsExclusive m → HasRoom k n m → IsExclusive (put k n m)
put-IsExclusive k n m h room = record {
  at = λ i j t o p gi gj same_tenant so sp.
      ground
        (arith, get-put i k n m, get-put j k n m, h.at i j t o p, room.at j t p, room.at i t o);
}

breaks_index-HasRoom :
    (k : ℕ) (n : Order) (s : State) → breaks_index k n s ≡ false → HasRoom k n s.orders
unfolding breaks_index occupies
breaks_index-HasRoom k n s free = record {
  at = λ j t p here same_tenant sn sp.
      elim (Option-cases (find_row (occupies n.tenant t k) s.orders)) [
        | inr (row, found) ↦ absurd (ground arith)
        | inl clear ↦ ground (arith, find_row-none (occupies n.tenant t k) s.orders j p clear here)
      ];
}

pub Step-tenant : {o o' : Order} → Step o o' → o'.tenant ≡ o.tenant
unfolding settled_order paid_order
Step-tenant (advance from to user t at) = refl
Step-tenant (add_item i h) = refl
Step-tenant (settle env req a active fits) = refl
Step-tenant (close user active) = refl
Step-tenant (transfer t label h) = refl
Step-tenant (pay now id c b h e f) = refl

HasPlace-HasRoom :
    (k : ℕ) (o n : Order) (s : State)
    → IsExclusive s.orders
    → get k s.orders ≡ some o
    → n.tenant ≡ o.tenant
    → HasPlace k o n s
    → HasRoom k n s.orders
HasPlace-HasRoom k o n s h here same_tenant (inl done) = record {
  at = λ j t p there e sn sp. absurd (ground arith);
}
HasPlace-HasRoom k o n s h here same_tenant (inr (inl (stays, active))) = record {
  at = λ j t p there e sn sp.
      h.at j k t p o there here (sym (sym same_tenant ∙ e)) sp (sym stays ∙ sn.0, active);
}
HasPlace-HasRoom k o n s h here same_tenant (inr (inr free)) = breaks_index-HasRoom k n s free

-- Every change of the orders keeps the tables exclusive.
pub Evolves-IsExclusive :
    {tenant : ℕ} (s s' : State) → Evolves tenant s s' → IsExclusive s.orders → IsExclusive s'.orders
Evolves-IsExclusive s s' (same e n) h = rw e h
Evolves-IsExclusive s s' (created o new free e n) h =
    rw e (put-IsExclusive s.next_id o s.orders h (breaks_index-HasRoom s.next_id o s free))
Evolves-IsExclusive s s' (stepped id o o' here owned st place e n) h =
    rw e
      (put-IsExclusive id o' s.orders h (HasPlace-HasRoom id o o' s h here (Step-tenant st) place))
