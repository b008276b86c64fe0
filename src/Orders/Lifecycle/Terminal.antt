-- ===== src/Orders/Lifecycle/Terminal.antt =====
-- What no request undoes: a closed order stays as it is, versions only grow, and a request touches
-- the orders of its own tenant alone.
use comandas_multitenant_off.Prelude.{
  ap, ℕ, ◌+◌, ◌≤◌, ◌≡◌, ◌≢◌, inl, inr, refl, sym, ◌∙◌, some, ◌==◌, arith, Bool-cases,
}
use comandas_multitenant_off.Prelude.Dict.{get, get-put}
use comandas_multitenant_off.Store.{State, Order, Status, closed}
use comandas_multitenant_off.Orders.Settle.{settled_order}
use comandas_multitenant_off.Pix.{paid_order}
use comandas_multitenant_off.Orders.Lifecycle.{
  Transition, to_kitchen, to_table, Step, advance, add_item, settle, close, transfer, pay, Evolves,
  same, created, stepped,
}
use comandas_multitenant_off.Orders.Lifecycle.Invariant.{IsValid}

-- Each step counts the version up by one.
pub Step-version : {o o' : Order} → Step o o' → o'.version ≡ o.version + 1
unfolding settled_order paid_order
Step-version (advance from to user t at) = refl
Step-version (add_item i h) = refl
Step-version (settle env req a active fits) = refl
Step-version (close user active) = refl
Step-version (transfer t label h) = refl
Step-version (pay now id c b h e f) = refl

from_open : {from to : Status} → Transition from to → from ≢ closed
from_open to_kitchen e = cc
from_open to_table e = cc

-- A closed order takes no step.
pub Step-not_closed : {o o' : Order} → Step o o' → o.status ≢ closed
Step-not_closed (advance from to user t at) e = from_open t (sym at ∙ e)
Step-not_closed (add_item i h) e = h e
Step-not_closed (settle env req a active fits) e = ground arith
Step-not_closed (close user active) e = ground arith
Step-not_closed (transfer t label h) e = ground arith
Step-not_closed (pay now id c b h q f) e = ground arith

-- The order is there still, no older, and unchanged where it was closed or is of another tenant.
pub record Persists (tenant id : ℕ) (o : Order) (s' : State) : Type 0 where
  pub now : Order
  pub found : get id s'.orders ≡ some now
  pub no_older : o.version ≤ now.version
  pub closed_stays : o.status ≡ closed → now ≡ o
  pub others_stay : o.tenant ≢ tenant → now ≡ o

Persists-same :
    (tenant id : ℕ) (o : Order) (s' : State) → get id s'.orders ≡ some o → Persists tenant id o s'
Persists-same tenant id o s' e = record {
  now = o;
  found = e;
  no_older = omega arith;
  closed_stays = λ _. refl;
  others_stay = λ _. refl;
}

-- Every change of the orders lets each order persist.
pub Evolves-Persists :
    {tenant : ℕ} (s s' : State) (id : ℕ) (o : Order)
    → IsValid s
    → Evolves tenant s s'
    → get id s.orders ≡ some o
    → Persists tenant id o s'
Evolves-Persists {tenant} s s' id o v (same e n) here = Persists-same tenant id o s' (rw e here)
Evolves-Persists {tenant} s s' id o v (created new fresh free e n) here =
    Persists-same tenant id o s'
      (rw e (ground (arith, get-put id s.next_id new s.orders, v.fresh id o here)))
Evolves-Persists {tenant} s s' id o v (stepped j p p' at owned st place e n) here =
    elim (Bool-cases (j == id)) [
      | inr other ↦ Persists-same tenant id o s' (rw e (ground (arith, get-put id j p' s.orders)))
      | inl this ↦
          let same_order : p ≡ o = ground arith in
          record {
            now = p';
            found = rw e (ground (arith, get-put id j p' s.orders));
            no_older = omega (arith, Step-version st, ap (λ (q : Order). q.version) same_order);
            closed_stays =
                λ c. absurd (Step-not_closed st (ap (λ (q : Order). q.status) same_order ∙ c));
            others_stay = λ c. absurd (c (ap (λ (q : Order). q.tenant) (sym same_order) ∙ owned));
          }
    ]
