-- ===== src/Staff/Settings.antt =====
-- backend/src/admin.controller.ts, `SettingsController`: what a tenant's subscription allows, and the
-- discount limit of its cashiers. The subscriptions come in the order of the query, newest first.
use comandas_multitenant_off.Orders.Settle.Limit.{settle_order-limit, IsWithinLimit}
use comandas_multitenant_off.Orders.Settle.{settle_order}
use comandas_multitenant_off.Store.Queries.{find_order}
use comandas_multitenant_off.Dto.{SettleOrderDto}
use comandas_multitenant_off.Orders.{Env, Request, is_active}
use comandas_multitenant_off.Prelude.{
  subst, ℕ, ◌≡◌, Bool, true, false, Option, none, some, List, [], ◌∷◌, arith, ◌==◌, ◌&&◌, leb,
  if◌then◌else◌,
}
use comandas_multitenant_off.Prelude.Dict.{get, put, get-put, get-put_self}
use comandas_multitenant_off.Http.{ok, err, record_missing, Exec}
use comandas_multitenant_off.Store.{items_subtotal, Order, Response, cashier, State}
use comandas_multitenant_off.Guards.{
  Subscription, SubscriptionStatus, is_current, not_ended, has_pro,
}
use comandas_multitenant_off.Orders.Discount.{discount_limit}

pub record UpdateDiscountPolicyDto : Type 0 where
  pub cashier_discount_limit_bps : ℕ

-- `@IsInt() @Min(0) @Max(10000)`
unfoldable pub is_valid_policy : UpdateDiscountPolicyDto → Bool
is_valid_policy body = leb body.cashier_discount_limit_bps 10000

-- `discountPolicy`
unfoldable pub discount_policy : ℕ → Exec State ℕ
discount_policy tenant s = elim (get tenant s.discount_limits) [
  | none ↦ (err record_missing, s)
  | some n ↦ (ok n, s)
]

-- `updateDiscountPolicy`
unfoldable pub update_discount_policy : ℕ → UpdateDiscountPolicyDto → Exec State ℕ
update_discount_policy tenant body s = elim (get tenant s.discount_limits) [
  | none ↦ (err record_missing, s)
  | some old ↦ (
    ok body.cashier_discount_limit_bps,
    record s { discount_limits = put tenant body.cashier_discount_limit_bps s.discount_limits },
  )
]

-- `tenantSubscription.findFirst({ where, orderBy: { starts_at: 'desc' } })`
unfoldable pub current_subscription : ℕ → ℕ → List Subscription → Option Subscription
current_subscription now tenant [] = none
current_subscription now tenant (s ∷ ss) =
    if (s.tenant == tenant) && is_current s.status && not_ended now s.ends_at
    then some s
    else current_subscription now tenant ss

pub record Entitlements : Type 0 where
  pub is_pro : Bool
  pub status : Option SubscriptionStatus
  pub accounts_payable : Bool
  pub profit_margin : Bool
  pub dynamic_pix : Bool

entitlements_of : Option Subscription → Entitlements
entitlements_of none = record {
  is_pro = false;
  status = none;
  accounts_payable = false;
  profit_margin = false;
  dynamic_pix = false;
}
entitlements_of (some s) = record {
  is_pro = s.is_pro;
  status = some s.status;
  accounts_payable = s.is_pro;
  profit_margin = s.is_pro;
  dynamic_pix = s.is_pro;
}

-- `entitlements`
unfoldable pub entitlements : ℕ → ℕ → List Subscription → Entitlements
unfolding entitlements_of
entitlements now tenant subscriptions =
    entitlements_of (current_subscription now tenant subscriptions)

-- What the settings show as allowed, the guard of the features lets pass.
pub entitlements-has_pro :
    (now tenant : ℕ) (subscriptions : List Subscription)
    → (entitlements now tenant subscriptions).is_pro ≡ true
    → has_pro now tenant subscriptions ≡ true
unfolding entitlements current_subscription has_pro
entitlements-has_pro now tenant [] h = absurd (ground arith)
entitlements-has_pro now tenant (s ∷ ss) h = ground (arith, entitlements-has_pro now tenant ss)

-- A newer free subscription hides an older one of the plan Pro: the settings show its features as
-- not allowed, while the guard lets them pass.
pub free_hides_pro :
    (now tenant : ℕ) (s : Subscription) (ss : List Subscription)
    → s.tenant ≡ tenant
    → s.is_pro ≡ false
    → is_current s.status ≡ true
    → not_ended now s.ends_at ≡ true
    → has_pro now tenant ss ≡ true
    → ((entitlements now tenant (s ∷ ss)).accounts_payable ≡ false)
      × (has_pro now tenant (s ∷ ss) ≡ true)
unfolding entitlements current_subscription has_pro
free_hides_pro now tenant s ss here free current running older = ground arith

-- Once a limit is set, and while the limits stay as they are, an order that a cashier of the tenant
-- settles is closed with a discount of at most that share of its items' subtotal. Other tenants
-- keep their limits.
pub update_discount_policy_binds :
    (env : Env) (req : Request) (id other : ℕ) (policy : UpdateDiscountPolicyDto)
    (body : SettleOrderDto) (s s' u u' : State) (n : ℕ) (r : Response) (o : Order)
    → req.role ≡ some cashier
    → update_discount_policy req.tenant policy s ≡ (ok n, s')
    → u.discount_limits ≡ s'.discount_limits
    → find_order req.tenant id u ≡ some o
    → is_active o.status ≡ true
    → settle_order env req id body u ≡ (ok r, u')
    → ((new : Order) × (get id u'.orders ≡ some new)
        × IsWithinLimit policy.cashier_discount_limit_bps (items_subtotal o.items) new)
      × (discount_limit other s' ≡ (
          if req.tenant == other
          then policy.cashier_discount_limit_bps
          else discount_limit other s))
unfolding update_discount_policy
update_discount_policy_binds env req id other policy body s s' u u' n r o role e kept found active
      settled =
    let limit : discount_limit req.tenant u ≡ policy.cashier_discount_limit_bps =
      ground (arith, get-put_self req.tenant policy.cashier_discount_limit_bps s.discount_limits) in
    let (new, there, within) =
      settle_order-limit env req id body u u' r o role found active settled in
    (
      (new, there, subst (λ k. IsWithinLimit k (items_subtotal o.items) new) limit within),
      ground (arith, get-put other req.tenant policy.cashier_discount_limit_bps s.discount_limits),
    )
