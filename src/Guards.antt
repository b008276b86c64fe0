-- ===== src/Guards.antt =====
-- The guards that run before a handler, in the order AuthGuard, TenantGuard, RolesGuard and
-- FeatureGuard: backend/src/auth.guard.ts, tenant.guard.ts, roles.guard.ts and feature.guard.ts.
-- Verifying a token is a parameter: it gives the user's id or throws. `roles` and `feature` are what
-- the decorators of a handler name.
pub mod Access
mod Tests
use comandas_multitenant_off.Prelude.{
  ℕ, ◌==◌, String, Bool, true, false, Option, none, some, List, [], ◌∷◌, ◌&&◌, ◌||◌, ltb,
  if◌then◌else◌,
}
use comandas_multitenant_off.Http.{
  Result, ok, err, forbidden, unauthorized, tenant_missing, not_member, role_denied,
  tenant_not_selected, pro_required, not_authenticated, token_missing, token_invalid,
}
use comandas_multitenant_off.Store.{Role, waiter, kitchen, cashier, manager, owner, admin}

-- `UserTenant`
pub record Membership : Type 0 where
  pub user : ℕ
  pub tenant : ℕ
  pub role : Role
  pub active : Bool

pub data SubscriptionStatus : Type 0 where
  trialing active past_due canceled : SubscriptionStatus

pub record Subscription : Type 0 where
  pub tenant : ℕ
  pub is_pro : Bool
  pub status : SubscriptionStatus
  pub ends_at : Option ℕ

pub data Feature : Type 0 where
  accounts_payable profit_margin dynamic_charge other_feature : Feature

-- `authorization`: missing or of another scheme, or `Bearer` with a token
pub data Authorization : Type 0 where
  no_bearer : Authorization
  bearer : String → Authorization

-- The header `x-tenant-id`: missing or empty, one id, or several with the first one.
pub data TenantHeader : Type 0 where
  no_tenant : TenantHeader
  tenant_id : ℕ → TenantHeader

pub record Directory : Type 0 where
  pub memberships : List Membership
  pub subscriptions : List Subscription

-- What the guards leave on the request.
pub record Context : Type 0 where
  pub user : Option ℕ
  pub tenant : Option ℕ
  pub role : Option Role

abbrev pub anonymous : Context
anonymous = record { user = none; tenant = none; role = none }

-- `AuthGuard.canActivate`
unfoldable pub authenticate : (String → Option ℕ) → Authorization → Context → Result Context
authenticate verify no_bearer c = err (unauthorized token_missing)
authenticate verify (bearer token) c = elim (verify token) [
  | none ↦ err (unauthorized token_invalid)
  | some user ↦ ok (record c { user = some user })
]

-- `userTenant.findUnique({ where: { userId_tenantId } })`
unfoldable pub find_membership : ℕ → ℕ → List Membership → Option Membership
find_membership user tenant [] = none
find_membership user tenant (m ∷ ms) =
    if (m.user == user) && (m.tenant == tenant) then some m else find_membership user tenant ms

admit : ℕ → Option Membership → Context → Result Context
admit tenant none c = err (forbidden not_member)
admit tenant (some m) c =
    if m.active
    then ok (record c { tenant = some tenant; role = some m.role })
    else err (forbidden not_member)

-- `TenantGuard.canActivate`
unfoldable pub select_tenant : Directory → TenantHeader → Context → Result Context
unfolding admit
select_tenant d no_tenant c = err (forbidden tenant_missing)
select_tenant d (tenant_id t) c = elim c.user [
  | none ↦ err (unauthorized not_authenticated)
  | some u ↦ admit t (find_membership u t d.memberships) c
]

-- `ROLE_ALIASES`
unfoldable pub normalized_role : Role → Role
normalized_role owner = manager
normalized_role admin = manager
normalized_role r = r

abbrev pub same_role : Role → Role → Bool
same_role waiter waiter = true
same_role kitchen kitchen = true
same_role cashier cashier = true
same_role manager manager = true
same_role r q = false

unfoldable pub includes_role : Role → List Role → Bool
includes_role r [] = false
includes_role r (q ∷ qs) = same_role r q || includes_role r qs

allow : List Role → Option Role → Context → Result Context
allow roles none c = err (forbidden role_denied)
allow roles (some r) c =
    if includes_role (normalized_role r) roles then ok c else err (forbidden role_denied)

-- `RolesGuard.canActivate`: a handler that names no roles is open to all.
unfoldable pub check_roles : List Role → Context → Result Context
unfolding allow
check_roles [] c = ok c
check_roles (r ∷ roles) c = allow (r ∷ roles) c.role c

-- `PRO_FEATURES`
abbrev pub is_pro_feature : Feature → Bool
is_pro_feature other_feature = false
is_pro_feature f = true

abbrev pub is_current : SubscriptionStatus → Bool
is_current trialing = true
is_current active = true
is_current s = false

abbrev pub not_ended : ℕ → Option ℕ → Bool
not_ended now none = true
not_ended now (some end) = ltb now end

-- `tenantSubscription.findFirst({ where: { tenantId, plan: 'pro', ... } })`, found or not
unfoldable pub has_pro : ℕ → ℕ → List Subscription → Bool
has_pro now tenant [] = false
has_pro now tenant (s ∷ ss) =
    ((s.tenant == tenant) && s.is_pro && is_current s.status && not_ended now s.ends_at)
    || has_pro now tenant ss

require_pro : Directory → ℕ → Option ℕ → Context → Result Context
require_pro d now none c = err (forbidden tenant_not_selected)
require_pro d now (some t) c =
    if has_pro now t d.subscriptions then ok c else err (forbidden pro_required)

-- `FeatureGuard.canActivate`
unfoldable pub check_feature : Directory → ℕ → Option Feature → Context → Result Context
unfolding require_pro
check_feature d now none c = ok c
check_feature d now (some f) c = if is_pro_feature f then require_pro d now c.tenant c else ok c

unfoldable pub and_then : Result Context → (Context → Result Context) → Result Context
and_then (err e) f = err e
and_then (ok c) f = f c

-- `@UseGuards(AuthGuard, TenantGuard, RolesGuard, FeatureGuard)`
unfoldable pub guard :
    (String → Option ℕ)
    → Directory
    → ℕ
    → List Role
    → Option Feature
    → Authorization
    → TenantHeader
    → Result Context
guard verify d now roles feature auth header =
    and_then
      (and_then (and_then (authenticate verify auth anonymous) (select_tenant d header))
        (check_roles roles))
      (check_feature d now feature)
