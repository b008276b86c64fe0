-- ===== src/Guards/Access.antt =====
-- Who passes the guards: backend/src/tenant.guard.ts, roles.guard.ts and feature.guard.ts together.
use comandas_multitenant_off.Prelude.{
  ℕ, ◌≡◌, inl, inr, refl, String, Bool, true, Option, none, some, List, [], ◌∷◌, arith, ◌||◌, not,
  Bool-cases, Option-cases,
}
use comandas_multitenant_off.Http.{ok}
use comandas_multitenant_off.Store.{Role}
use comandas_multitenant_off.Guards.{
  Membership, Feature, Authorization, no_bearer, bearer, TenantHeader, no_tenant, tenant_id,
  Directory, Context, authenticate, find_membership, select_tenant, normalized_role, includes_role,
  check_roles, is_pro_feature, has_pro, check_feature, and_then, guard,
}

-- The role is one that the handler names, where it names any.
abbrev pub is_allowed : List Role → Role → Bool
is_allowed [] r = true
is_allowed (q ∷ qs) r = includes_role (normalized_role r) (q ∷ qs)

-- The tenant has the plan that the handler asks for.
abbrev pub is_entitled : Directory → ℕ → Option Feature → ℕ → Bool
is_entitled d now none t = true
is_entitled d now (some f) t = not (is_pro_feature f) || has_pro now t d.subscriptions

-- The request is authenticated as the user `u`, and names the tenant `t`.
abbrev pub Presents : (String → Option ℕ) → Authorization → TenantHeader → ℕ → ℕ → Type 0
Presents verify auth header u t =
    (token : String) × (auth ≡ bearer token) × (verify token ≡ some u) × (header ≡ tenant_id t)

-- An active membership of the user whose role is allowed, in a tenant with the plan.
abbrev pub MayEnter : Directory → ℕ → List Role → Option Feature → ℕ → ℕ → Role → Type 0
MayEnter d now roles feature u t r =
    (m : Membership) × (find_membership u t d.memberships ≡ some m)
    × (m.active ≡ true)
    × (m.role ≡ r)
    × (is_allowed roles r ≡ true)
    × (is_entitled d now feature t ≡ true)

abbrev entered : ℕ → ℕ → Role → Context
entered u t r = record { user = some u; tenant = some t; role = some r }

roles_and_plan :
    (d : Directory) (now : ℕ) (roles : List Role) (feature : Option Feature) (u t : ℕ) (r : Role)
    (c : Context)
    → and_then (check_roles roles (entered u t r)) (check_feature d now feature) ≡ ok c
    → (c ≡ entered u t r) × (is_allowed roles r ≡ true) × (is_entitled d now feature t ≡ true)
unfolding check_roles check_feature and_then
roles_and_plan d now [] none u t r c h = ground arith
roles_and_plan d now [] (some f) u t r c h = ground arith
roles_and_plan d now (q ∷ qs) none u t r c h = ground arith
roles_and_plan d now (q ∷ qs) (some f) u t r c h = ground arith

-- A request passes only as an active member of the tenant it names, with an allowed role and the
-- plan, and what the guards leave on it are that user, tenant and role.
pub guard_sound :
    (verify : String → Option ℕ) (d : Directory) (now : ℕ) (roles : List Role)
    (feature : Option Feature) (auth : Authorization) (header : TenantHeader) (c : Context)
    → guard verify d now roles feature auth header ≡ ok c
    → (u : ℕ) × (t : ℕ) × (r : Role) × (c ≡ entered u t r)
      × Presents verify auth header u t
      × MayEnter d now roles feature u t r
unfolding guard authenticate select_tenant and_then
guard_sound verify d now roles feature no_bearer header c h = absurd (ground arith)
guard_sound verify d now roles feature (bearer token) no_tenant c h =
    elim (Option-cases (verify token)) [
      | inl n ↦ absurd (ground arith)
      | inr (u, v) ↦ absurd (ground arith)
    ]
guard_sound verify d now roles feature (bearer token) (tenant_id t) c h =
    elim (Option-cases (verify token)) [
      | inl n ↦ absurd (ground arith)
      | inr (u, v) ↦ elim (Option-cases (find_membership u t d.memberships)) [
        | inl n ↦ absurd (ground arith)
        | inr (m, g) ↦ elim (Bool-cases m.active) [
          | inr off ↦ absurd (ground arith)
          | inl on ↦
              let (e, a, b) = roles_and_plan d now roles feature u t m.role c (ground arith) in
              (u, t, m.role, e, (token, refl, v, refl), (m, g, on, refl, a, b))
        ]
      ]
    ]

-- Every such request passes.
pub guard_complete :
    (verify : String → Option ℕ) (d : Directory) (now : ℕ) (roles : List Role)
    (feature : Option Feature) (auth : Authorization) (header : TenantHeader) (u t : ℕ) (r : Role)
    → Presents verify auth header u t
    → MayEnter d now roles feature u t r
    → guard verify d now roles feature auth header ≡ ok (entered u t r)
unfolding guard authenticate select_tenant check_roles check_feature and_then
guard_complete verify d now [] none auth header u t r (token, e, v, n) (m, g, on, q, a, b) =
    ground arith
guard_complete verify d now [] (some f) auth header u t r (token, e, v, n) (m, g, on, q, a, b) =
    ground arith
guard_complete verify d now (x ∷ xs) none auth header u t r (token, e, v, n) (m, g, on, q, a, b) =
    ground arith
guard_complete verify d now (x ∷ xs) (some f) auth header u t r (token, e, v, n)
      (m, g, on, q, a, b) =
    ground arith
