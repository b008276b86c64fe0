-- ===== src/Guards/Tests.antt =====
-- The guards on a concrete member.
use comandas_multitenant_off.Prelude.{
  ℕ, ◌≡◌, refl, String, true, false, Option, none, some, List, [], ◌∷◌, ◌||◌,
}
use comandas_multitenant_off.Http.{ok, err, forbidden, not_member}
use comandas_multitenant_off.Store.{Role, cashier, manager, owner}
use comandas_multitenant_off.Guards.{
  Membership, SubscriptionStatus, dynamic_charge, bearer, tenant_id, Directory, Context,
  authenticate, find_membership, select_tenant, normalized_role, includes_role, has_pro, and_then,
  guard,
}
use comandas_multitenant_off.Guards.Access.{Presents, MayEnter, guard_sound, guard_complete}

abbrev ana : Membership
ana = record { user = 5; tenant = 1; role = owner; active = true }

abbrev directory : Directory
directory = record {
  memberships = ana ∷ [];
  subscriptions =
      (record { tenant = 1; is_pro = true; status = SubscriptionStatus.active; ends_at = some 90 })
      ∷ [];
}

abbrev verify : String → Option ℕ
verify token = some 5

abbrev roles : List Role
roles = cashier ∷ manager ∷ []

abbrev context : Context
context = record { user = some 5; tenant = some 1; role = some owner }

member : find_membership 5 1 directory.memberships ≡ some ana
unfolding find_membership
member = refl

entitled :
    (includes_role (normalized_role owner) roles ≡ true)
    × ((false || has_pro 60 1 directory.subscriptions) ≡ true)
unfolding normalized_role includes_role has_pro
entitled = (refl, refl)

guard_complete_example :
    guard verify directory 60 roles (some dynamic_charge) (bearer "t") (tenant_id 1) ≡ ok context
guard_complete_example =
    guard_complete verify directory 60 roles (some dynamic_charge) (bearer "t") (tenant_id 1) 5 1
      owner ("t", refl, refl, refl) (ana, member, refl, refl, entitled.0, entitled.1)

guard_sound_example :
    (u : ℕ) × (t : ℕ) × (r : Role) × (context
      ≡ record { user = some u; tenant = some t; role = some r })
    × Presents verify (bearer "t") (tenant_id 1) u t
    × MayEnter directory 60 roles (some dynamic_charge) u t r
guard_sound_example =
    guard_sound verify directory 60 roles (some dynamic_charge) (bearer "t") (tenant_id 1) context
      guard_complete_example

other_tenant :
    guard verify directory 60 roles none (bearer "t") (tenant_id 2) ≡ err (forbidden not_member)
unfolding guard authenticate select_tenant find_membership and_then
other_tenant = refl
