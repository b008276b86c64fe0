-- ===== src/Staff.antt =====
-- backend/src/admin.controller.ts: the employees of a tenant, and its settings. The state is what
-- these endpoints and the gateway use: users, memberships and connected sockets. `toLowerCase` is
-- that of ASCII letters. `between` is what other requests commit between a handler's look and its
-- write; the salt of a new password is an argument.
pub mod Sockets
pub mod Access
pub mod Members
pub mod Lockout
pub mod Settings
pub mod Printers
mod Tests
mod SettingsTests
use Prim.Native.Char.{Char, code}
use Prim.Native.String.{char_at}
use text.Mathlib.Text.{◌==◌ as str_eq}
use comandas_multitenant_off.Prelude.{
  ℕ, suc, ◌-◌, String, Bool, true, false, Option, none, some, List, [], ◌∷◌, ◌++◌, map, ◌==◌, ◌&&◌,
  not, leb, is_some, is_id, ◌||◌, if◌then◌else◌,
}
use comandas_multitenant_off.Prelude.Dict.{Dict, get, put, find_row}
use comandas_multitenant_off.Prelude.Lists.{keep}
use comandas_multitenant_off.Prelude.Trim.{trim, is_blank}
use comandas_multitenant_off.Http.{
  ok, err, conflict, not_found, bad_request, unique_violation, record_missing, employee_exists,
  employee_not_found, own_access, Exec, pure, raise_if, gets, or_raise, transaction, modify, ◌>>=◌,
  ◌>>◌,
}
use comandas_multitenant_off.Store.{Role}
use comandas_multitenant_off.Catalog.{or_same}
use comandas_multitenant_off.Guards.{Membership, find_membership}
use comandas_multitenant_off.Sessions.{User, Crypto, hash_password}

-- A connected socket in the room of a tenant, with its `data`.
pub record Socket : Type 0 where
  pub id : ℕ
  pub user : ℕ
  pub tenant : ℕ
  pub role : Role

pub record Team : Type 0 where
  pub next_id : ℕ
  pub users : Dict User
  pub memberships : List Membership
  pub sockets : List Socket

pub record CreateEmployeeDto : Type 0 where
  pub name : String
  pub email : String
  pub password : String
  pub role : Role

pub record UpdateEmployeeDto : Type 0 where
  pub name : Option String
  pub role : Option Role
  pub active : Option Bool

-- What the endpoints answer with.
pub record Employee : Type 0 where
  pub id : ℕ
  pub name : String
  pub email : String
  pub role : Role
  pub active : Bool
  pub existing_account : Bool

lower_char : Char → Char
lower_char c =
    if leb 65 (code c) && leb (code c) 90
    then char_at "abcdefghijklmnopqrstuvwxyz" (code c - 65)
    else c

-- `toLowerCase`
unfoldable pub lower : String → String
unfolding lower_char
lower String.[] = ""
lower (String.◌∷◌ c s) = String.◌∷◌ (lower_char c) (lower s)

-- `user.findUnique({ where: { email } })`
unfoldable pub find_email : String → Team → Option (ℕ × User)
find_email email t = find_row (λ id u. str_eq u.email email) t.users

unfoldable pub is_member : ℕ → ℕ → Team → Bool
is_member user tenant t = is_some (find_membership user tenant t.memberships)

-- `userTenant.create`, with the unique key (user, tenant)
unfoldable pub insert_membership : Membership → Exec Team (Unit {0})
insert_membership m t =
    if is_member m.user m.tenant t
    then (err unique_violation, t)
    else (ok tt, record t { memberships = t.memberships ++ m ∷ [] })

-- `user.create` with its first membership; the id is new
unfoldable pub insert_user : User → ℕ → Role → Exec Team ℕ
insert_user u tenant role t =
    if is_some (find_email u.email t) then (err unique_violation, t) else (
      ok t.next_id,
      record t {
        next_id = suc t.next_id;
        users = put t.next_id u t.users;
        memberships =
            t.memberships
            ++ record { user = t.next_id; tenant = tenant; role = role; active = true } ∷ [];
      },
    )

-- An account that is there already gets a membership.
unfoldable pub hire : (Team → Team) → ℕ → CreateEmployeeDto → ℕ × User → Exec Team Employee
hire between tenant body (id, u) = do
  known ← gets (is_member id tenant)
  raise_if known (conflict employee_exists)
  modify between
  insert_membership (record { user = id; tenant = tenant; role = body.role; active = true })
  pure (record {
    id = id;
    name = u.name;
    email = u.email;
    role = body.role;
    active = true;
    existing_account = true;
  })

unfoldable pub register :
    Crypto → List ℕ → (Team → Team) → ℕ → CreateEmployeeDto → Exec Team Employee
register c salt between tenant body = do
  modify between
  id ←
      insert_user
        (record {
          name = trim body.name;
          email = lower (trim body.email);
          password = hash_password c salt body.password;
        })
        tenant body.role
  pure (record {
    id = id;
    name = trim body.name;
    email = lower (trim body.email);
    role = body.role;
    active = true;
    existing_account = false;
  })

-- `EmployeesController.create`
unfoldable pub create_employee :
    Crypto → List ℕ → (Team → Team) → ℕ → CreateEmployeeDto → Exec Team Employee
create_employee c salt between tenant body = do
  existing ← gets (find_email (lower (trim body.email)))
  elim existing [
    | none ↦ register c salt between tenant body
    | some row ↦ hire between tenant body row
  ]

-- The memberships with that of the user in the tenant changed.
unfoldable pub change_member : ℕ → ℕ → (Membership → Membership) → List Membership → List Membership
change_member user tenant f [] = []
change_member user tenant f (m ∷ ms) =
    (if (m.user == user) && (m.tenant == tenant) then f m else m) ∷ change_member user tenant f ms

-- `disconnectUserFromTenant`
unfoldable pub disconnect_user : ℕ → ℕ → Team → Team
disconnect_user user tenant t = record t {
  sockets = keep (λ s. not ((s.user == user) && (s.tenant == tenant))) t.sockets;
}

-- `body.active === false`
unfoldable pub deactivates : Option Bool → Bool
deactivates none = false
deactivates (some on) = not on

rename : ℕ → Option String → Exec Team (Unit {0})
rename user none t = (ok tt, t)
rename user (some n) t = if is_blank n then (ok tt, t) else elim (get user t.users) [
  | none ↦ (err record_missing, t)
  | some u ↦ (ok tt, record t { users = put user (record u { name = trim n }) t.users })
]

unfoldable pub set_member : UpdateEmployeeDto → Membership → Membership
set_member body m = record m {
  role = or_same body.role m.role;
  active = or_same body.active m.active;
}

write_member : ℕ → ℕ → UpdateEmployeeDto → Exec Team (Unit {0})
write_member user tenant body t =
    if is_some body.role || is_some body.active
    then (if is_member user tenant t
        then (
          ok tt,
          record t { memberships = change_member user tenant (set_member body) t.memberships },
        )
        else (err record_missing, t))
    else (ok tt, t)

drop_sockets : Bool → ℕ → ℕ → Exec Team (Unit {0})
drop_sockets true user tenant t = (ok tt, disconnect_user user tenant t)
drop_sockets false user tenant t = (ok tt, t)

-- `EmployeesController.update`
unfoldable pub update_employee :
    (Team → Team) → ℕ → Option ℕ → ℕ → UpdateEmployeeDto → Exec Team Membership
unfolding rename write_member drop_sockets
update_employee between tenant caller user body = do
  found ← gets (λ t. find_membership user tenant t.memberships)
  or_raise found (not_found employee_not_found)
  raise_if (is_id caller user && deactivates body.active) (bad_request own_access)
  modify between
  transaction do rename user body.name; write_member user tenant body
  updated ← gets (λ t. find_membership user tenant t.memberships)
  m ← or_raise updated record_missing
  drop_sockets (deactivates body.active) user tenant
  pure m

abbrev pub inactive : Membership → Membership
inactive m = record m { active = false }

deactivate_member : ℕ → ℕ → Exec Team (Unit {0})
deactivate_member user tenant t =
    if is_member user tenant t
    then (ok tt, record t { memberships = change_member user tenant inactive t.memberships })
    else (err (not_found employee_not_found), t)

-- `EmployeesController.deactivate`
unfoldable pub deactivate : ℕ → Option ℕ → ℕ → Exec Team (Unit {0})
unfolding deactivate_member
deactivate tenant caller user = do
  raise_if (is_id caller user) (bad_request own_access)
  deactivate_member user tenant
  modify (disconnect_user user tenant)
