-- ===== src/Staff/Sockets.antt =====
-- backend/src/orders.gateway.ts: the handshake of a socket. The validation of an origin and the
-- verification of a token are parameters; `between` is what other requests commit between the
-- lookup of the membership and the join.
use comandas_multitenant_off.Prelude.{
  ℕ, ◌*◌, String, Bool, true, false, Option, none, some, [], ◌∷◌, ◌++◌, leb, if◌then◌else◌,
}
use comandas_multitenant_off.Store.{Role, waiter, kitchen, cashier, manager}
use comandas_multitenant_off.Guards.{Membership, find_membership, normalized_role, includes_role}
use comandas_multitenant_off.Staff.{Team, Socket}

-- `handshake.auth`; `tenant` is missing where it is no text or blank
pub record Handshake : Type 0 where
  pub origin : Option String
  pub token : Option String
  pub tenant : Option ℕ

-- The claims; `sub` is missing where it is no text or blank, `exp` where it is no finite number.
pub record Claims : Type 0 where
  pub sub : Option ℕ
  pub exp : Option ℕ

pub record Gateway : Type 0 where
  pub allows_origin : Option String → Bool
  pub verify : String → Option Claims
  pub now : ℕ
  pub between : Team → Team

-- The user of claims that have not expired.
unfoldable pub live_user : ℕ → Option Claims → Option ℕ
live_user now none = none
live_user now (some c) = elim c.exp [
  | none ↦ none
  | some exp ↦ if leb (exp * 1000) now then none else c.sub
]

unfoldable pub claimant : Gateway → Handshake → Option ℕ
claimant g h =
    if g.allows_origin h.origin
    then elim h.token [ none ↦ none | some token ↦ live_user g.now (g.verify token) ]
    else none

operational : Role → Option Role
operational r =
    if includes_role (normalized_role r) (waiter ∷ kitchen ∷ cashier ∷ manager ∷ [])
    then some (normalized_role r)
    else none

-- The role of an active member.
unfoldable pub access : Option Membership → Option Role
unfolding operational
access none = none
access (some m) = if m.active then operational m.role else none

unfoldable pub socket_for : Gateway → Handshake → ℕ → Team → Option Socket
socket_for g h id t = elim h.tenant [
  | none ↦ none
  | some tenant ↦ elim (claimant g h) [
    | none ↦ none
    | some user ↦ elim (access (find_membership user tenant t.memberships)) [
      | none ↦ none
      | some role ↦ some (record { id = id; user = user; tenant = tenant; role = role })
    ]
  ]
]

-- `handleConnection`: the socket joins the room, or is disconnected.
unfoldable pub handle_connection : Gateway → Handshake → ℕ → Team → Bool × Team
handle_connection g h id t = elim (socket_for g h id t) [
  | none ↦ (false, t)
  | some s ↦ (true, record (g.between t) { sockets = (g.between t).sockets ++ s ∷ [] })
]
