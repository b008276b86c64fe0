-- ===== src/Staff/Access.antt =====
-- Who has access after the endpoints of backend/src/admin.controller.ts and the handshakes of
-- backend/src/orders.gateway.ts.
use comandas_multitenant_off.Prelude.{
  subst, ℕ, ◌≡◌, ◌⊎◌, inl, inr, refl, sym, true, false, Option, some, List, [], ◌∷◌, ◌++◌, arith,
  ◌==◌, ◌&&◌, not, is_some, Bool-cases, Option-cases, is_id,
}
use comandas_multitenant_off.Prelude.Lists.{keep}
use comandas_multitenant_off.Http.{◌>>=◌}
use comandas_multitenant_off.Prelude.Trim.{trim}
use comandas_multitenant_off.Guards.{Membership}
use comandas_multitenant_off.Sessions.{Crypto}
use comandas_multitenant_off.Staff.{
  Team, Socket, CreateEmployeeDto, UpdateEmployeeDto, change_member, disconnect_user, is_member,
  inactive, set_member, deactivates, insert_membership, insert_user, create_employee,
  update_employee, deactivate, lower, hire, register, find_email,
}
use comandas_multitenant_off.Staff.Sockets.{
  Gateway, Handshake, handle_connection, socket_for, access,
}
use comandas_multitenant_off.Staff.Members.{
  HasMember, HasOnlyMembers, append-All, find_membership-change, same-HasOnlyMembers,
  dropped-HasOnlyMembers, kept-HasOnlyMembers, added-HasOnlyMembers,
}

-- A request about the staff, or a handshake with the socket's id.
pub data StaffCall : Type 0 where
  hiring : CreateEmployeeDto → StaffCall
  changing : ℕ → UpdateEmployeeDto → StaffCall
  deactivating : ℕ → StaffCall
  connecting : Handshake → ℕ → StaffCall

unfoldable pub serve_staff : StaffCall → Crypto → List ℕ → Gateway → ℕ → Option ℕ → Team → Team
serve_staff (hiring body) c salt g tenant caller t =
    (create_employee c salt g.between tenant body t).1
serve_staff (changing user body) c salt g tenant caller t =
    (update_employee g.between tenant caller user body t).1
serve_staff (deactivating user) c salt g tenant caller t = (deactivate tenant caller user t).1
serve_staff (connecting h id) c salt g tenant caller t = (handle_connection g h id t).1

-- Nothing comes between a handshake's look at the membership and its join.
abbrev pub IsUndisturbed : StaffCall → Gateway → Type 0
IsUndisturbed (connecting h id) g = (t : Team) → g.between t ≡ t
IsUndisturbed call g = Unit

set_member-same :
    (body : UpdateEmployeeDto) (m : Membership)
    → ((set_member body m).user ≡ m.user) × ((set_member body m).tenant ≡ m.tenant)
unfolding set_member
set_member-same body m = (refl, refl)

set_member-stays :
    (body : UpdateEmployeeDto) (m : Membership)
    → deactivates body.active ≡ false
    → m.active ≡ true
    → (set_member body m).active ≡ true
unfolding set_member deactivates
set_member-stays body m on active = ground arith

module _ (c : Crypto) (salt : List ℕ) (g : Gateway) (tenant : ℕ) (caller : Option ℕ) (t : Team)
    (others : (u : Team) → HasOnlyMembers u → HasOnlyMembers (g.between u))
    (h : HasOnlyMembers t) where
  -- What an update may have done.
  abbrev Outcome : ℕ → UpdateEmployeeDto → Team → Type 0
  Outcome user body t' =
      ((t' ≡ t)
        ⊎ ((t'.memberships ≡ (g.between t).memberships) × (t'.sockets ≡ (g.between t).sockets)))
      ⊎ (((deactivates body.active ≡ false)
            × (t'.memberships
                ≡ change_member user tenant (set_member body) (g.between t).memberships)
            × (t'.sockets ≡ (g.between t).sockets))
          ⊎ ((t'.memberships
                ≡ change_member user tenant (set_member body) (g.between t).memberships)
              × (t'.sockets
                  ≡ keep (λ s. not ((s.user == user) && (s.tenant == tenant)))
                      (g.between t).sockets)))

  outcome :
      (user : ℕ) (body : UpdateEmployeeDto)
      → Outcome user body (update_employee g.between tenant caller user body t).1
  unfolding update_employee is_member disconnect_user deactivates ◌>>=◌
  outcome user body = ground (
    arith,
    find_membership-change user tenant (set_member body) (g.between t).memberships
        (set_member-same body),
  )

  update_employee-HasOnlyMembers :
      (user : ℕ) (body : UpdateEmployeeDto)
      → HasOnlyMembers (update_employee g.between tenant caller user body t).1
  update_employee-HasOnlyMembers user body =
      let u : Team = g.between t in
      let after : Team = (update_employee g.between tenant caller user body t).1 in
      elim (outcome user body) [
        | inl (inl unchanged) ↦ subst HasOnlyMembers (sym unchanged) h
        | inl (inr (ms, ss)) ↦ same-HasOnlyMembers u after (others t h) ms ss
        | inr (inl (on, ms, ss)) ↦
            kept-HasOnlyMembers user tenant (set_member body) u after (set_member-same body)
              (λ m. set_member-stays body m on) (others t h) ms ss
        | inr (inr (ms, ss)) ↦
            dropped-HasOnlyMembers user tenant (set_member body) u after (set_member-same body)
              (others t h) ms ss
      ]

  deactivate-HasOnlyMembers : (user : ℕ) → HasOnlyMembers (deactivate tenant caller user t).1
  unfolding deactivate disconnect_user ◌>>=◌
  deactivate-HasOnlyMembers user = elim (Bool-cases (is_id caller user)) [
    | inl own ↦ subst HasOnlyMembers (ground arith) h
    | inr other ↦ elim (Bool-cases (is_member user tenant t)) [
      | inr lost ↦ subst HasOnlyMembers (ground arith) h
      | inl there ↦
          dropped-HasOnlyMembers user tenant inactive t _ (λ m. (refl, refl)) h (ground arith)
            (ground arith)
    ]
  ]

  -- What a new employee adds.
  added :
      (body : CreateEmployeeDto)
      → ((create_employee c salt g.between tenant body t).1 ≡ t)
        ⊎ (((create_employee c salt g.between tenant body t).1 ≡ g.between t)
            ⊎ ((n : Membership) × ((create_employee c salt g.between tenant body t).1.memberships
                  ≡ (g.between t).memberships ++ n ∷ [])
                × ((create_employee c salt g.between tenant body t).1.sockets
                    ≡ (g.between t).sockets)))
  unfolding create_employee hire register insert_membership insert_user ◌>>=◌
  added body = elim (Option-cases (find_email (lower (trim body.email)) t)) [
    | inl fresh ↦ elim (Bool-cases (is_some (find_email (lower (trim body.email)) (g.between t)))) [
      | inl taken ↦ inr (inl (ground arith))
      | inr free ↦ inr (
          inr (
            record {
              user = (g.between t).next_id;
              tenant = tenant;
              role = body.role;
              active = true;
            },
            ground arith,
            ground arith,
          ))
    ]
    | inr ((id, u), found) ↦ elim (Bool-cases (is_member id tenant t)) [
      | inl known ↦ inl (ground arith)
      | inr new ↦ elim (Bool-cases (is_member id tenant (g.between t))) [
        | inl taken ↦ inr (inl (ground arith))
        | inr free ↦ inr (
            inr (
              record { user = id; tenant = tenant; role = body.role; active = true },
              ground arith,
              ground arith,
            ))
      ]
    ]
  ]

  create_employee-HasOnlyMembers :
      (body : CreateEmployeeDto) → HasOnlyMembers (create_employee c salt g.between tenant body t).1
  create_employee-HasOnlyMembers body = elim (added body) [
    | inl unchanged ↦ subst HasOnlyMembers (sym unchanged) h
    | inr (inl refused) ↦ subst HasOnlyMembers (sym refused) (others t h)
    | inr (inr (n, ms, ss)) ↦ added-HasOnlyMembers n (g.between t) _ (others t h) ms ss
  ]

  socket-HasMember :
      (hs : Handshake) (id : ℕ) (s : Socket)
      → socket_for g hs id t ≡ some s
      → HasMember t.memberships s
  unfolding socket_for access
  socket-HasMember hs id s e = ground arith

  handle_connection-HasOnlyMembers :
      (hs : Handshake) (id : ℕ) → g.between t ≡ t → HasOnlyMembers (handle_connection g hs id t).1
  unfolding handle_connection
  handle_connection-HasOnlyMembers hs id quiet = elim (Option-cases (socket_for g hs id t)) [
    | inl refused ↦ subst HasOnlyMembers (ground arith) h
    | inr (s, made) ↦
        let joined : Team = record t { sockets = t.sockets ++ s ∷ [] } in
        let only : HasOnlyMembers joined = record {
          all =
              append-All (HasMember t.memberships) t.sockets s h.all
                (socket-HasMember hs id s made);
        } in
        subst HasOnlyMembers (ground (arith, made, quiet)) only
  ]

-- Requests about the staff and handshakes, whatever other requests commit in between, leave only
-- sockets of active members in a tenant's room; of a handshake this holds if nothing comes between
-- its look at the membership and its join.
pub serve_staff-HasOnlyMembers :
    (call : StaffCall) (c : Crypto) (salt : List ℕ) (g : Gateway) (tenant : ℕ) (caller : Option ℕ)
    (t : Team)
    → ((u : Team) → HasOnlyMembers u → HasOnlyMembers (g.between u))
    → IsUndisturbed call g
    → HasOnlyMembers t
    → HasOnlyMembers (serve_staff call c salt g tenant caller t)
unfolding serve_staff
serve_staff-HasOnlyMembers (hiring body) c salt g tenant caller t others quiet h =
    create_employee-HasOnlyMembers c salt g tenant caller t others h body
serve_staff-HasOnlyMembers (changing user body) c salt g tenant caller t others quiet h =
    update_employee-HasOnlyMembers c salt g tenant caller t others h user body
serve_staff-HasOnlyMembers (deactivating user) c salt g tenant caller t others quiet h =
    deactivate-HasOnlyMembers c salt g tenant caller t others h user
serve_staff-HasOnlyMembers (connecting hs id) c salt g tenant caller t others quiet h =
    handle_connection-HasOnlyMembers c salt g tenant caller t others h hs id (quiet t)
