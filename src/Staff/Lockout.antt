-- ===== src/Staff/Lockout.antt =====
-- A member who is deactivated has no access any more: backend/src/admin.controller.ts with
-- backend/src/tenant.guard.ts and backend/src/orders.gateway.ts.
use comandas_multitenant_off.Prelude.{
  subst, ℕ, ◌≡◌, inl, inr, refl, String, true, false, Option, some, List, [], ◌∷◌, ◌++◌, arith,
  ◌==◌, ◌&&◌, not, is_some, Option-cases,
}
use comandas_multitenant_off.Prelude.Lists.{All, keep}
use comandas_multitenant_off.Http.{ok, err, forbidden, not_member, ◌>>=◌}
use comandas_multitenant_off.Store.{Role}
use comandas_multitenant_off.Guards.{
  Membership, find_membership, Subscription, Feature, bearer, tenant_id, guard, authenticate,
  select_tenant, and_then,
}
use comandas_multitenant_off.Staff.{Team, Socket, disconnect_user, is_member, inactive, deactivate}
use comandas_multitenant_off.Staff.Sockets.{Gateway, Handshake, handle_connection, socket_for}
use comandas_multitenant_off.Staff.Members.{
  is_active, HasMember, HasOnlyMembers, is_of, keep-All, find_membership-change,
}

trivial-All : (xs : List Socket) → All (λ s. Unit {0}) xs
trivial-All [] = tt
trivial-All (x ∷ xs) = (tt, trivial-All xs)

ended :
    (tenant : ℕ) (caller : Option ℕ) (user : ℕ) (t t' : Team)
    → deactivate tenant caller user t ≡ (ok tt, t')
    → is_active (find_membership user tenant t'.memberships) ≡ false
      × (is_some (find_membership user tenant t'.memberships) ≡ true)
      × (t'.sockets ≡ keep (λ s. not ((s.user == user) && (s.tenant == tenant))) t.sockets)
unfolding deactivate disconnect_user is_member ◌>>=◌
ended tenant caller user t t' e =
    ground (arith, find_membership-change user tenant inactive t.memberships (λ m. (refl, refl)))

refused :
    (verify : String → Option ℕ) (ms : List Membership) (subs : List Subscription) (now : ℕ)
    (roles : List Role) (feature : Option Feature) (token : String) (user tenant : ℕ)
    → verify token ≡ some user
    → is_active (find_membership user tenant ms) ≡ false
    → guard verify
        (record { memberships = ms; subscriptions = subs })
        now
        roles
        feature
        (bearer token)
        (tenant_id tenant)
      ≡ err (forbidden not_member)
unfolding guard authenticate select_tenant and_then
refused verify ms subs now roles feature token user tenant known off =
    elim (Option-cases (find_membership user tenant ms)) [
      | inl lost ↦ ground arith
      | inr (m, here) ↦ ground arith
    ]

-- Once an employee is deactivated, no socket of theirs is left in the tenant's room, and the guards
-- refuse every request of theirs for the tenant, with whatever roles and features it asks for.
pub deactivate_locks_out :
    (tenant : ℕ) (caller : Option ℕ) (user : ℕ) (t t' : Team) (verify : String → Option ℕ)
    (subs : List Subscription) (now : ℕ) (roles : List Role) (feature : Option Feature)
    (token : String)
    → deactivate tenant caller user t ≡ (ok tt, t')
    → verify token ≡ some user
    → All (λ s. is_of user tenant s ≡ false) t'.sockets
      × (guard verify
            (record { memberships = t'.memberships; subscriptions = subs })
            now
            roles
            feature
            (bearer token)
            (tenant_id tenant)
          ≡ err (forbidden not_member))
deactivate_locks_out tenant caller user t t' verify subs now roles feature token e known =
    let (off, there, ss) = ended tenant caller user t t' e in
    (
      rw ss (
          keep-All (λ s. not ((s.user == user) && (s.tenant == tenant))) (λ s. Unit {0})
            (λ s. is_of user tenant s ≡ false) t.sockets (λ s other u. ground arith)
            (trivial-All t.sockets)),
      refused verify t'.memberships subs now roles feature token user tenant known off,
    )

last-All : (P : Socket → Type 0) (xs : List Socket) (x : Socket) → All P (xs ++ x ∷ []) → P x
last-All P [] x (p, h) = p
last-All P (y ∷ ys) x (p, h) = last-All P ys x h

-- A handshake joins after it looked the membership up: where the user is deactivated in between,
-- their new socket stays in the tenant's room.
pub handshake_race_stays :
    (g : Gateway) (hs : Handshake) (id : ℕ) (s : Socket) (t : Team)
    → socket_for g hs id t ≡ some s
    → is_active (find_membership s.user s.tenant (g.between t).memberships) ≡ false
    → ¬ (HasOnlyMembers (handle_connection g hs id t).1)
unfolding handle_connection
handshake_race_stays g hs id s t made off h =
    let u : Team = g.between t in
    let joined : (handle_connection g hs id t).1 ≡ record u { sockets = u.sockets ++ s ∷ [] } =
      ground (arith, made) in
    let all = (subst HasOnlyMembers joined h).all in
    let there : is_active (find_membership s.user s.tenant u.memberships) ≡ true =
      last-All (HasMember u.memberships) u.sockets s all in
    ground (arith, there, off)
